-- ===== src/Managed/Protocol/Identifier.antt =====
-- `_IDENTIFIER` of src/llmcut/managed/protocol.py: `[A-Za-z0-9][A-Za-z0-9._:-]{0,127}`.
use Prim.Native.Char.{code}
use Prim.Native.String.{count}
use llmcut.Prelude.{ℕ, String, Bool, true, false, ◌&&◌, ◌||◌, leb, ◌==◌}

abbrev is_alphanumeric : ℕ → Bool
is_alphanumeric c = (leb 48 c && leb c 57) || (leb 65 c && leb c 90) || (leb 97 c && leb c 122)

-- `.`, `_`, `:` and `-`
abbrev is_mark : ℕ → Bool
is_mark c = (c == 46) || (c == 95) || (c == 58) || (c == 45)

all_marks : String → Bool
all_marks String.[] = true
all_marks (String.◌∷◌ c s) = (is_alphanumeric (code c) || is_mark (code c)) && all_marks s

unfoldable pub is_identifier : String → Bool
unfolding all_marks
is_identifier String.[] = false
is_identifier (String.◌∷◌ c s) = is_alphanumeric (code c) && all_marks s && leb (count s) 127
