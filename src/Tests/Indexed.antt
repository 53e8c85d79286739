-- ===== src/Tests/Indexed.antt =====
-- A file of three lines, and a symbol on the second.
use llmcut.Prelude.{true, [], ◌∷◌, elem, ◌≡◌, refl, arith}
use llmcut.Index.Content.{SymbolRange, lines_of, import_end, rendered}
use llmcut.Index.Content.Covered.{lines_of-covers}
use llmcut.Tests.Fixtures.{world}

abbrev symbol : SymbolRange
symbol = record { name = "f"; kind = "function"; start_line = 2; end_line = 2 }

lines_of-covers_example : elem "second" (lines_of world "a.py" (symbol ∷ []) "first") ≡ true
lines_of-covers_example =
    lines_of-covers world "a.py" "first" symbol [] [] 1 "second" refl (omega arith) (omega arith)

-- the whole file is rendered below a line that says that lines are missing
nothing_omitted :
    lines_of world "a.py" (symbol ∷ []) "first"
    ≡ "# … omitted lines; recoverable from a.py …" ∷ "first" ∷ "second" ∷ "third" ∷ []
unfolding rendered import_end
nothing_omitted = refl
