-- ===== src/Core/Command.antt =====
-- src/llmcut/core/command.py: the output of a command is stored, and a summary of it is used where
-- that is smaller. The duration is in thousandths.
use Prim.Native.String.{◌++◌ as join, len}
use llmcut.Prelude.{
  ℕ, zero, suc, ◌-◌, ◌<◌, String, Bool, none, some, List, [], ◌∷◌, ◌++◌, keep_if, length, drop,
  elem, ltb, if◌then◌else◌, ◌≡◌, ◌⊎◌, refl, ap, sym, ◌∙◌, subst, inl, inr, Bool-cases, ltb→lt,
}
use llmcut.Result.{ok, ok_inj}
use llmcut.Json.{ℤ, str, int, pos, field, end}
use llmcut.Exec.{Exec, ◌>>=◌, pure, >>=-eq-ok}
use llmcut.World.{World}
use llmcut.Model.{EvidenceReference}
use llmcut.Store.Evidence
use llmcut.Store.Evidence.{EvidenceStore, put, persisted}
use llmcut.Store.Evidence.Integrity.{get-put}
use llmcut.Core.Recover.{join_lines}

pub record VirtualCommandOutput : Type 0 where
  pub command : List String
  pub working_directory : String
  pub exit_status : ℤ
  pub duration_seconds : ℕ
  pub summary : String
  pub warnings : List String
  pub failures : List String
  pub source_locations : List String
  pub reference : EvidenceReference
  pub parser : String
  pub selected : Bool
  pub effective_context : String

abbrev join_words : List String → String
join_words [] = ""
join_words (x ∷ []) = x
join_words (x ∷ y ∷ xs) = join x (join " " (join_words (y ∷ xs)))

abbrev executable_of : World → List String → String
executable_of w [] = ""
executable_of w (c ∷ cs) = w.base_name c

-- `_format`
unfoldable pub format_of : World → List String → String
format_of w command =
    let executable = executable_of w command in
    if elem executable ("pytest" ∷ "ruff" ∷ "mypy" ∷ "git" ∷ [])
    then executable
    else if elem executable ("gcc" ∷ "g++" ∷ "clang" ∷ "cargo" ∷ "go" ∷ [])
    then "compiler"
    else "generic"

abbrev locations : World → List String → List String
locations w [] = []
locations w (l ∷ ls) =
    let rest = locations w ls in elim (w.find_location l) [ none ↦ rest | some m ↦ m ∷ rest ]

-- `list(dict.fromkeys(lines))`: each line once, where it stands first
abbrev unique_from : List String → List String → List String
unique_from seen [] = []
unique_from seen (l ∷ ls) =
    let rest = unique_from seen ls in
    let rest_seen = unique_from (l ∷ seen) ls in if elem l seen then rest else l ∷ rest_seen

-- `lines[-n:]`; a limit of 0 takes all of them
abbrev last_lines : ℕ → List String → List String
last_lines zero lines = lines
last_lines (suc n) lines = drop (length lines - suc n) lines

-- the lines that the summary shows
unfoldable pub important : World → ℕ → List String → List String
important w limit lines = unique_from [] (
    keep_if (w.search "\\bfail(?:ed|ure)?\\b|\\berror\\b") lines
    ++ keep_if (w.search "\\bwarning\\b|\\bskipped\\b") lines
    ++ keep_if (w.search_exactly "^\\s*(?:E\\s+|File \"|at\\s+)") lines
    ++ last_lines limit lines)

abbrev number : World → ℕ → String
number w n = w.to_str (int (pos n))

unfoldable pub summary_of : World → ℕ → List String → String → String
summary_of w limit lines digest =
    let shown = join_lines (important w limit lines) in
    if ltb limit (length lines)
    then join shown (
        join "\n[" (
          join (number w (length lines - limit))
            (join " earlier lines recoverable as " (join digest "]"))))
    else shown

unfoldable pub wrapper_of : World → List String → String → ℤ → ℕ → String → String → String
wrapper_of w command cwd exit duration summary digest = join "command=" (
    join (w.repr command) (
      join "\ncwd=" (
        join cwd (
          join "\nexit=" (
            join (w.to_str (int exit)) (
              join "\nduration=" (
                join (w.fixed duration) (
                  join "s\nparser=" (
                    join (format_of w command)
                      (join "\n" (join summary (join "\nraw=" digest))))))))))))

unfoldable pub output_of :
    World → String → List String → String → ℤ → ℕ → ℕ → EvidenceReference → VirtualCommandOutput
output_of w raw command cwd exit duration limit reference =
    let lines = w.split_lines raw in
    let summary = summary_of w limit lines reference.digest in
    let wrapper = wrapper_of w command cwd exit duration summary reference.digest in
    let selected = ltb (len wrapper) (len raw) in
    record {
      command = command;
      working_directory = cwd;
      exit_status = exit;
      duration_seconds = duration;
      summary = summary;
      warnings = keep_if (w.search "\\bwarning\\b|\\bskipped\\b") lines;
      failures = keep_if (w.search "\\bfail(?:ed|ure)?\\b|\\berror\\b") lines;
      source_locations = locations w lines;
      reference = reference;
      parser = format_of w command;
      selected = selected;
      effective_context = if selected then wrapper else raw;
    }

-- `virtualize_output`
unfoldable pub virtualize_output :
    World → String → List String → String → ℤ → ℕ → ℕ → Exec EvidenceStore VirtualCommandOutput
virtualize_output w raw command cwd exit duration limit =
    put w raw (join "command:" (join_words command)) none (field "cwd" (str cwd) end)
    >>= λ reference. pure (output_of w raw command cwd exit duration limit reference)

module _ (w : World) (raw : String) (command : List String) (cwd : String) (exit : ℤ)
    (duration limit : ℕ) where
  output_of-smaller :
      (reference : EvidenceReference)
      → let out = output_of w raw command cwd exit duration limit reference in
        (out.effective_context ≡ raw) ⊎ (len out.effective_context < len raw)
  unfolding output_of
  output_of-smaller reference =
      let wrapper =
        wrapper_of w command cwd exit duration
          (summary_of w limit (w.split_lines raw) reference.digest) reference.digest in
      elim (Bool-cases (ltb (len wrapper) (len raw))) [
        | inl e ↦ rw e (inr (ltb→lt (len wrapper) (len raw) e))
        | inr e ↦ rw e (inl refl)
      ]

  output_of-reference :
      (reference : EvidenceReference)
      → (output_of w raw command cwd exit duration limit reference).reference ≡ reference
  unfolding output_of
  output_of-reference reference = refl

-- What a command's output is replaced by has fewer bytes, or is the output itself; and the persisted
-- output is read back by the digest of the reference, in the store that is left.
pub virtualize_output-smaller :
    (w : World) (raw : String) (command : List String) (cwd : String) (exit : ℤ)
    (duration limit : ℕ) (s : EvidenceStore) (out : VirtualCommandOutput)
    → (virtualize_output w raw command cwd exit duration limit s).0 ≡ ok out
    → ((out.effective_context ≡ raw) ⊎ (len out.effective_context < len raw))
      × ((Evidence.get w out.reference.digest
            (virtualize_output w raw command cwd exit duration limit s).1).0
          ≡ ok (persisted w s.persist_content raw))
unfolding virtualize_output
virtualize_output-smaller w raw command cwd exit duration limit s out h =
    let source = join "command:" (join_words command) in
    let (r, e, h1, p) = >>=-eq-ok (put w raw source none (field "cwd" (str cwd) end)) _ s h in
    let same = ok_inj h1 in
    let own =
      sym (output_of-reference w raw command cwd exit duration limit r)
      ∙ ap (λ (x : VirtualCommandOutput). x.reference) same in
    (
      subst
          (λ (x : VirtualCommandOutput).
            (x.effective_context ≡ raw) ⊎ (len x.effective_context < len raw))
          same (output_of-smaller w raw command cwd exit duration limit r),
      rw p (
          subst
            (λ (x : EvidenceReference).
              (Evidence.get w x.digest (put w raw source none (field "cwd" (str cwd) end) s).1).0
              ≡ ok (persisted w s.persist_content raw))
            own (get-put w s raw source none (field "cwd" (str cwd) end) r e)),
    )
