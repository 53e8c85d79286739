-- ===== src/Managed/Planner/Closure/Fixpoint.antt =====
-- What the loop over dependencies leaves selected.
use llmcut.Prelude.{
  ℕ, zero, suc, String, true, false, List, [], ◌∷◌, elem, elem-append, ◌≡◌, subst, length, arith,
  Bool-cases, inl, inr,
}
use llmcut.Result.{ok, >>=-eq-ok, ok_inj, or_raise, key_error}
use llmcut.Managed.Protocol.{Context}
use llmcut.Managed.Planner.Choice.{Selection}
use llmcut.Managed.Planner.Choice.Kept.{Grows}
use llmcut.Managed.Planner.Closure.{
  Round, context_of, wants, select_dependency, scan_dependencies, scan, rounds, close,
}

select_dependency-Grows :
    (i d : String) (c : Context) (r : Round) → Grows r.0 (select_dependency i d c r).0
select_dependency-Grows i d c (s, changed) j h = elim (Bool-cases (wants s d c)) [
  | inl e ↦ rw e (ground (arith, elem-append j s.selected (d ∷ []), h))
  | inr e ↦ rw e h
]

scan_dependencies-Grows :
    (cs : List Context) (i : String) (ds : List String) (r r' : Round)
    → scan_dependencies cs i ds r ≡ ok r'
    → Grows r.0 r'.0
unfolding scan_dependencies
scan_dependencies-Grows cs i [] r r' h j e =
    subst (λ (x : Round). elem j x.0.selected ≡ true) (ok_inj h) e
scan_dependencies-Grows cs i (d ∷ ds) r r' h j e =
    let (c, f, g) = >>=-eq-ok (or_raise (context_of d cs) (key_error "by_id")) _ h in
    scan_dependencies-Grows cs i ds (select_dependency i d c r) r' g j
      (select_dependency-Grows i d c r j e)

scan-Grows :
    (cs : List Context) (is : List String) (r r' : Round) → scan cs is r ≡ ok r' → Grows r.0 r'.0
unfolding scan
scan-Grows cs [] r r' h j e = subst (λ (x : Round). elem j x.0.selected ≡ true) (ok_inj h) e
scan-Grows cs (i ∷ is) r r' h j e =
    let (c, f, g) = >>=-eq-ok (or_raise (context_of i cs) (key_error "by_id")) _ h in
    let (q, k, l) = >>=-eq-ok (scan_dependencies cs i c.dependencies r) _ g in
    scan-Grows cs is q r' l j (scan_dependencies-Grows cs i c.dependencies r q k j e)

rounds-Grows :
    (fuel : ℕ) (cs : List Context) (s t : Selection) → rounds fuel cs s ≡ ok t → Grows s t
unfolding rounds
rounds-Grows zero cs s t h j e = ground arith
rounds-Grows (suc fuel) cs s t h j e =
    let (r, f, g) = >>=-eq-ok (scan cs s.selected (s, false)) _ h in
    let e' = scan-Grows cs s.selected (s, false) r f j e in
    elim (Bool-cases r.1) [
      | inl b ↦
          rounds-Grows fuel cs r.0 t
            (subst (λ x. elim x [ true ↦ rounds fuel cs r.0 | false ↦ ok r.0 ] ≡ ok t) b g) j e'
      | inr b ↦
          subst (λ (x : Selection). elem j x.selected ≡ true)
            (ok_inj (subst (λ x. elim x [ true ↦ rounds fuel cs r.0 | false ↦ ok r.0 ] ≡ ok t) b g))
            e'
    ]

-- The loop over dependencies only adds to the selection.
pub close-Grows : (cs : List Context) (s t : Selection) → close cs s ≡ ok t → Grows s t
unfolding close
close-Grows cs s t h = rounds-Grows (suc (length cs)) cs s t h
