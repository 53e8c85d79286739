-- ===== src/Managed/Planner/Closure/Ends.antt =====
-- Why the loop over dependencies ends: a round that changes something selects a context that was not
-- selected, and a round that changes nothing leaves nothing to select.
use llmcut.Prelude.{
  ℕ, zero, suc, ◌≤◌, ◌<◌, String, Bool, true, false, Option, none, some, List, [], ◌∷◌, ◌++◌, elem,
  elem-append, eq_iff, length, ◌≡◌, ◌⊎◌, refl, sym, ap, ◌∙◌, subst, Bool-cases, Option-cases, inl,
  inr, arith, if◌then◌else◌, All,
}
use llmcut.Result.{Result, Error, ok, err, >>=-eq-ok, ◌>>=◌, ok_inj, or_raise, key_error}
use llmcut.Managed.Protocol.{Context}
use llmcut.Managed.Planner.Choice.{Selection}
use llmcut.Managed.Planner.Closure.{
  Round, context_of, wants, select_dependency, scan_dependencies, scan, rounds, close,
}

-- the contexts that are not selected
abbrev pub unselected : List String → List Context → ℕ
unselected chosen [] = 0
unselected chosen (c ∷ cs) =
    let rest = unselected chosen cs in if elem c.id chosen then rest else suc rest

unselected-le : (chosen : List String) (cs : List Context) → unselected chosen cs ≤ length cs
unselected-le chosen [] = omega arith
unselected-le chosen (c ∷ cs) = ground (arith, unselected-le chosen cs)

unselected_mono :
    (chosen : List String) (d : String) (cs : List Context)
    → unselected (chosen ++ d ∷ []) cs ≤ unselected chosen cs
unselected_mono chosen d [] = omega arith
unselected_mono chosen d (c ∷ cs) =
    ground (arith, unselected_mono chosen d cs, elem-append c.id chosen (d ∷ []))

-- To select a context that was not selected leaves fewer that are not.
unselected_less :
    (chosen : List String) (d : String) (c : Context) (cs : List Context)
    → context_of d cs ≡ some c
    → elem d chosen ≡ false
    → unselected (chosen ++ d ∷ []) cs < unselected chosen cs
unfolding context_of
unselected_less chosen d c [] h n = ground (arith, h)
unselected_less chosen d c (x ∷ cs) h n = elim (Option-cases (context_of d cs)) [
  | inr (e, found) ↦
      ground (arith, unselected_less chosen d e cs found n, elem-append x.id chosen (d ∷ []))
  | inl none_there ↦ ground (
    arith,
    unselected_mono chosen d cs,
    elem-append x.id chosen (d ∷ []),
    none_there,
    h,
    n,
    eq_iff d x.id,
    eq_iff x.id d,
  )
]

-- A part of a round never leaves more unselected, and leaves fewer where it is the first to change
-- something.
abbrev Shrinks : List Context → Round → Round → Type 0
Shrinks cs r t =
    (unselected t.0.selected cs ≤ unselected r.0.selected cs)
    × (t.1 ≡ true → (r.1 ≡ true) ⊎ (unselected t.0.selected cs < unselected r.0.selected cs))

Shrinks-refl : (cs : List Context) (r : Round) → Shrinks cs r r
Shrinks-refl cs r = (omega arith, λ h. inl h)

Shrinks-trans :
    (cs : List Context) (r t u : Round) → Shrinks cs r t → Shrinks cs t u → Shrinks cs r u
Shrinks-trans cs r t u (a, f) (b, g) = (
  omega (arith, a, b),
  λ h. elim (g h) [
    | inr k ↦ inr (omega (arith, a, k))
    | inl k ↦ elim (f k) [ inl m ↦ inl m | inr m ↦ inr (omega (arith, b, m)) ]
  ],
)

wants-unselected :
    (s : Selection) (d : String) (c : Context) → wants s d c ≡ true → elem d s.selected ≡ false
wants-unselected s d c h = ground (arith, h)

select_dependency-Shrinks :
    (cs : List Context) (i d : String) (c : Context) (r : Round)
    → context_of d cs ≡ some c
    → Shrinks cs r (select_dependency i d c r)
select_dependency-Shrinks cs i d c (s, changed) found = elim (Bool-cases (wants s d c)) [
  | inl e ↦
      let less = unselected_less s.selected d c cs found (wants-unselected s d c e) in
      rw e (omega (arith, less), λ h. inr less)
  | inr e ↦ rw e (Shrinks-refl cs (s, changed))
]

found_by : (o : Option Context) (c : Context) → or_raise o (key_error "by_id") ≡ ok c → o ≡ some c
found_by none c h = ground arith
found_by (some d) c h = ap some (ok_inj h)

scan_dependencies-Shrinks :
    (cs : List Context) (i : String) (ds : List String) (r t : Round)
    → scan_dependencies cs i ds r ≡ ok t
    → Shrinks cs r t
unfolding scan_dependencies
scan_dependencies-Shrinks cs i [] r t h = subst (Shrinks cs r) (ok_inj h) (Shrinks-refl cs r)
scan_dependencies-Shrinks cs i (d ∷ ds) r t h =
    let (c, f, g) = >>=-eq-ok (or_raise (context_of d cs) (key_error "by_id")) _ h in
    Shrinks-trans cs r (select_dependency i d c r) t
      (select_dependency-Shrinks cs i d c r (found_by (context_of d cs) c f))
      (scan_dependencies-Shrinks cs i ds (select_dependency i d c r) t g)

scan-Shrinks :
    (cs : List Context) (is : List String) (r t : Round) → scan cs is r ≡ ok t → Shrinks cs r t
unfolding scan
scan-Shrinks cs [] r t h = subst (Shrinks cs r) (ok_inj h) (Shrinks-refl cs r)
scan-Shrinks cs (i ∷ is) r t h =
    let (c, f, g) = >>=-eq-ok (or_raise (context_of i cs) (key_error "by_id")) _ h in
    let (q, k, l) = >>=-eq-ok (scan_dependencies cs i c.dependencies r) _ g in
    Shrinks-trans cs r q t (scan_dependencies-Shrinks cs i c.dependencies r q k)
      (scan-Shrinks cs is q t l)

-- a result, or the `KeyError` of an identifier that names no context
abbrev pub IsLookedUp {ℓ} : {A : Type ℓ} → Result A → Type ℓ
IsLookedUp {A} r = ((a : A) × (r ≡ ok a)) ⊎ (r ≡ err (key_error "by_id"))

err_inj {ℓ} : {A : Type ℓ} {d e : Error} → ◌≡◌ {A = Result A} (err d) (err e) → d ≡ e
err_inj {d} h = ap (λ r. elim r [ ok x ↦ d | err x ↦ x ]) h

bind-IsLookedUp {ℓ κ} :
    {A : Type ℓ} {B : Type κ} (m : Result A) (f : A → Result B)
    → IsLookedUp m
    → ((a : A) → IsLookedUp (f a))
    → IsLookedUp (m >>= f)
bind-IsLookedUp (ok a) f h g = g a
bind-IsLookedUp (err e) f (inl (a, same)) g = ground arith
bind-IsLookedUp (err e) f (inr same) g = rw (err_inj same) (inr refl)

or_raise-IsLookedUp {ℓ} : {A : Type ℓ} (o : Option A) → IsLookedUp (or_raise o (key_error "by_id"))
or_raise-IsLookedUp none = inr refl
or_raise-IsLookedUp (some a) = inl (a, refl)

scan_dependencies-IsLookedUp :
    (cs : List Context) (i : String) (ds : List String) (r : Round)
    → IsLookedUp (scan_dependencies cs i ds r)
unfolding scan_dependencies
scan_dependencies-IsLookedUp cs i [] r = inl (r, refl)
scan_dependencies-IsLookedUp cs i (d ∷ ds) r =
    bind-IsLookedUp (or_raise (context_of d cs) (key_error "by_id"))
      (λ c. scan_dependencies cs i ds (select_dependency i d c r))
      (or_raise-IsLookedUp (context_of d cs))
      λ c. scan_dependencies-IsLookedUp cs i ds (select_dependency i d c r)

scan-IsLookedUp : (cs : List Context) (is : List String) (r : Round) → IsLookedUp (scan cs is r)
unfolding scan
scan-IsLookedUp cs [] r = inl (r, refl)
scan-IsLookedUp cs (i ∷ is) r =
    bind-IsLookedUp (or_raise (context_of i cs) (key_error "by_id"))
      (λ c. scan_dependencies cs i c.dependencies r >>= λ q. scan cs is q)
      (or_raise-IsLookedUp (context_of i cs))
      λ c.
        bind-IsLookedUp (scan_dependencies cs i c.dependencies r) (λ q. scan cs is q)
          (scan_dependencies-IsLookedUp cs i c.dependencies r) λ q. scan-IsLookedUp cs is q

abbrev next : ℕ → List Context → Round → Result Selection
next fuel cs r = elim r.1 [ true ↦ rounds fuel cs r.0 | false ↦ ok r.0 ]

fewer :
    (fuel : ℕ) (cs : List Context) (s : Selection) (r : Round)
    → unselected s.selected cs < suc fuel
    → (Bool.false ≡ true) ⊎ (unselected r.0.selected cs < unselected s.selected cs)
    → unselected r.0.selected cs < fuel
fewer fuel cs s r h (inl e) = ground (arith, e)
fewer fuel cs s r h (inr e) = omega (arith, h, e)

rounds-IsLookedUp :
    (fuel : ℕ) (cs : List Context) (s : Selection)
    → unselected s.selected cs < fuel
    → IsLookedUp (rounds fuel cs s)
unfolding rounds
rounds-IsLookedUp zero cs s h = absurd (omega (arith, h))
rounds-IsLookedUp (suc fuel) cs s h = elim (scan-IsLookedUp cs s.selected (s, false)) [
  | inr e ↦ rw e (inr refl)
  | inl (r, e) ↦ rw e (elim (Bool-cases r.1) [
    | inr stays ↦ rw stays (inl (r.0, refl))
    | inl grew ↦ rw grew (
        rounds-IsLookedUp fuel cs r.0
          (fewer fuel cs s r h ((scan-Shrinks cs s.selected (s, false) r e).1 grew)))
  ])
]

-- The loop over dependencies ends: with one round more than there are contexts it returns a
-- selection, or raises the `KeyError` of an identifier that names no context. It never exhausts its
-- fuel.
pub close-IsLookedUp : (cs : List Context) (s : Selection) → IsLookedUp (close cs s)
unfolding close
close-IsLookedUp cs s =
    rounds-IsLookedUp (suc (length cs)) cs s (omega (arith, unselected-le s.selected cs))

-- a dependency that a round would not select: there is such a context, and it is selected or
-- recoverable
abbrev pub IsSettled : List Context → Selection → String → Type 0
IsSettled cs s d = (c : Context) × (context_of d cs ≡ some c) × (wants s d c ≡ false)

-- each dependency of a selected context is settled
abbrev pub IsClosed : List Context → Selection → Type 0
IsClosed cs s =
    All (λ i. (c : Context) × (context_of i cs ≡ some c) × All (IsSettled cs s) c.dependencies)
      s.selected

select_dependency-still :
    (i d : String) (c : Context) (r : Round)
    → (select_dependency i d c r).1 ≡ false
    → (select_dependency i d c r ≡ r) × (wants r.0 d c ≡ false)
select_dependency-still i d c (s, changed) h = elim (Bool-cases (wants s d c)) [
  | inl e ↦ ground (arith, e, h)
  | inr e ↦ (rw e refl, e)
]

scan_dependencies-still :
    (cs : List Context) (i : String) (ds : List String) (r t : Round)
    → scan_dependencies cs i ds r ≡ ok t
    → t.1 ≡ false
    → (t ≡ r) × All (IsSettled cs r.0) ds
unfolding scan_dependencies
scan_dependencies-still cs i [] r t h e = (sym (ok_inj h), tt)
scan_dependencies-still cs i (d ∷ ds) r t h e =
    let (c, f, g) = >>=-eq-ok (or_raise (context_of d cs) (key_error "by_id")) _ h in
    let (same, settled) = scan_dependencies-still cs i ds (select_dependency i d c r) t g e in
    let (unmoved, unwanted) =
      select_dependency-still i d c r (ap (λ (x : Round). x.1) (sym same) ∙ e) in
    (
      same ∙ unmoved,
      (
        (c, found_by (context_of d cs) c f, unwanted),
        subst (λ (x : Round). All (IsSettled cs x.0) ds) unmoved settled,
      ),
    )

scan-still :
    (cs : List Context) (is : List String) (r t : Round)
    → scan cs is r ≡ ok t
    → t.1 ≡ false
    → (t ≡ r)
      × All
          (λ i. (c : Context) × (context_of i cs ≡ some c) × All (IsSettled cs r.0) c.dependencies)
          is
unfolding scan
scan-still cs [] r t h e = (sym (ok_inj h), tt)
scan-still cs (i ∷ is) r t h e =
    let (c, f, g) = >>=-eq-ok (or_raise (context_of i cs) (key_error "by_id")) _ h in
    let (q, k, l) = >>=-eq-ok (scan_dependencies cs i c.dependencies r) _ g in
    let (same, rest) = scan-still cs is q t l e in
    let (unmoved, settled) =
      scan_dependencies-still cs i c.dependencies r q k (ap (λ (x : Round). x.1) (sym same) ∙ e) in
    (
      same ∙ unmoved,
      (
        (c, found_by (context_of i cs) c f, settled),
        subst
            (λ (x : Round).
              All
                (λ j.
                  (d : Context) × (context_of j cs ≡ some d)
                  × All (IsSettled cs x.0) d.dependencies)
                is)
            unmoved rest,
      ),
    )

rounds-IsClosed :
    (fuel : ℕ) (cs : List Context) (s t : Selection) → rounds fuel cs s ≡ ok t → IsClosed cs t
unfolding rounds
rounds-IsClosed zero cs s t h = ground arith
rounds-IsClosed (suc fuel) cs s t h =
    let (r, f, g) = >>=-eq-ok (scan cs s.selected (s, false)) _ h in
    elim (Bool-cases r.1) [
      | inl b ↦
          rounds-IsClosed fuel cs r.0 t
            (subst (λ x. elim x [ true ↦ rounds fuel cs r.0 | false ↦ ok r.0 ] ≡ ok t) b g)
      | inr b ↦
          let (same, closed) = scan-still cs s.selected (s, false) r f b in
          let final =
            ok_inj
              (subst (λ x. elim x [ true ↦ rounds fuel cs r.0 | false ↦ ok r.0 ] ≡ ok t) b g) in
          subst (IsClosed cs) (sym (ap (λ (x : Round). x.0) same) ∙ final) closed
    ]

-- What the loop over dependencies returns is closed: every dependency of a selected context is itself
-- selected, or is recoverable.
pub close-IsClosed : (cs : List Context) (s t : Selection) → close cs s ≡ ok t → IsClosed cs t
unfolding close
close-IsClosed cs s t h = rounds-IsClosed (suc (length cs)) cs s t h
