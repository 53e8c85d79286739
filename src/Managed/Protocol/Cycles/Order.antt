-- ===== src/Managed/Protocol/Cycles/Order.antt =====
-- A graph that `_reject_cycles` accepts has no cycle: the order in which the search finishes its
-- nodes puts each node after its dependencies.
use llmcut.Prelude.{
  ℕ, zero, suc, ◌<◌, String, true, false, Option, some, List, [], ◌∷◌, All, All-map, elem, length,
  ◌≟◌, if◌then◌else◌, ◌≡◌, ◌⊎◌, refl, sym, ap, ◌∙◌, subst, arith, eq_iff, eq_refl, Bool-cases,
  Option-cases, inl, inr,
}
use mathlib.Core.Bool.{false≢true}
use llmcut.Managed.Protocol.Cycles.{
  Graph, edges, targets, targets_of, Visit, cyclic, exhausted, finished, visit_all, finish, visit,
  nodes, search,
}

-- Each node's dependencies were finished before it.
abbrev pub IsOrdered : Graph → List String → Type 0
IsOrdered g [] = Unit
IsOrdered g (i ∷ v) = All (λ d. elem d v ≡ true) (targets i g) × IsOrdered g v

abbrev Contains : List String → List String → Type 0
Contains v u = (i : String) → elem i u ≡ true → elem i v ≡ true

-- what a visit that finished has done
record Finishes (g : Graph) (visited : List String) (wanted : List String) (v : List String)
    : Type 0 where
  ordered : IsOrdered g v
  reaches : All (λ d. elem d v ≡ true) wanted
  grows : Contains v visited

abbrev Sound : Graph → (List String → String → Visit) → Type 0
Sound g go =
    (visited : List String) (i : String) (v : List String)
    → IsOrdered g visited
    → go visited i ≡ finished v
    → Finishes g visited (i ∷ []) v

finished_inj : {u v : List String} → finished u ≡ finished v → u ≡ v
finished_inj {u} h = ap (λ r. elim r [ finished x ↦ x | _ ↦ u ]) h

pub Visit-cases :
    (r : Visit) → ((v : List String) × (r ≡ finished v)) ⊎ ((r ≡ cyclic) ⊎ (r ≡ exhausted))
Visit-cases (finished v) = inl (v, refl)
Visit-cases cyclic = inr (inl refl)
Visit-cases exhausted = inr (inr refl)

cyclic≢finished : {v : List String} → cyclic ≡ finished v → ⊥
cyclic≢finished h = cc

exhausted≢finished : {v : List String} → exhausted ≡ finished v → ⊥
exhausted≢finished h = cc

visit_all-Finishes :
    (g : Graph) (go : List String → String → Visit) (visited ds v : List String)
    → Sound g go
    → IsOrdered g visited
    → visit_all go visited ds ≡ finished v
    → Finishes g visited ds v
visit_all-Finishes g go visited [] v sound o h =
    subst (λ x. Finishes g visited [] x) (finished_inj h)
      (record { ordered = o; reaches = tt; grows = λ i e. e })
visit_all-Finishes g go visited (d ∷ ds) v sound o h = elim (Visit-cases (go visited d)) [
  | inl (u, e) ↦
      let first = sound visited d u o e in
      let rest = visit_all-Finishes g go u ds v sound first.ordered (rw (e, visit_all) at h) in
      record {
        ordered = rest.ordered;
        reaches = (rest.grows d first.reaches.0, rest.reaches);
        grows = λ i k. rest.grows i (first.grows i k);
      }
  | inr (inl e) ↦ absurd (cyclic≢finished (rw (e, visit_all) at h))
  | inr (inr e) ↦ absurd (exhausted≢finished (rw (e, visit_all) at h))
]

finish-Finishes :
    (g : Graph) (visited : List String) (i : String) (r : Visit) (v : List String)
    → ((u : List String) → r ≡ finished u → Finishes g visited (targets i g) u)
    → finish i r ≡ finished v
    → Finishes g visited (i ∷ []) v
finish-Finishes g visited i (finished u) v below h =
    let b = below u refl in
    subst (λ x. Finishes g visited (i ∷ []) x) (finished_inj h)
      (record {
        ordered = (b.reaches, b.ordered);
        reaches = (ground (arith, eq_refl i), tt);
        grows = λ j k. ground (arith, b.grows j k);
      })
finish-Finishes g visited i cyclic v below h = absurd (cyclic≢finished h)
finish-Finishes g visited i exhausted v below h = absurd (exhausted≢finished h)

visit-Sound : (fuel : ℕ) (g : Graph) (visiting : List String) → Sound g (visit fuel g visiting)
unfolding visit
visit-Sound zero g visiting visited i v o h = absurd (exhausted≢finished h)
visit-Sound (suc fuel) g visiting visited i v o h = elim (Bool-cases (elem i visiting)) [
  | inl e ↦ absurd (cyclic≢finished (rw (e, visit) at h))
  | inr e ↦ elim (Bool-cases (elem i visited)) [
    | inl k ↦
        subst (λ x. Finishes g visited (i ∷ []) x) (finished_inj (rw (e, k, visit) at h))
          (record { ordered = o; reaches = (k, tt); grows = λ j m. m })
    | inr k ↦
        finish-Finishes g visited i
          (visit_all (λ u d. visit fuel g (i ∷ visiting) u d) visited (targets i g)) v
          (λ u below.
            visit_all-Finishes g (visit fuel g (i ∷ visiting)) visited (targets i g) u
              (visit-Sound fuel g (i ∷ visiting)) o below)
          (rw (e, k, visit) at h)
  ]
]

-- how many entries stand behind the last occurrence
rank : String → List String → ℕ
rank i [] = 0
rank i (j ∷ v) = let below = rank i v in if elem i v then below else length v

rank-lt-length : (i : String) (v : List String) → elem i v ≡ true → rank i v < length v
unfolding rank
rank-lt-length i [] h = ground arith
rank-lt-length i (j ∷ v) h = ground (arith, rank-lt-length i v)

rank_of_mem : (i j : String) (v : List String) → elem i v ≡ true → rank i (j ∷ v) ≡ rank i v
unfolding rank
rank_of_mem i j v h = rw (h, rank) refl

rank_of_new : (i j : String) (v : List String) → elem i v ≡ false → rank i (j ∷ v) ≡ length v
unfolding rank
rank_of_new i j v h = rw (h, rank) refl

abbrev Descends : Graph → List String → String → Type 0
Descends g order i = All (λ d. (elem d order ≡ true) × (rank d order < rank i order)) (targets i g)

self-Descends :
    (g : Graph) (j : String) (v : List String)
    → elem j v ≡ false
    → All (λ d. elem d v ≡ true) (targets j g)
    → Descends g (j ∷ v) j
self-Descends g j v new =
    All-map
      (λ d k.
        (ground (arith, k), rw (rank_of_new j j v new, rank_of_mem d j v k) (rank-lt-length d v k)))
      (targets j g)

targets_descend :
    (g : Graph) (order : List String) (i : String)
    → IsOrdered g order
    → elem i order ≡ true
    → Descends g order i
targets_descend g [] i o h = absurd (false≢true h)
targets_descend g (j ∷ v) i o h = elim (Bool-cases (elem i v)) [
  | inl e ↦
      All-map (λ d k. (ground (arith, k.0), rw (rank_of_mem i j v e, rank_of_mem d j v k.0) k.1))
        (targets i g) (targets_descend g v i o.1 e)
  | inr e ↦
      let same : i ≡ j = (eq_iff i j).0 (ground (arith, e)) in
      subst (Descends g (j ∷ v)) (sym same)
        (self-Descends g j v (subst (λ x. elem x v ≡ false) same e) o.0)
]

pub All-elem {ℓ} :
    (P : String → Type ℓ) (d : String) (xs : List String) → All P xs → elem d xs ≡ true → P d
All-elem P d [] h e = absurd (false≢true e)
All-elem P d (x ∷ xs) h e = elim (Bool-cases (d ≟ x)) [
  | inl k ↦ subst P (sym ((eq_iff d x).0 k)) h.0
  | inr k ↦ All-elem P d xs h.1 (ground (arith, k))
]

-- one dependency after another, at least one
pub data Walk (g : Graph) (i : String) : String → Type 0 where
  edge : (j : String) → elem j (targets i g) ≡ true → Walk g i j
  onward : (j k : String) → Walk g i j → elem k (targets j g) ≡ true → Walk g i k

Walk-descends :
    (g : Graph) (order : List String) (i : String) {j : String}
    → IsOrdered g order
    → elem i order ≡ true
    → Walk g i j
    → (elem j order ≡ true) × (rank j order < rank i order)
Walk-descends g order i o h (edge j e) =
    All-elem _ j (targets i g) (targets_descend g order i o h) e
Walk-descends g order i o h (onward j k r e) =
    let below = Walk-descends g order i o h r in
    let next = All-elem _ k (targets j g) (targets_descend g order j o below.0) e in
    (next.0, omega arith)

node_of_edges :
    (g : Graph) (i : String) (ds : List String) → edges i g ≡ some ds → elem i (nodes g) ≡ true
unfolding edges
node_of_edges [] i ds h = cc
node_of_edges ((j, es) ∷ g) i ds h = elim (Option-cases (edges i g)) [
  | inl e ↦ ground (arith, e)
  | inr (fs, e) ↦ ground (arith, node_of_edges g i fs e)
]

pub node_of_target :
    (g : Graph) (i d : String) → elem d (targets i g) ≡ true → elem i (nodes g) ≡ true
node_of_target g i d h = elim (Option-cases (edges i g)) [
  | inl e ↦
      absurd (false≢true (ap (λ (o : Option (List String)). elem d (targets_of o)) (sym e) ∙ h))
  | inr (ds, e) ↦ node_of_edges g i ds e
]

Walk-node : (g : Graph) (i : String) {j : String} → Walk g i j → elem i (nodes g) ≡ true
Walk-node g i (edge j e) = node_of_target g i j e
Walk-node g i (onward j k r e) = Walk-node g i r

search-Finishes : (g : Graph) (v : List String) → search g ≡ finished v → Finishes g [] (nodes g) v
unfolding search
search-Finishes g v h =
    visit_all-Finishes g (visit (suc (length g)) g []) [] (nodes g) v
      (visit-Sound (suc (length g)) g []) tt h

-- an accepted graph has an order
pub acyclic_of_finished :
    (g : Graph) (v : List String) → search g ≡ finished v → (i : String) → ¬ (Walk g i i)
acyclic_of_finished g v h i r =
    let f = search-Finishes g v h in
    let below =
      Walk-descends g v i f.ordered (All-elem _ i (nodes g) f.reaches (Walk-node g i r)) r in
    absurd (omega arith)
