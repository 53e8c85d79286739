-- ===== src/Managed/Planner/Evidence/Retrievable.antt =====
-- What the loop that stores the contexts leaves behind: every context that it does not select can be
-- read back exactly.
use llmcut.Prelude.{
  String, true, false, some, List, [], ◌∷◌, ◌++◌, elem, elem-add, elem-add_self, insert, lookup,
  lookup-insert, ◌≟◌, eq_iff, eq_refl, ◌≡◌, refl, sym, ap, ◌∙◌, subst, inl, inr, Bool-cases, arith,
}
use llmcut.Result.{ok, ok_inj}
use llmcut.Json.{Fields, str, field, end}
use llmcut.Exec.{Exec, >>=-eq-ok}
use llmcut.World.{World}
use llmcut.Model.{EvidenceReference, kind_value, digest_bytes}
use llmcut.Store.Evidence
use llmcut.Store.Evidence.{EvidenceStore, persisted}
use llmcut.Store.Database.{select_content}
use llmcut.Managed.Protocol.Validity.{ids_of}
use llmcut.Store.Evidence.Extends.{Extends, put-Extends, get-Extends, get_returned}
use llmcut.Managed.Protocol.{Context, source_of}
use llmcut.Managed.Planner.Choice.{Selection}
use llmcut.Managed.Planner.Choice.Kept.{Grows}
use llmcut.Managed.Planner.Evidence.{
  Stored, checked_selection, stored_block, append_if, store_from, store_contexts,
}

checked_selection-Grows :
    (c : Context) (text : String) (s : Selection) → Grows s (checked_selection c text s)
checked_selection-Grows c text s i h = elim (Bool-cases (text ≟ c.content)) [
  | inl e ↦ rw e h
  | inr e ↦ rw e (elem-add i c.id s.selected h)
]

module _ (w : World) where
  abbrev tags : Context → Fields
  tags c = field "context_id" (str c.id) (field "kind" (str (kind_value c.kind)) end)

  abbrev put_context : Context → Exec EvidenceStore EvidenceReference
  put_context c = Evidence.put w c.content (source_of c) c.revision (tags c)

  abbrev stepped : Context → EvidenceReference → String → Stored → Stored
  stepped c r text acc =
      let selection = checked_selection c text acc.selection in
      record {
        blocks = append_if (elem c.id selection.selected) (stored_block w c r) acc.blocks;
        evidence = insert c.id r.digest acc.evidence;
        selection = selection;
      }

  -- One turn of the loop that returned: what was put and read, and the rest.
  pub store_from-step :
      (c : Context) (cs : List Context) (acc out : Stored) (s : EvidenceStore)
      → (store_from w (c ∷ cs) acc s).0 ≡ ok out
      → (r : EvidenceReference) × (text : String) × ((put_context c s).0 ≡ ok r)
        × ((Evidence.get w r.digest (put_context c s).1).0 ≡ ok text)
        × (store_from w (c ∷ cs) acc s
            ≡ store_from w cs
                (stepped c r text acc)
                (Evidence.get w r.digest (put_context c s).1).1)
  unfolding store_from
  store_from-step c cs acc out s h =
      let (r, e, h1, p) = >>=-eq-ok (put_context c) _ s h in
      let (text, f, h2, q) = >>=-eq-ok (Evidence.get w r.digest) _ (put_context c s).1 h1 in
      (r, text, e, f, p ∙ q)

  store_from-end :
      (acc out : Stored) (s : EvidenceStore) → (store_from w [] acc s).0 ≡ ok out → acc ≡ out
  unfolding store_from
  store_from-end acc out s h = ok_inj h

  store_from-stays : (acc : Stored) (s : EvidenceStore) → (store_from w [] acc s).1 ≡ s
  unfolding store_from
  store_from-stays acc s = refl

  -- The loop only adds to the selection.
  pub store_from-Grows :
      (cs : List Context) (acc out : Stored) (s : EvidenceStore)
      → (store_from w cs acc s).0 ≡ ok out
      → Grows acc.selection out.selection
  store_from-Grows [] acc out s h i e =
      subst (λ (x : Stored). elem i x.selection.selected ≡ true) (store_from-end acc out s h) e
  store_from-Grows (c ∷ cs) acc out s h i e =
      let (r, text, f, g, p) = store_from-step c cs acc out s h in
      store_from-Grows cs (stepped c r text acc) out (Evidence.get w r.digest (put_context c s).1).1
        (ap (λ x. x.0) (sym p) ∙ h) i (checked_selection-Grows c text acc.selection i e)

  -- The loop loses no evidence.
  store_from-Extends :
      (cs : List Context) (acc out : Stored) (s : EvidenceStore)
      → (store_from w cs acc s).0 ≡ ok out
      → Extends s (store_from w cs acc s).1
  store_from-Extends [] acc out s h d t e =
      subst (λ (x : EvidenceStore). select_content d x.evidence ≡ some t)
        (sym (store_from-stays acc s)) e
  store_from-Extends (c ∷ cs) acc out s h d t e =
      let (r, text, f, g, p) = store_from-step c cs acc out s h in
      let s1 = (put_context c s).1 in
      let s2 = (Evidence.get w r.digest s1).1 in
      let e1 = put-Extends w s c.content (source_of c) c.revision (tags c) d t e in
      let e2 = get-Extends w s1 r.digest d t e1 in
      rw p (store_from-Extends cs (stepped c r text acc) out s2 (ap (λ x. x.0) (sym p) ∙ h) d t e2)

  -- The loop keeps the digests of the contexts that it does not store.
  store_from-evidence :
      (i : String) (cs : List Context) (acc out : Stored) (s : EvidenceStore)
      → (store_from w cs acc s).0 ≡ ok out
      → elem i (ids_of cs) ≡ false
      → lookup i out.evidence ≡ lookup i acc.evidence
  store_from-evidence i [] acc out s h n =
      sym (ap (λ (x : Stored). lookup i x.evidence) (store_from-end acc out s h))
  store_from-evidence i (c ∷ cs) acc out s h n =
      let (r, text, f, g, p) = store_from-step c cs acc out s h in
      store_from-evidence i cs (stepped c r text acc) out
        (Evidence.get w r.digest (put_context c s).1).1 (ap (λ x. x.0) (sym p) ∙ h)
        (ground (arith, n))
      ∙ lookup-insert i c.id r.digest acc.evidence
      ∙ ground (arith, n)

  -- the digest of a context finds its content
  abbrev pub IsReadable : Context → Stored → EvidenceStore → Type 0
  IsReadable c out t =
      (d : String) × (lookup c.id out.evidence ≡ some d)
      × (d ≡ digest_bytes w c.content)
      × (select_content d t.evidence ≡ some c.content)

  unselected :
      (c : Context) (acc out : Stored) (cs : List Context) (s : EvidenceStore)
      → (store_from w cs acc s).0 ≡ ok out
      → elem c.id out.selection.selected ≡ false
      → elem c.id acc.selection.selected ≡ false
  unselected c acc out cs s h u = elim (Bool-cases (elem c.id acc.selection.selected)) [
    | inl e ↦ ground (arith, store_from-Grows cs acc out s h c.id e, u)
    | inr e ↦ e
  ]

  exact :
      (c : Context) (text : String) (sel : Selection)
      → elem c.id (checked_selection c text sel).selected ≡ false
      → text ≡ c.content
  exact c text sel u = ground (arith, eq_iff text c.content, elem-add_self c.id sel.selected, u)

  store_from_here :
      (c : Context) (cs : List Context) (acc out : Stored) (s : EvidenceStore)
      → (store_from w (c ∷ cs) acc s).0 ≡ ok out
      → elem c.id (ids_of cs) ≡ false
      → elem c.id out.selection.selected ≡ false
      → IsReadable c out (store_from w (c ∷ cs) acc s).1
  store_from_here c cs acc out s h n u =
      let (r, text, f, g, p) = store_from-step c cs acc out s h in
      let s1 = (put_context c s).1 in
      let s2 = (Evidence.get w r.digest s1).1 in
      let acc' = stepped c r text acc in
      let h' = ap (λ x. x.0) (sym p) ∙ h in
      let (found, own) = get_returned w s1 r.digest text g in
      let same = exact c text acc.selection (unselected c acc' out cs s2 h' u) in
      let kept =
        store_from-Extends cs acc' out s2 h' r.digest text
          (get-Extends w s1 r.digest r.digest text found) in
      (
        r.digest,
        store_from-evidence c.id cs acc' out s2 h' n
            ∙ lookup-insert c.id c.id r.digest acc.evidence
            ∙ rw (eq_refl c.id) refl,
        sym own ∙ ap (digest_bytes w) same,
        rw p (kept ∙ ap some same),
      )

  -- What the loop does not select in the end can be read back from where it put it.
  pub store_from-IsReadable :
      (before : List Context) (c : Context) (cs : List Context) (acc out : Stored)
      (s : EvidenceStore)
      → (store_from w (before ++ c ∷ cs) acc s).0 ≡ ok out
      → elem c.id (ids_of cs) ≡ false
      → elem c.id out.selection.selected ≡ false
      → IsReadable c out (store_from w (before ++ c ∷ cs) acc s).1
  store_from-IsReadable [] c cs acc out s h n u = store_from_here c cs acc out s h n u
  store_from-IsReadable (b ∷ before) c cs acc out s h n u =
      let (r, text, f, g, p) = store_from-step b (before ++ c ∷ cs) acc out s h in
      rw p (
        store_from-IsReadable before c cs (stepped b r text acc) out
          (Evidence.get w r.digest (put_context b s).1).1 (ap (λ x. x.0) (sym p) ∙ h) n u)

-- The contexts stored, the selection has only grown.
pub store_contexts-Grows :
    (w : World) (cs : List Context) (sel : Selection) (out : Stored) (s : EvidenceStore)
    → (store_contexts w cs sel s).0 ≡ ok out
    → Grows sel out.selection
unfolding store_contexts
store_contexts-Grows w cs sel out s h =
    store_from-Grows w cs (record { blocks = []; evidence = []; selection = sel }) out s h

-- The contexts stored, one that is not selected can be read back from where it is.
pub store_contexts-IsReadable :
    (w : World) (before : List Context) (c : Context) (cs : List Context) (sel : Selection)
    (out : Stored) (s : EvidenceStore)
    → (store_contexts w (before ++ c ∷ cs) sel s).0 ≡ ok out
    → elem c.id (ids_of cs) ≡ false
    → elem c.id out.selection.selected ≡ false
    → IsReadable w c out (store_contexts w (before ++ c ∷ cs) sel s).1
unfolding store_contexts
store_contexts-IsReadable w before c cs sel out s h n u =
    store_from-IsReadable w before c cs (record { blocks = []; evidence = []; selection = sel }) out
      s h n u
