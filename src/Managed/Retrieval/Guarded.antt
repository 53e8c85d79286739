-- ===== src/Managed/Retrieval/Guarded.antt =====
-- The checks of `RetrievalService._execute` in src/llmcut/managed/retrieval.py.
use llmcut.Prelude.{
  String, true, false, not, Option, none, some, elem, lookup, ◌≡◌, sym, ap, ◌∙◌, subst, inl, inr,
  Bool-cases, arith, ◌≟◌, eq_iff, if◌then◌else◌, List, [], ◌∷◌, All, any, Bool,
}
use llmcut.Core.Recover.{join_lines}
use llmcut.Store.Evidence.Extends.{get_returned}
use llmcut.Result.{Result, ok, err, ok_inj, retrieval_error, or_raise, key_error}
use llmcut.Managed.Retrieval
use llmcut.Json.{Fields, get}
use llmcut.Exec.{raise_if, lift, ◌>>=◌, >>=-eq-ok}
use llmcut.World.{World}
use llmcut.Store.Evidence
use llmcut.Store.Evidence.{EvidenceStore}
use llmcut.Managed.Protocol.{Context, ManagedRequest}
use llmcut.Managed.Planner.{ContextPlan}
use llmcut.Managed.Planner.Closure.{context_of}
use llmcut.Managed.Retrieval.{
  RetrievalResult, available, is_secret, discover, allowed, operate, read_context, execute_fresh,
  read_all, read_dependencies, requested_dependencies,
}
use llmcut.Managed.Retrieval.Operations.{required_string}
use llmcut.Result
use llmcut.Model.{digest_bytes}

not_raised :
    (b : Bool) (s : EvidenceStore) (m : String) {u : Unit {0}}
    → (raise_if b (retrieval_error m) s).0 ≡ ok u
    → b ≡ false
not_raised b s m h = ground arith

-- a context that the plan deferred and that is not secret
abbrev pub IsAllowed : World → ManagedRequest → ContextPlan → Context → Type 0
IsAllowed w request plan c =
    ((i : String) × (context_of i request.context ≡ some c) × (elem i plan.deferred ≡ true))
    × (is_secret w c ≡ false)

or_raise-ok :
    (o : Option String) (a : String) → or_raise o (key_error "evidence") ≡ ok a → o ≡ some a
or_raise-ok none a h = ground arith
or_raise-ok (some b) a h = ap some (ok_inj h)

module _ (w : World) (request : ManagedRequest) (plan : ContextPlan) where
  available-IsDeferred :
      (o : Option Context) (i m : String) (c : Context)
      → available o plan.deferred i m ≡ ok c
      → (o ≡ some c) × (elem i plan.deferred ≡ true)
  available-IsDeferred none i m c h = ground arith
  available-IsDeferred (some d) i m c h = elim (Bool-cases (elem i plan.deferred)) [
    | inl e ↦ (
      ap some (ok_inj (subst (λ b. (if b then ok d else err (retrieval_error m)) ≡ ok c) e h)),
      e,
    )
    | inr e ↦ ground (arith, e, h)
  ]

  not_secret :
      (d c : Context)
      → (if is_secret w d
          then err (retrieval_error "secret evidence is excluded from managed retrieval")
          else ok d)
        ≡ ok c
      → (d ≡ c) × (is_secret w c ≡ false)
  not_secret d c h = elim (Bool-cases (is_secret w d)) [
    | inl e ↦ ground (arith, e, h)
    | inr e ↦
        let same = ok_inj (
          subst
            (λ b.
              (if b
                then err (retrieval_error "secret evidence is excluded from managed retrieval")
                else ok d)
              ≡ ok c)
            e h) in
        (same, subst (λ x. is_secret w x ≡ false) same e)
  ]

  allowed-IsAllowed :
      (arguments : Fields) (c : Context)
      → allowed w request plan arguments ≡ ok c
      → IsAllowed w request plan c
  unfolding allowed
  allowed-IsAllowed arguments c h =
      let (i, e, h1) = Result.>>=-eq-ok (required_string arguments "id") _ h in
      let (d, f, h2) =
        Result.>>=-eq-ok
          (available (context_of i request.context) plan.deferred i
            "context is unavailable or already model-bound")
          _ h1 in
      let (found, deferred) =
        available-IsDeferred (context_of i request.context) i
          "context is unavailable or already model-bound" d f in
      let (same, unhidden) = not_secret d c h2 in ((i, found ∙ ap some same, deferred), unhidden)

  -- evidence that the plan names for an identifier: its digest is the plan's
  abbrev pub IsEvidence : String → String → Type 0
  IsEvidence i text =
      (digest : String) × (lookup i plan.evidence ≡ some digest) × (digest_bytes w text ≡ digest)

  -- the evidence of each of the identifiers, in their order
  abbrev pub AreEvidence : List String → List String → Type 0
  AreEvidence [] [] = Unit
  AreEvidence (i ∷ is) (t ∷ ts) = IsEvidence i t × AreEvidence is ts
  AreEvidence _ _ = ⊥

  -- the join of the evidence of declared dependencies
  abbrev pub AreDependencies : Context → String → Type 0
  AreDependencies c content =
      (ds : List String) × (ts : List String) × All (λ d. elem d c.dependencies ≡ true) ds
      × AreEvidence ds ts
      × (content ≡ join_lines ts)

  -- what an operation gives out of a context: its dependencies' evidence, or a part of its own, which does
  -- not depend on the store
  abbrev pub IsPart : String → Fields → Context → String → String → Type 0
  IsPart operation arguments c text content =
      ((operation ≟ "dependency.get") ≡ true → AreDependencies c content)
      × ((operation ≟ "dependency.get") ≡ false
          → (t : EvidenceStore) → (operate w plan operation c arguments text t).0 ≡ ok content)

  -- what an answer is, that the service gives at a store
  abbrev pub IsAnswer : String → Fields → Context → EvidenceStore → RetrievalResult → Type 0
  IsAnswer operation arguments c s r =
      (r.context_id ≡ c.id)
      × (lookup c.id plan.evidence ≡ some r.digest)
      × ((text : String) × ((Evidence.get w r.digest s).0 ≡ ok text)
          × (digest_bytes w text ≡ r.digest)
          × IsPart operation arguments c text r.content)

  -- an operation that reads no dependency takes no account of the store
  operate-alike :
      (operation : String) (c : Context) (arguments : Fields) (text : String) (s t : EvidenceStore)
      → (operation ≟ "dependency.get") ≡ false
      → (operate w plan operation c arguments text s).0
        ≡ (operate w plan operation c arguments text t).0
  unfolding operate
  operate-alike operation c arguments text s t h = rw h (ground arith)

  read_all-AreEvidence :
      (ds ts : List String) (s : EvidenceStore)
      → (read_all w plan ds s).0 ≡ ok ts
      → AreEvidence ds ts
  unfolding read_all
  read_all-AreEvidence [] [] s h = tt
  read_all-AreEvidence [] (t ∷ ts) s h = ground (arith, ok_inj h)
  read_all-AreEvidence (d ∷ ds) ts s h =
      let (digest, e, h1, p) =
        >>=-eq-ok (lift (or_raise (lookup d plan.evidence) (key_error "evidence"))) _ s h in
      let (text, f, h2, q) = >>=-eq-ok (Evidence.get w digest) _ s h1 in
      let s' = (Evidence.get w digest s).1 in
      let (texts, g, h3, q2) = >>=-eq-ok (read_all w plan ds) _ s' h2 in
      subst (AreEvidence (d ∷ ds)) (ok_inj h3) (
        (digest, or_raise-ok (lookup d plan.evidence) digest e, (get_returned w s digest text f).1),
        read_all-AreEvidence ds texts s' g,
      )

  declared_each :
      (declared ds : List String)
      → any (λ d. not (elem d declared)) ds ≡ false
      → All (λ d. elem d declared ≡ true) ds
  declared_each declared [] h = tt
  declared_each declared (d ∷ ds) h =
      (ground (arith, h), declared_each declared ds (ground (arith, h)))

  read_dependencies-AreDependencies :
      (c : Context) (arguments : Fields) (content : String) (s : EvidenceStore)
      → (read_dependencies w plan c arguments s).0 ≡ ok content
      → AreDependencies c content
  unfolding read_dependencies
  read_dependencies-AreDependencies c arguments content s h =
      let wanted = requested_dependencies w c (get "dependency" arguments) in
      let test = any (λ d. not (elem d c.dependencies)) wanted in
      let check =
        raise_if test (retrieval_error "requested context is not a declared dependency") in
      let (u, e, h1, p) = >>=-eq-ok check _ s h in
      let (ts, f, h2, q) = >>=-eq-ok (read_all w plan wanted) _ (check s).1 h1 in
      (
        wanted,
        ts,
        declared_each c.dependencies wanted (not_raised test s _ e),
        read_all-AreEvidence wanted ts (check s).1 f,
        sym (ok_inj h2),
      )

  operate-IsPart :
      (operation : String) (arguments : Fields) (c : Context) (text content : String)
      (s : EvidenceStore)
      → (operate w plan operation c arguments text s).0 ≡ ok content
      → IsPart operation arguments c text content
  unfolding operate
  operate-IsPart operation arguments c text content s h = (
    λ e. read_dependencies-AreDependencies c arguments content s (
        subst (λ o. (operate w plan o c arguments text s).0 ≡ ok content)
          ((eq_iff operation "dependency.get").0 e) h),
    λ e t. operate-alike operation c arguments text t s e ∙ h,
  )

  digest_checked :
      (text digest : String) (s : EvidenceStore)
      → {u : Unit {0}}
      → (raise_if
          (not (digest_bytes w text ≟ digest))
          (retrieval_error "retrieved evidence digest mismatch")
          s).0
        ≡ ok u
      → digest_bytes w text ≡ digest
  digest_checked text digest s h = ground (arith, eq_iff (digest_bytes w text) digest, h)

  read_context-IsAnswer :
      (operation : String) (arguments : Fields) (c : Context) (s : EvidenceStore)
      (r : RetrievalResult)
      → (read_context w plan operation arguments c s).0 ≡ ok r
      → IsAnswer operation arguments c s r
  unfolding read_context
  read_context-IsAnswer operation arguments c s r h =
      let (digest, e, h1, p) =
        >>=-eq-ok (lift (or_raise (lookup c.id plan.evidence) (key_error "evidence"))) _ s h in
      let (text, f, h2, q) = >>=-eq-ok (Evidence.get w digest) _ s h1 in
      let s' = (Evidence.get w digest s).1 in
      let (u, g, h3, q1) =
        >>=-eq-ok
          (raise_if (not (digest_bytes w text ≟ digest))
            (retrieval_error "retrieved evidence digest mismatch"))
          _ s' h2 in
      let s'' =
        (raise_if (not (digest_bytes w text ≟ digest))
          (retrieval_error "retrieved evidence digest mismatch") s').1 in
      let (v, i, h4, q2) =
        >>=-eq-ok (lift (Retrieval.check_revision c.revision (get "revision" arguments))) _ s''
          h3 in
      let (content, j, h5, q3) = >>=-eq-ok (operate w plan operation c arguments text) _ s'' h4 in
      let same = ok_inj h5 in
      (
        ap (λ (x : RetrievalResult). x.context_id) (sym same),
        or_raise-ok (lookup c.id plan.evidence) digest e
            ∙ ap (λ (x : RetrievalResult). some x.digest) same,
        (
          text,
          subst (λ d. (Evidence.get w d s).0 ≡ ok text)
              (ap (λ (x : RetrievalResult). x.digest) same) f,
          digest_checked text digest s' g ∙ ap (λ (x : RetrievalResult). x.digest) same,
          subst (IsPart operation arguments c text) (ap (λ (x : RetrievalResult). x.content) same)
              (operate-IsPart operation arguments c text content s'' j),
        ),
      )

-- What `_execute` gives out for an operation other than tool.discover answers for a context that the
-- plan deferred and that is not secret, under the digest that the plan has for it, of which the store
-- gives out a text. For an operation other than dependency.get the content is what the operation makes
-- of that text, whatever the store holds. For dependency.get it is the joined evidence, by the plan's
-- digests, of dependencies that the context declares: nothing is known of those, which may themselves
-- be secret or not deferred.
pub execute_fresh-IsAllowed :
    (w : World) (request : ManagedRequest) (plan : ContextPlan) (operation : String)
    (arguments : Fields) (s : EvidenceStore) (r : RetrievalResult)
    → (operation ≟ "tool.discover") ≡ false
    → (execute_fresh w request plan operation arguments s).0 ≡ ok r
    → (c : Context) × IsAllowed w request plan c × IsAnswer w request plan operation arguments c s r
unfolding execute_fresh
execute_fresh-IsAllowed w request plan operation arguments s r other h =
    let h' =
      subst
        (λ b.
          ((if b
              then lift (discover w request plan arguments)
              else (lift (allowed w request plan arguments) >>= λ c.
                  read_context w plan operation arguments c))
            s).0
          ≡ ok r)
        other h in
    let (c, e, h1, p) = >>=-eq-ok (lift (allowed w request plan arguments)) _ s h' in
    (
      c,
      allowed-IsAllowed w request plan arguments c e,
      read_context-IsAnswer w request plan operation arguments c s r h1,
    )
