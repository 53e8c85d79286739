-- ===== src/Managed/Protocol/Validity.antt =====
-- What a validated request satisfies.
use llmcut.Prelude.{
  String, Bool, true, false, not, ◌||◌, ◌&&◌, List, [], ◌∷◌, ◌++◌, map, any, all, elem, ◌≟◌, ◌≡◌,
  refl, sym, ◌∙◌, ap, subst, arith,
}
use llmcut.Result.{Error, Result, ok, ok_inj, >>=-eq-ok, raise_if, for_each}
use llmcut.World.{World}
use llmcut.Model.{BlockKind, tool_call, tool_result, kind_eq}
use llmcut.Managed.Protocol.Cycles.{reject_cycles}
use llmcut.Managed.Protocol.Cycles.Order.{Walk}
use llmcut.Managed.Protocol.Cycles.Fuel.{reject_cycles_exact}
use llmcut.Managed.Protocol.{
  Context, ManagedRequest, is_identifier, within, is_critical, is_retained, Met, check_context,
  check_contexts, check_settings, check_dependencies, graph_of, validate, text_or_empty,
}

abbrev pub ids_of : List Context → List String
ids_of = map (λ (c : Context). c.id)

-- `c` is the tool call that an identifier names
abbrev pub is_call_for : String → Context → Bool
is_call_for i c = kind_eq c.kind tool_call && (i ≟ text_or_empty c.tool_call_id)

-- What one round of the loop has checked, and what it adds.
record Checked (met : Met) (c : Context) (m : Met) : Type 0 where
  named : is_identifier c.id ≡ true
  fresh : elem c.id met.0 ≡ false
  ranked : within 0 100 c.priority ≡ true
  retained : is_critical c.kind ≡ true → is_retained c.retention ≡ true
  answered :
      kind_eq c.kind tool_result ≡ true
      → kind_eq c.kind tool_call ≡ false
      → elem (text_or_empty c.tool_call_id) met.1 ≡ true
  ids : m.0 ≡ c.id ∷ met.0
  calls : (i : String) → elem i m.1 ≡ true → (elem i met.1 || is_call_for i c) ≡ true

check_context-Checked :
    (met : Met) (c : Context) (m : Met) → check_context met c ≡ ok m → Checked met c m
unfolding check_context
check_context-Checked met c m h = record {
  named = ground arith;
  fresh = ground arith;
  ranked = ground arith;
  retained = ground arith;
  answered = ground arith;
  ids = ground arith;
  calls = λ i e. ground arith;
}

-- the loop over the contexts before one, its round, and the identifiers that it met
record Split (met : Met) (before : List Context) (c : Context) : Type 0 where
  reached : Met
  passed : check_contexts met before ≡ ok reached
  next : Met
  checked : check_context reached c ≡ ok next

check_contexts-Split :
    (met : Met) (before : List Context) (c : Context) (after : List Context) (m : Met)
    → check_contexts met (before ++ c ∷ after) ≡ ok m
    → Split met before c
unfolding check_contexts
check_contexts-Split met [] c after m h =
    let (next, e, _) = >>=-eq-ok (check_context met c) _ h in
    record { reached = met; passed = refl; next = next; checked = e }
check_contexts-Split met (b ∷ before) c after m h =
    let (first, e, rest) = >>=-eq-ok (check_context met b) _ h in
    let s = check_contexts-Split first before c after m rest in
    record {
      reached = s.reached;
      passed = rw (e, check_contexts) s.passed;
      next = s.next;
      checked = s.checked;
    }

-- the identifiers that the loop has met are those of the contexts and those that it began with
met_ids :
    (met : Met) (cs : List Context) (m : Met) (i : String)
    → check_contexts met cs ≡ ok m
    → elem i m.0 ≡ (elem i (ids_of cs) || elem i met.0)
unfolding check_contexts
met_ids met [] m i h = ap (λ (x : Met). elem i x.0) (sym (ok_inj h))
met_ids met (c ∷ cs) m i h =
    let (first, e, rest) = >>=-eq-ok (check_context met c) _ h in
    let k = check_context-Checked met c first e in
    ground (arith, met_ids first cs m i rest, ap (elem i) k.ids)

met_calls :
    (met : Met) (cs : List Context) (m : Met) (i : String)
    → check_contexts met cs ≡ ok m
    → elem i m.1 ≡ true
    → (elem i met.1 || any (is_call_for i) cs) ≡ true
unfolding check_contexts
met_calls met [] m i h e = ground (arith, subst (λ (x : Met). elem i x.1 ≡ true) (sym (ok_inj h)) e)
met_calls met (c ∷ cs) m i h e =
    let (first, p, rest) = >>=-eq-ok (check_context met c) _ h in
    let k = check_context-Checked met c first p in
    ground (arith, met_calls first cs m i rest e, k.calls i)

module _ {A : Type 0} where
  for_each-ok :
      (f : A → Result (Unit {0})) (before : List A) (a : A) (after : List A)
      → for_each f (before ++ a ∷ after) ≡ ok tt
      → f a ≡ ok tt
  for_each-ok f [] a after h = let (u, e, _) = >>=-eq-ok (f a) _ h in e
  for_each-ok f (b ∷ before) a after h =
      let (u, e, rest) = >>=-eq-ok (f b) _ h in for_each-ok f before a after rest

raise_if-ok : (b : Bool) (e : Error) → raise_if b e ≡ ok tt → b ≡ false
raise_if-ok true e h = ground arith
raise_if-ok false e h = refl

result_is_no_call : (k : BlockKind) → k ≡ tool_result → kind_eq k tool_call ≡ false
unfolding kind_eq
result_is_no_call k e = rw e refl

is_result : (k : BlockKind) → k ≡ tool_result → kind_eq k tool_result ≡ true
unfolding kind_eq
is_result k e = rw e refl

not-false : {b : Bool} → not b ≡ false → b ≡ true
not-false {b} h = ground arith

-- What `validate` ensures of each context, wherever it stands in the request: its identifier is
-- well formed, is not that of the current task and is used by no context before it, its priority is
-- within 0 and 100, critical kinds have a retention that keeps them, each dependency is a context or
-- the current task, and a tool result follows the tool call that it answers.
pub record IsSoundContext (r : ManagedRequest) (before : List Context) (c : Context) : Type 0 where
  pub named : is_identifier c.id ≡ true
  pub no_task : (c.id ≟ "current-task") ≡ false
  pub unique : elem c.id (ids_of before) ≡ false
  pub ranked : within 0 100 c.priority ≡ true
  pub retained : is_critical c.kind ≡ true → is_retained c.retention ≡ true
  pub resolved : all (λ d. elem d (ids_of r.context) || (d ≟ "current-task")) c.dependencies ≡ true
  pub answered :
      c.kind ≡ tool_result → any (is_call_for (text_or_empty c.tool_call_id)) before ≡ true

all_ext :
    (p q : String → Bool) (xs : List String)
    → ((d : String) → p d ≡ q d)
    → all p xs ≡ true
    → all q xs ≡ true
all_ext p q [] f h = refl
all_ext p q (x ∷ xs) f h = ground (arith, f x, all_ext p q xs f)

-- Each context of a validated request is sound.
pub validate-IsSoundContext :
    (w : World) (r : ManagedRequest) (before : List Context) (c : Context) (after : List Context)
    → validate w r ≡ ok tt
    → r.context ≡ before ++ c ∷ after
    → IsSoundContext r before c
unfolding validate
validate-IsSoundContext w r before c after h split =
    let start : Met = ("current-task" ∷ [], []) in
    let (_, _, h1) = >>=-eq-ok (check_settings w r) _ h in
    let (met, loop, h2) = >>=-eq-ok (check_contexts start r.context) _ h1 in
    let (_, depends, h3) = >>=-eq-ok (check_dependencies met.0 r.context) _ h2 in
    let s =
      check_contexts-Split start before c after met
        (subst (λ cs. check_contexts start cs ≡ ok met) split loop) in
    let k = check_context-Checked s.reached c s.next s.checked in
    let known = met_ids start before s.reached c.id s.passed in
    let fresh_id : (elem c.id (ids_of before) || elem c.id ("current-task" ∷ [])) ≡ false =
      sym known ∙ k.fresh in
    record {
      named = k.named;
      no_task = ground (arith, fresh_id);
      unique = ground (arith, fresh_id);
      ranked = k.ranked;
      retained = k.retained;
      resolved =
          all_ext (λ d. elem d met.0) (λ d. elem d (ids_of r.context) || (d ≟ "current-task"))
            c.dependencies (λ d. ground (arith, met_ids start r.context met d loop))
            (not-false (
              raise_if-ok _ _ (
                for_each-ok _ before c after
                  (subst (λ cs. check_dependencies met.0 cs ≡ ok tt) split depends))));
      answered = λ e.
          met_calls start before s.reached (text_or_empty c.tool_call_id) s.passed
            (k.answered (is_result c.kind e) (result_is_no_call c.kind e));
    }

-- A validated request has no cycle of dependencies.
validate_acyclic :
    (w : World) (r : ManagedRequest)
    → validate w r ≡ ok tt
    → (i : String) → ¬ (Walk (graph_of r.context) i i)
unfolding validate
validate_acyclic w r h =
    let (_, _, h1) = >>=-eq-ok (check_settings w r) _ h in
    let (met, loop, h2) = >>=-eq-ok (check_contexts ("current-task" ∷ [], []) r.context) _ h1 in
    let (_, _, h3) = >>=-eq-ok (check_dependencies met.0 r.context) _ h2 in
    let (u, e, _) = >>=-eq-ok (reject_cycles (graph_of r.context)) _ h3 in
    (reject_cycles_exact (graph_of r.context)).0.0 e
