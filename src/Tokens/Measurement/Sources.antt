-- ===== src/Tokens/Measurement/Sources.antt =====
-- Where the count of `count_payload` in src/llmcut/measurement.py comes from.
use llmcut.Prelude.{
  ℕ, String, Option, none, some, ◌≡◌, ◌≢◌, ◌⊎◌, inl, inr, ◌↔◌, true, refl, sym, ap, ◌∙◌, subst,
  arith, lookup,
}
use llmcut.Result.{Result, ok, err, ok_inj}
use llmcut.Json.{Fields, obj, ℤ, pos, negsuc}
use llmcut.Exec.{>>=-eq-ok}
use llmcut.World.{World}
use llmcut.Model.{CountQuality, exact, provider_reported, tokenizer_derived, estimated, TokenCount}
use llmcut.Tokens.{TokenCounter}
use llmcut.Tokens.Registry.{
  CountEndpoint, CounterRegistry, tokenizer_for, reported as endpoint_answer, asked, by_endpoint,
  counted_by, provider_count, local_count, fresh_count, or_local, cache_key, cache_count,
  count_transport, count_transport_miss, count_transport_again,
}
use llmcut.Tokens.Measurement.{
  MeasurementQuality, reported, count_endpoint, official_tokenizer, compatible_tokenizer, estimate,
  live_provider, untrusted_fixture, TokenMeasurement, eligible, grade, measured, count_payload,
}

-- no endpoint gives a count: none is registered, or it has no answer, or a negative one
abbrev pub IsUnanswered : Option CountEndpoint → Fields → Type 0
IsUnanswered o payload =
    (f : CountEndpoint)
    → o ≡ some f
    → (f payload ≡ ok none) ⊎ ((n : ℕ) × (f payload ≡ ok (some (negsuc n))))

-- what a quality says of the source of a count, by the endpoint, the official and the compatible counter
-- that are registered, and the estimate
abbrev pub IsSource :
    Option CountEndpoint
    → Option TokenCounter
    → Option TokenCounter
    → TokenCounter
    → Fields
    → String
    → String
    → MeasurementQuality
    → ℕ
    → Type 0
IsSource o official compatible guess payload text model reported n = ⊥
IsSource o official compatible guess payload text model count_endpoint n =
    (f : CountEndpoint) × (o ≡ some f) × (f payload ≡ ok (some (pos n)))
IsSource o official compatible guess payload text model official_tokenizer n =
    IsUnanswered o payload
    × ((t : TokenCounter) × (official ≡ some t) × (n ≡ (t text (some model)).value))
IsSource o official compatible guess payload text model compatible_tokenizer n =
    IsUnanswered o payload
    × (official ≡ none)
    × ((t : TokenCounter) × (compatible ≡ some t) × (n ≡ (t text (some model)).value))
IsSource o official compatible guess payload text model estimate n =
    IsUnanswered o payload
    × (official ≡ none)
    × (compatible ≡ none)
    × (n ≡ (guess text (some model)).value)

answered_by :
    (a : Result (Option ℤ)) (c : TokenCount)
    → endpoint_answer a ≡ ok (some c)
    → (n : ℕ) × (a ≡ ok (some (pos n))) × (c ≡ by_endpoint n)
answered_by (err e) c h = ground (arith, h)
answered_by (ok none) c h = ground (arith, ok_inj h)
answered_by (ok (some (negsuc n))) c h = ground (arith, ok_inj h)
answered_by (ok (some (pos n))) c h =
    (n, refl, ap (λ (o : Option TokenCount). elim o [ none ↦ c | some d ↦ d ]) (sym (ok_inj h)))

no_answer :
    (a : Result (Option ℤ))
    → endpoint_answer a ≡ ok none
    → (a ≡ ok none) ⊎ ((n : ℕ) × (a ≡ ok (some (negsuc n))))
no_answer (err e) h = ground (arith, h)
no_answer (ok none) h = inl refl
no_answer (ok (some (negsuc n))) h = inr (n, refl)
no_answer (ok (some (pos n))) h = ground (arith, ok_inj h)

asked-IsUnanswered :
    (o : Option CountEndpoint) (payload : Fields)
    → asked o payload ≡ ok none
    → IsUnanswered o payload
asked-IsUnanswered none payload h f e = ground (arith, e)
asked-IsUnanswered (some g) payload h f e =
    no_answer (f payload) (subst (λ o. asked o payload ≡ ok none) e h)

asked-some :
    (o : Option CountEndpoint) (payload : Fields) (c : TokenCount)
    → asked o payload ≡ ok (some c)
    → (n : ℕ) × (c ≡ by_endpoint n)
      × ((f : CountEndpoint) × (o ≡ some f) × (f payload ≡ ok (some (pos n))))
asked-some none payload c h = ground (arith, ok_inj h)
asked-some (some f) payload c h =
    let (n, e, same) = answered_by (f payload) c h in (n, same, (f, refl, e))

or_local-eq-ok :
    (a : Result (Option TokenCount)) (d c : TokenCount)
    → or_local a d ≡ ok c
    → (a ≡ ok (some c)) ⊎ ((a ≡ ok none) × (d ≡ c))
or_local-eq-ok (err e) d c h = ground (arith, h)
or_local-eq-ok (ok none) d c h = inr (refl, ok_inj h)
or_local-eq-ok (ok (some b)) d c h = inl (ap (λ x. ok (some x)) (ok_inj h))

grade_estimated : (q : CountQuality) (m : String) → q ≡ estimated → (grade q m).0 ≡ estimate
unfolding grade
grade_estimated q m h = rw h refl

counted_by-IsSource :
    (o : Option CountEndpoint) (official compatible : Option TokenCounter) (guess : TokenCounter)
    (payload : Fields) (text model : String)
    → ((t : String) (n : Option String) → (guess t n).quality ≡ estimated)
    → IsUnanswered o payload
    → let c = counted_by official compatible guess text model in
      IsSource o official compatible guess payload text model (grade c.quality c.method).0 c.value
unfolding grade
counted_by-IsSource o (some t) compatible guess payload text model q un = (un, (t, refl, refl))
counted_by-IsSource o none (some t) guess payload text model q un = (un, refl, (t, refl, refl))
counted_by-IsSource o none none guess payload text model q un =
    let c = guess text (some model) in
    subst (λ x. IsSource o none none guess payload text model x c.value)
      (sym (grade_estimated c.quality c.method (q text (some model)))) (un, refl, refl, refl)

fresh_count-IsSource :
    (r : CounterRegistry) (provider model : String) (payload : Fields) (text : String)
    (c : TokenCount)
    → ((t : String) (n : Option String) → (r.estimate t n).quality ≡ estimated)
    → fresh_count r provider model payload text ≡ ok c
    → IsSource
        (lookup provider r.endpoints)
        (tokenizer_for provider model r.tokenizers)
        (lookup provider r.compatible)
        r.estimate
        payload
        text
        model
        (grade c.quality c.method).0
        c.value
unfolding fresh_count provider_count local_count grade
fresh_count-IsSource r provider model payload text c q h =
    let o = lookup provider r.endpoints in
    let official = tokenizer_for provider model r.tokenizers in
    let compatible = lookup provider r.compatible in
    let Source = λ (x : TokenCount).
      IsSource o official compatible r.estimate payload text model (grade x.quality x.method).0
        x.value in
    elim (or_local-eq-ok (asked o payload) (local_count r provider model text) c h) [
      | inl e ↦ let (n, same, source) = asked-some o payload c e in subst Source (sym same) source
      | inr (e, same) ↦ subst Source same (
          counted_by-IsSource o official compatible r.estimate payload text model q
            (asked-IsUnanswered o payload e))
    ]

grade-trust :
    (q : CountQuality) (m : String)
    → ((grade q m).1 ≢ untrusted_fixture)
      × ((grade q m).0 ≢ reported)
      × ((grade q m).1 ≡ live_provider ↔ (grade q m).0 ≡ count_endpoint)
unfolding grade
grade-trust exact m = ground arith
grade-trust provider_reported m = ground arith
grade-trust tokenizer_derived m = ground arith
grade-trust estimated m = ground arith

trusted_eligible : (m : TokenMeasurement) → m.trust ≢ untrusted_fixture → eligible m ≡ true
unfolding eligible
trusted_eligible m h = ground arith

count_cached :
    (key : String) (a : Result TokenCount) (r : CounterRegistry) → (cache_count key a r).0 ≡ a
count_cached key (err e) r = refl
count_cached key (ok c) r = refl

module _ (w : World) (provider model : String) (payload : Fields) where
  count_payload-ok :
      (now : String) (g : CounterRegistry) (c : TokenCount)
      → (count_transport w provider model payload g).0 ≡ ok c
      → let g' = (count_transport w provider model payload g).1 in
        count_payload w provider model payload now g
        ≡ (ok (measured w provider model payload now g'.version c), g')
  unfolding count_payload
  count_payload-ok now g c h = rw (count_payload, h) refl

  -- Where the payload's count is not cached, and the estimate is marked as one, a measurement's quality says
  -- where its value comes from: an endpoint that has answered with that number, the model's tokenizer, the
  -- provider's compatible one or the estimate, each only where none before it gives a count. It is eligible,
  -- never taken for a provider's report, and trusted as live exactly where it comes from the endpoint.
  -- Counted again later the measurement differs in its time only.
  pub count_payload-IsSource :
      (now later : String) (g : CounterRegistry) (m : TokenMeasurement)
      → lookup (cache_key w provider model (w.dumps (obj payload))) g.cache ≡ none
      → ((t : String) (n : Option String) → (g.estimate t n).quality ≡ estimated)
      → (count_payload w provider model payload now g).0 ≡ ok m
      → IsSource
          (lookup provider g.endpoints)
          (tokenizer_for provider model g.tokenizers)
          (lookup provider g.compatible)
          g.estimate
          payload
          (w.dumps (obj payload))
          model
          m.quality
          m.value
        × (eligible m ≡ true)
        × (m.quality ≢ reported)
        × (m.trust ≡ live_provider ↔ m.quality ≡ count_endpoint)
        × ((count_payload w provider model payload later
              (count_payload w provider model payload now g).1).0
            ≡ ok (record m { timestamp = later }))
  unfolding count_payload measured
  count_payload-IsSource now later g m miss q h =
      let (c, e, h1, p) = >>=-eq-ok (count_transport w provider model payload) _ g h in
      let g' = (count_transport w provider model payload g).1 in
      let same = ok_inj h1 in
      let fresh =
        sym (count_cached _ (fresh_count g provider model payload (w.dumps (obj payload))) g)
        ∙ ap (λ x. x.0) (sym (count_transport_miss w provider model payload g miss))
        ∙ e in
      let (trusted, own, live) = grade-trust c.quality c.method in
      subst
        (λ (x : TokenMeasurement).
          IsSource (lookup provider g.endpoints) (tokenizer_for provider model g.tokenizers)
            (lookup provider g.compatible) g.estimate payload (w.dumps (obj payload)) model
            x.quality x.value
          × (eligible x ≡ true)
          × (x.quality ≢ reported)
          × (x.trust ≡ live_provider ↔ x.quality ≡ count_endpoint)
          × ((count_payload w provider model payload later
                (count_payload w provider model payload now g).1).0
              ≡ ok (record x { timestamp = later })))
        same
        (
          fresh_count-IsSource g provider model payload (w.dumps (obj payload)) c q fresh,
          trusted_eligible (measured w provider model payload now g'.version c) trusted,
          own,
          live,
          ap (λ s. (count_payload w provider model payload later s).0)
                (ap (λ x. x.1) (count_payload-ok now g c e))
              ∙ ap (λ x. x.0)
                  (count_payload-ok later g' c
                    (ap (λ x. x.0) (count_transport_again w provider model payload g) ∙ e))
              ∙ ap
                  (λ (s : CounterRegistry).
                    ok (measured w provider model payload later s.version c))
                  (ap (λ x. x.1) (count_transport_again w provider model payload g)),
        )
