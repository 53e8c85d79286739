-- ===== src/Tokens/Registry.antt =====
-- `CounterRegistry` of src/llmcut/tokens/registry.py. A count endpoint belongs to a provider's
-- transport; its answer to a payload is a parameter: a number, no number where it times out or raises
-- `OSError` or `ValueError`, or another exception, which `count_transport` does not catch.
use Prim.Native.String.{◌++◌ as join}
use llmcut.Prelude.{
  ℕ, String, Option, none, some, List, [], ◌∷◌, lookup, insert, if◌then◌else◌, ◌≟◌, ◌&&◌, ◌≡◌, refl,
  lookup-insert, eq_refl, Option-cases, inl, inr, subst,
}
use llmcut.Result.{Result, ok, err}
use llmcut.Exec.{Exec}
use llmcut.Json.{Fields, obj, ℤ, pos, negsuc}
use llmcut.World.{World}
use llmcut.Model.{TokenCount, provider_reported, tokenizer_derived, digest_bytes}
use llmcut.Tokens.{TokenCounter}

abbrev pub CountEndpoint : Type 0
CountEndpoint = Fields → Result (Option ℤ)

pub record Tokenizer : Type 0 where
  pub provider : String
  pub model : String
  pub counter : TokenCounter

pub record CounterRegistry : Type 0 where
  pub estimate : TokenCounter
  pub endpoints : List (String × CountEndpoint)
  pub tokenizers : List Tokenizer
  pub compatible : List (String × TokenCounter)
  pub cache : List (String × TokenCount)
  pub version : String

-- `_tokenizers.get((provider, model))`
unfoldable pub tokenizer_for : String → String → List Tokenizer → Option TokenCounter
tokenizer_for p m [] = none
tokenizer_for p m (t ∷ ts) =
    if (p ≟ t.provider) && (m ≟ t.model) then some t.counter else tokenizer_for p m ts

-- `_tokenizers[(provider, model)] = counter`
unfoldable pub set_tokenizer : Tokenizer → List Tokenizer → List Tokenizer
set_tokenizer t [] = t ∷ []
set_tokenizer t (u ∷ us) =
    if (t.provider ≟ u.provider) && (t.model ≟ u.model) then t ∷ us else u ∷ set_tokenizer t us

unfoldable pub register_endpoint : String → CountEndpoint → CounterRegistry → CounterRegistry
register_endpoint provider endpoint r = record r {
  endpoints = insert provider endpoint r.endpoints;
}

unfoldable pub register_official_tokenizer :
    String → String → TokenCounter → CounterRegistry → CounterRegistry
unfolding set_tokenizer
register_official_tokenizer provider model counter r = record r {
  tokenizers =
      set_tokenizer (record { provider = provider; model = model; counter = counter }) r.tokenizers;
}

unfoldable pub register_compatible : String → TokenCounter → CounterRegistry → CounterRegistry
register_compatible provider counter r = record r {
  compatible = insert provider counter r.compatible;
}

abbrev pub by_endpoint : ℕ → TokenCount
by_endpoint n = record {
  value = n;
  quality = provider_reported;
  method = "provider count endpoint";
}

-- an endpoint's answer: a negative count is no count
abbrev pub reported : Result (Option ℤ) → Result (Option TokenCount)
reported (err e) = err e
reported (ok none) = ok none
reported (ok (some (negsuc n))) = ok none
reported (ok (some (pos n))) = ok (some (by_endpoint n))

abbrev pub asked : Option CountEndpoint → Fields → Result (Option TokenCount)
asked none payload = ok none
asked (some endpoint) payload = reported (endpoint payload)

-- `_provider_count`
unfoldable pub provider_count : CounterRegistry → String → Fields → Result (Option TokenCount)
provider_count r provider payload = asked (lookup provider r.endpoints) payload

abbrev derived : TokenCount → String → TokenCount
derived measured m = record { value = measured.value; quality = tokenizer_derived; method = m }

-- the counter of the model or of its provider, where there is one, or the estimate
abbrev pub counted_by :
    Option TokenCounter → Option TokenCounter → TokenCounter → String → String → TokenCount
counted_by (some counter) compatible estimate text model =
    derived (counter text (some model)) "official model tokenizer"
counted_by none (some counter) estimate text model =
    derived (counter text (some model)) "documented compatible tokenizer"
counted_by none none estimate text model = estimate text (some model)

-- the counters that are tried when no endpoint answers, in their order
unfoldable pub local_count : CounterRegistry → String → String → String → TokenCount
local_count r provider model serialized =
    counted_by (tokenizer_for provider model r.tokenizers) (lookup provider r.compatible) r.estimate
      serialized model

-- the key of the cache: the digest of provider, model and payload, joined by NUL
unfoldable pub cache_key : World → String → String → String → String
unfolding digest_bytes
cache_key w provider model serialized =
    digest_bytes w (join provider (join "\0" (join model (join "\0" serialized))))

abbrev pub or_local : Result (Option TokenCount) → TokenCount → Result TokenCount
or_local (err e) d = err e
or_local (ok none) d = ok d
or_local (ok (some c)) d = ok c

-- what is counted when the cache has no entry
unfoldable pub fresh_count : CounterRegistry → String → String → Fields → String → Result TokenCount
fresh_count r provider model payload serialized =
    or_local (provider_count r provider payload) (local_count r provider model serialized)

abbrev pub cache_count : String → Result TokenCount → Exec CounterRegistry TokenCount
cache_count key (err e) r = (err e, r)
cache_count key (ok count) r = (ok count, record r { cache = insert key count r.cache })

abbrev cached_or : String → Result TokenCount → Option TokenCount → Exec CounterRegistry TokenCount
cached_or key fresh (some cached) r = (ok cached, r)
cached_or key fresh none r = cache_count key fresh r

unfoldable pub count_transport : World → String → String → Fields → Exec CounterRegistry TokenCount
count_transport w provider model payload r =
    let serialized = w.dumps (obj payload) in
    let key = cache_key w provider model serialized in
    cached_or key (fresh_count r provider model payload serialized) (lookup key r.cache) r

module _ (w : World) (provider model : String) (payload : Fields) (r : CounterRegistry) where
  abbrev own_key : String
  own_key = cache_key w provider model (w.dumps (obj payload))

  abbrev own_count : Result TokenCount
  own_count = fresh_count r provider model payload (w.dumps (obj payload))

  count_transport_hit :
      (c : TokenCount)
      → lookup own_key r.cache ≡ some c
      → count_transport w provider model payload r ≡ (ok c, r)
  unfolding count_transport
  count_transport_hit c e = rw (e, count_transport) refl

  -- With no cached count, what is counted is cached.
  pub count_transport_miss :
      lookup own_key r.cache ≡ none
      → count_transport w provider model payload r ≡ cache_count own_key own_count r
  unfolding count_transport
  count_transport_miss e = rw (e, count_transport) refl

module _ (w : World) (provider model : String) (payload : Fields) (r : CounterRegistry) where
  again :
      (key : String) (a : Result TokenCount)
      → key ≡ own_key w provider model payload r
      → count_transport w provider model payload r ≡ cache_count key a r
      → count_transport w provider model payload (cache_count key a r).1 ≡ cache_count key a r
  again key (err e) same h = h
  again key (ok c) same h =
      count_transport_hit w provider model payload (record r { cache = insert key c r.cache }) c
        (subst (λ k. lookup k (insert key c r.cache) ≡ some c) same
          (rw (lookup-insert key key c r.cache, eq_refl key) refl))

  -- Counting a payload again gives the same count or the same error, and changes the registry no
  -- further.
  pub count_transport_again :
      count_transport w provider model payload (count_transport w provider model payload r).1
      ≡ count_transport w provider model payload r
  count_transport_again =
      elim (Option-cases (lookup (own_key w provider model payload r) r.cache)) [
        | inl e ↦
            let h = count_transport_miss w provider model payload r e in
            rw h (
              again (own_key w provider model payload r) (own_count w provider model payload r) refl
                h)
        | inr (c, e) ↦ let h = count_transport_hit w provider model payload r c e in rw h h
      ]
