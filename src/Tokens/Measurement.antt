-- ===== src/Tokens/Measurement.antt =====
-- src/llmcut/measurement.py: what a count of a payload may be taken for. The time of a measurement
-- is an argument. `Sources` says where a count comes from.
pub mod Sources
use text.Mathlib.Text.{find?}
use llmcut.Prelude.{ℕ, String, Bool, true, false, Option, none, some, if◌then◌else◌}
use llmcut.Exec.{Exec, ◌>>=◌, gets, pure}
use llmcut.Json.{Fields, obj}
use llmcut.World.{World}
use llmcut.Model.{
  CountQuality, exact, provider_reported, tokenizer_derived, estimated, TokenCount, digest_bytes,
}
use llmcut.Tokens.Registry.{CounterRegistry, count_transport}

pub data MeasurementQuality : Type 0 where
  reported count_endpoint official_tokenizer compatible_tokenizer estimate : MeasurementQuality

pub data MeasurementTrust : Type 0 where
  untrusted_fixture verified_capture live_provider locally_counted : MeasurementTrust

pub data MeasurementLayer : Type 0 where
  payload_layer provider_layer agent_layer subscription_layer : MeasurementLayer

pub record TokenMeasurement : Type 0 where
  pub value : ℕ
  pub quality : MeasurementQuality
  pub source : String
  pub provider : String
  pub model : String
  pub request_digest : String
  pub response_digest : Option String
  pub counter_version : String
  pub timestamp : String
  pub trust : MeasurementTrust
  pub layer : MeasurementLayer

-- `TokenMeasurement.eligible`
unfoldable pub eligible : TokenMeasurement → Bool
eligible m = elim m.trust [ untrusted_fixture ↦ false | _ ↦ true ]

-- `request_digest` and `response_digest`: the digest of `canonical_payload`
unfoldable pub payload_digest : World → Fields → String
unfolding digest_bytes
payload_digest w payload = digest_bytes w (w.dumps (obj payload))

abbrev is_compatible : String → Bool
is_compatible method = elim (find? method "compatible") [ none ↦ false | some _ ↦ true ]

-- the quality and the trust that a count's quality and method give
unfoldable pub grade : CountQuality → String → MeasurementQuality × MeasurementTrust
grade provider_reported method = (count_endpoint, live_provider)
grade tokenizer_derived method =
    (if is_compatible method then compatible_tokenizer else official_tokenizer, locally_counted)
grade _ method = (estimate, locally_counted)

-- the measurement that a count makes
unfoldable pub measured :
    World → String → String → Fields → String → String → TokenCount → TokenMeasurement
measured w provider model payload now version count =
    let (quality, trust) = grade count.quality count.method in
    record {
      value = count.value;
      quality = quality;
      source = count.method;
      provider = provider;
      model = model;
      request_digest = payload_digest w payload;
      response_digest = none;
      counter_version = version;
      timestamp = now;
      trust = trust;
      layer = payload_layer;
    }

-- `count_payload`
unfoldable pub count_payload :
    World → String → String → Fields → String → Exec CounterRegistry TokenMeasurement
count_payload w provider model payload now = do
  count ← count_transport w provider model payload
  version ← gets (λ (r : CounterRegistry). r.version)
  pure (measured w provider model payload now version count)

-- `provider_measurement`
unfoldable pub provider_measurement :
    World
    → ℕ
    → String
    → String
    → Fields
    → Fields
    → MeasurementTrust
    → String
    → String
    → TokenMeasurement
provider_measurement w value provider model request response trust source now = record {
  value = value;
  quality = reported;
  source = source;
  provider = provider;
  model = model;
  request_digest = payload_digest w request;
  response_digest = some (payload_digest w response);
  counter_version = "provider-response-v1";
  timestamp = now;
  trust = trust;
  layer = provider_layer;
}
