-- ===== src/Tests/Proxied.antt =====
-- A request in a format that its adapter reads but does not reconstruct, and a body that is no JSON.
use llmcut.Prelude.{false, none, some, ◌≡◌, ◌≤◌, refl}
use llmcut.Adapters.{ProviderAdapter}
use llmcut.Result.{ok, err, type_error}
use llmcut.Json.{field, end, str, obj}
use llmcut.World.{World}
use llmcut.Policy.{parity}
use llmcut.Proxy.Native.{
  NativeOptimization, within_depth, bounded_json, attempt, optimize_native, unreduced,
}
use llmcut.Proxy.Native.Safe.{IsSafeBody, optimize_native-IsSafeBody}
use llmcut.Tests.Fixtures.{world, bytes, request, new_store}

-- the adapter loses what it reads
abbrev lossy : ProviderAdapter
lossy = record {
  validate_native = λ d. ok tt;
  from_native = λ d. ok request;
  to_native = λ r. ok end;
  usage = λ d. err (type_error "no usage");
  semantically_equal = λ d e. false;
}

abbrev web : World
web = record world { loads = λ t. some (obj (field "model" (str "m") end)) }

abbrev passed : NativeOptimization
passed =
    unreduced web lossy "messages" bytes bytes parity "model:'m'" "restored"
      "native round-trip was not semantically equivalent" 9 0 none

passed_on :
    (optimize_native web lossy "messages" bytes bytes parity "model:'m'" new_store).0 ≡ ok passed
unfolding optimize_native attempt bounded_json within_depth
passed_on = refl

optimize_native-IsSafeBody_example :
    IsSafeBody web lossy "messages" bytes bytes parity "model:'m'" passed
    × (passed.effective_tokens ≡ (bytes passed.body none).value)
    × (passed.effective_tokens ≤ (bytes "model:'m'" none).value)
optimize_native-IsSafeBody_example =
    optimize_native-IsSafeBody web lossy "messages" bytes bytes parity "model:'m'" new_store passed
      passed_on
