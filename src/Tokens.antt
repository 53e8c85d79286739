-- ===== src/Tokens.antt =====
-- src/llmcut/tokens: counters of tokens, the estimator, and the registry that selects a counter.
pub mod Registry
pub mod Measurement
use Prim.Native.String.{len}
use llmcut.Prelude.{ℕ, ◌+◌, ◌*◌, ◌/◌, ◌≤◌, ◌<◌, max, String, Option, ◌≡◌, arith}
use llmcut.Model.{TokenCount, estimated}

-- `TokenCounter.count(text, model=model)` of tokens/base.py
abbrev pub TokenCounter : Type 0
TokenCounter = String → Option String → TokenCount

-- `ConservativeEstimator`: a third of the UTF-8 bytes, rounded up, and at least one
unfoldable pub conservative_estimator : TokenCounter
conservative_estimator text model = record {
  value = max 1 ((len text + 2) / 3);
  quality = estimated;
  method = "utf8-bytes/3";
}

-- The estimate is the least number of tokens, not zero, of at most three bytes each that the text
-- can have.
conservative_estimator_bounds :
    (text : String) (model : Option String)
    → (1 ≤ (conservative_estimator text model).value)
      × (len text ≤ 3 * (conservative_estimator text model).value)
      × (1 < len text → 3 * (conservative_estimator text model).value < len text + 3)
unfolding conservative_estimator
conservative_estimator_bounds text model = omega arith
