-- ===== src/Policy.antt =====
-- src/llmcut/policy.py: modes, policies and their validation. The rules that select blocks are in
-- `Selection`. A confidence is in hundredths: 95 is 0.95.
pub mod Selection
use llmcut.Prelude.{ℕ, String, Bool, true, false, ◌||◌}
use llmcut.Result.{Result, ok, err, raise_if, ◌>>=◌, ◌>>◌, value_error, unsupported_mode}

pub data OptimizationMode : Type 0 where
  strict parity extreme economy : OptimizationMode

pub data IntegrationMode : Type 0 where
  transparent managed : IntegrationMode

pub record Policy : Type 0 where
  pub mode : OptimizationMode
  pub quality_floor : String
  pub allow_lossy_context : Bool
  pub allow_model_change : Bool
  pub allow_reasoning_change : Bool
  pub allow_validation_reduction : Bool
  pub retain_original_context : Bool
  pub fallback : String
  pub confidence_threshold : ℕ

-- `Policy()`
abbrev pub default_policy : Policy
default_policy = record {
  mode = extreme;
  quality_floor = "baseline";
  allow_lossy_context = false;
  allow_model_change = false;
  allow_reasoning_change = false;
  allow_validation_reduction = false;
  retain_original_context = true;
  fallback = "full_context";
  confidence_threshold = 80;
}

abbrev is_economy : OptimizationMode → Bool
is_economy economy = true
is_economy _ = false

unfoldable pub validate : Policy → Result (Unit {0})
validate p = do
  raise_if (is_economy p.mode) (unsupported_mode "economy routing is defined but not implemented")
  raise_if
      (p.allow_lossy_context || p.allow_model_change || p.allow_reasoning_change
        || p.allow_validation_reduction)
      (value_error "quality invariants prohibit lossy or capability-reducing policy")
