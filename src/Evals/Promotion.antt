-- ===== src/Evals/Promotion.antt =====
-- promotion_gate.py evaluate_promotion_gate: promote or block a model version, from the scores of
-- the base and the fine-tuned model. `none` is the ComparisonError of a missing metric.
pub mod Policy
use atlas_compliance_copilot.Prelude.{
  ℕ, ◌<>◌, String, Bool, true, false, not, ◌&&◌, ◌||◌, Option, none, some, List, [], ◌∷◌, ◌++◌,
  str_eq, if◌then◌else◌, all, or_default,
}
use atlas_compliance_copilot.Float.{Float}

-- The parts of comparison.json that are read: delta is optional, base and ft are numbers.
pub record Metric (F : Type 0) : Type 0 where
  pub base : F
  pub ft : F
  pub delta : Option F

pub record Comparison (F : Type 0) : Type 0 where
  pub faithfulness : Option (Metric F)
  pub format_validity : Option (Metric F)
  pub refusal_correctness : Option (Metric F)
  pub cost_delta_pct : Option F
  pub model_version : String
  pub git_sha : String

pub record PromotionFloors (F : Type 0) : Type 0 where
  pub abs_floor : F
  pub max_regression_vs_base : F
  pub mode : String
  pub format_abs_floor : F
  pub min_delta_vs_base : F
  pub max_regression_pct_vs_base : F
  pub block_reason_required : Bool

pub record Decision (F : Type 0) : Type 0 where
  pub metric : String
  pub value : Option F
  pub base : Option F
  pub threshold : F
  pub passed : Bool

pub data Reason (F : Type 0) : Type 0 where
  below_abs_floor : F → F → Reason F
  regressed : F → F → Reason F
  format_below : F → F → Reason F
  refusal_regressed : F → F → Reason F
  cost_regressed : F → F → Reason F
  see_decisions : Reason F

pub record PromotionGateResult (F : Type 0) : Type 0 where
  pub promoted : Bool
  pub decisions : List (Decision F)
  pub blocked_reasons : List (Reason F)
  pub model_version : String
  pub git_sha : String

module _ (R : Float) where
  -- _EPS = 1e-9 and _FORMAT_JUMP_MIN_DELTA = 0.25
  eps : R.F
  eps = R.ratio 1 1_000_000_000

  jump_min_delta : R.F
  jump_min_delta = R.ratio 25 100

  -- a + _EPS >= b
  unfoldable pub at_least : R.F → R.F → Bool
  unfolding eps
  at_least a b = R.leb b (R.add a eps)

  unfoldable pub floor_ok : PromotionFloors R.F → Metric R.F → Bool
  unfolding at_least
  floor_ok floors faith = at_least faith.ft floors.abs_floor

  unfoldable pub within_band : PromotionFloors R.F → Metric R.F → Bool
  unfolding at_least
  within_band floors faith = at_least faith.ft (R.sub faith.base floors.max_regression_vs_base)

  unfoldable pub format_ok : PromotionFloors R.F → Metric R.F → Bool
  unfolding at_least
  format_ok floors fmt = at_least fmt.ft floors.format_abs_floor

  unfoldable pub format_jumped : PromotionFloors R.F → Metric R.F → Bool
  unfolding at_least format_ok jump_min_delta
  format_jumped floors fmt = format_ok floors fmt && at_least (R.sub fmt.ft fmt.base) jump_min_delta

  unfoldable pub regression_ok : PromotionFloors R.F → Metric R.F → Metric R.F → Bool
  unfolding within_band format_jumped
  regression_ok floors faith fmt =
      if str_eq floors.mode "absolute"
      then true
      else if str_eq floors.mode "no_regression"
      then within_band floors faith
      else within_band floors faith || format_jumped floors fmt

  refusal_delta : Metric R.F → R.F
  refusal_delta refusal = or_default (R.sub refusal.ft refusal.base) refusal.delta

  unfoldable pub refusal_ok : PromotionFloors R.F → Metric R.F → Bool
  unfolding at_least refusal_delta
  refusal_ok floors refusal = at_least (refusal_delta refusal) floors.min_delta_vs_base

  -- A cost that was not measured does not block.
  unfoldable pub cost_ok : PromotionFloors R.F → Option R.F → Bool
  unfolding eps
  cost_ok floors none = true
  cost_ok floors (some delta) = R.leb delta (R.add floors.max_regression_pct_vs_base eps)

  cost_base : Option R.F → Option R.F
  cost_base none = none
  cost_base (some _) = some (R.ratio 0 1)

  decisions_of :
      PromotionFloors R.F → Metric R.F → Metric R.F → Metric R.F → Option R.F → List (Decision R.F)
  unfolding floor_ok regression_ok format_ok refusal_ok cost_ok cost_base
  decisions_of floors faith fmt refusal cost =
      record {
        metric = "faithfulness_floor";
        value = some faith.ft;
        base = some faith.base;
        threshold = floors.abs_floor;
        passed = floor_ok floors faith;
      }
      ∷ record {
        metric = "faithfulness_regression[" <> floors.mode <> "]";
        value = some faith.ft;
        base = some faith.base;
        threshold = floors.max_regression_vs_base;
        passed = regression_ok floors faith fmt;
      }
      ∷ record {
        metric = "format_validity";
        value = some fmt.ft;
        base = some fmt.base;
        threshold = floors.format_abs_floor;
        passed = format_ok floors fmt;
      }
      ∷ record {
        metric = "refusal_correctness";
        value = some refusal.ft;
        base = some refusal.base;
        threshold = floors.min_delta_vs_base;
        passed = refusal_ok floors refusal;
      }
      ∷ record {
        metric = "cost_per_request";
        value = cost;
        base = cost_base cost;
        threshold = floors.max_regression_pct_vs_base;
        passed = cost_ok floors cost;
      }
      ∷ []

  unless : Bool → Reason R.F → List (Reason R.F)
  unless b reason = if b then [] else reason ∷ []

  reasons_of :
      PromotionFloors R.F → Metric R.F → Metric R.F → Metric R.F → Option R.F → List (Reason R.F)
  unfolding floor_ok regression_ok format_ok refusal_ok cost_ok refusal_delta unless
  reasons_of floors faith fmt refusal cost =
      unless (floor_ok floors faith) (below_abs_floor faith.ft floors.abs_floor)
      ++ unless (regression_ok floors faith fmt) (regressed faith.base faith.ft)
      ++ unless (format_ok floors fmt) (format_below fmt.ft floors.format_abs_floor)
      ++ unless (refusal_ok floors refusal)
          (refusal_regressed (refusal_delta refusal) floors.min_delta_vs_base)
      ++ unless (cost_ok floors cost)
          (cost_regressed (or_default (R.ratio 0 1) cost) floors.max_regression_pct_vs_base)

  -- A block carries a reason, where that is required.
  with_reason : Bool → List (Reason R.F) → List (Reason R.F)
  with_reason needed [] = if needed then see_decisions ∷ [] else []
  with_reason needed (r ∷ rs) = r ∷ rs

  chosen : String → String → String
  chosen given recorded = if str_eq given "" then recorded else given

  decide :
      PromotionFloors R.F
      → Comparison R.F
      → String
      → Metric R.F
      → Metric R.F
      → Metric R.F
      → PromotionGateResult R.F
  unfolding decisions_of reasons_of with_reason chosen
  decide floors comparison git_sha faith fmt refusal =
      let decisions = decisions_of floors faith fmt refusal comparison.cost_delta_pct in
      let promoted = all (λ d. d.passed) decisions in
      record {
        promoted = promoted;
        decisions = decisions;
        blocked_reasons =
            with_reason (not promoted && floors.block_reason_required)
              (reasons_of floors faith fmt refusal comparison.cost_delta_pct);
        model_version = comparison.model_version;
        git_sha = chosen git_sha comparison.git_sha;
      }

  with_metrics :
      PromotionFloors R.F
      → Comparison R.F
      → String
      → Option (Metric R.F)
      → Option (Metric R.F)
      → Option (Metric R.F)
      → Option (PromotionGateResult R.F)
  unfolding decide
  with_metrics floors comparison git_sha none fmt refusal = none
  with_metrics floors comparison git_sha (some faith) none refusal = none
  with_metrics floors comparison git_sha (some faith) (some fmt) none = none
  with_metrics floors comparison git_sha (some faith) (some fmt) (some refusal) =
      some (decide floors comparison git_sha faith fmt refusal)

  unfoldable pub evaluate_promotion_gate :
      Comparison R.F → PromotionFloors R.F → String → Option (PromotionGateResult R.F)
  unfolding with_metrics
  evaluate_promotion_gate comparison floors git_sha =
      with_metrics floors comparison git_sha comparison.faithfulness comparison.format_validity
        comparison.refusal_correctness
