-- ===== src/Evals/Gate.antt =====
-- gate.py evaluate_gate: the decision that blocks a merge.
pub mod Floors
use atlas_compliance_copilot.Prelude.{
  ℕ, String, Bool, true, false, not, ◌&&◌, ◌||◌, Option, none, some, List, [], ◌∷◌, ◌++◌, str_eq,
  if◌then◌else◌,
}
use atlas_compliance_copilot.Float.{Float}

module _ (R : Float) where
  pub record MetricThreshold : Type 0 where
    pub baseline : Option R.F
    pub floor : Option R.F
    pub max_regression : Option R.F
    pub report_only : Bool

  pub record Baseline : Type 0 where
    pub metrics : List (String × MetricThreshold)
    pub adversarial_must_pass_rate : R.F

pub data Failure (F : Type 0) : Type 0 where
  missing : String → Failure F
  below_floor : String → F → F → Failure F
  regressed : String → F → F → Failure F
  adversarial : F → Failure F

pub record GateResult (F : Type 0) : Type 0 where
  pub passed : Bool
  pub failures : List (Failure F)

module _ (R : Float) where
  -- scores.get(name)
  unfoldable pub score_of : String → List (String × R.F) → Option R.F
  score_of name [] = none
  score_of name ((n, x) ∷ scores) =
      let rest = score_of name scores in if str_eq n name then some x else rest

  unfoldable pub regression : String → R.F → Option R.F → Option R.F → List (Failure R.F)
  regression name score none m = []
  regression name score (some b) none = []
  regression name score (some b) (some m) =
      if R.ltb m (R.sub b score) then regressed name (R.sub b score) m ∷ [] else []

  unfoldable pub against_floor : String → MetricThreshold R → R.F → Option R.F → List (Failure R.F)
  unfolding regression
  against_floor name thr floor none = missing name ∷ []
  against_floor name thr floor (some score) =
      (if R.ltb score floor then below_floor name score floor ∷ [] else [])
      ++ regression name score thr.baseline thr.max_regression

  with_floor : List (String × R.F) → String → MetricThreshold R → Option R.F → List (Failure R.F)
  unfolding against_floor score_of
  with_floor scores name thr none = []
  with_floor scores name thr (some floor) = against_floor name thr floor (score_of name scores)

  unfoldable pub metric_failures :
      List (String × R.F) → String → MetricThreshold R → List (Failure R.F)
  unfolding with_floor
  metric_failures scores name thr =
      if thr.report_only then [] else with_floor scores name thr thr.floor

  unfoldable pub all_failures :
      List (String × R.F) → List (String × MetricThreshold R) → List (Failure R.F)
  unfolding metric_failures
  all_failures scores [] = []
  all_failures scores ((name, thr) ∷ ms) = metric_failures scores name thr ++ all_failures scores ms

  no_failures : List (Failure R.F) → Bool
  no_failures [] = true
  no_failures (_ ∷ _) = false

  -- The adversarial report comes in by its pass rate.
  unfoldable pub gate_failures : List (String × R.F) → R.F → Baseline R → List (Failure R.F)
  unfolding all_failures
  gate_failures scores rate baseline =
      all_failures scores baseline.metrics
      ++ (if R.ltb rate baseline.adversarial_must_pass_rate then adversarial rate ∷ [] else [])

  unfoldable pub evaluate_gate : List (String × R.F) → R.F → Baseline R → GateResult R.F
  unfolding gate_failures no_failures
  evaluate_gate scores rate baseline =
      let failures = gate_failures scores rate baseline in
      record { passed = no_failures failures; failures = failures }
