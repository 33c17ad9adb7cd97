-- ===== src/Evals/CostGate.antt =====
-- cost_gate.py evaluate_cost_gate: the recorded saving must reach its target, and the cost must not
-- rise above its ceiling. A missing field is none.
use atlas_compliance_copilot.Prelude.{
  ◌≡◌, Bool, true, false, not, ◌&&◌, Option, none, some, List, [], ◌∷◌, ◌++◌, if◌then◌else◌, arith,
}
use atlas_compliance_copilot.Float.{Float}

pub record CostBaseline (F : Type 0) : Type 0 where
  pub cost_reduction_pct : Option F
  pub target_reduction_pct : Option F
  pub meets_target : Option Bool
  pub cost_on_units : Option F
  pub max_cost_on_units : Option F

pub data CostFailure (F : Type 0) : Type 0 where
  missing_fields : CostFailure F
  below_target : F → F → CostFailure F
  target_unmet : CostFailure F
  above_ceiling : F → F → CostFailure F

pub record CostGateResult (F : Type 0) : Type 0 where
  pub passed : Bool
  pub failures : List (CostFailure F)

module _ (R : Float) where
  -- _EPS = 1e-9
  cost_eps : R.F
  cost_eps = R.ratio 1 1_000_000_000

  unfoldable pub reduction_failures : Option R.F → Option R.F → List (CostFailure R.F)
  unfolding cost_eps
  reduction_failures none target = missing_fields ∷ []
  reduction_failures (some reduction) none = missing_fields ∷ []
  reduction_failures (some reduction) (some target) =
      if R.ltb (R.add reduction cost_eps) target then below_target reduction target ∷ [] else []

  -- `meets is False`
  unfoldable pub meets_failures : Option Bool → List (CostFailure R.F)
  meets_failures none = []
  meets_failures (some true) = []
  meets_failures (some false) = target_unmet ∷ []

  unfoldable pub ceiling_failures : Option R.F → Option R.F → List (CostFailure R.F)
  unfolding cost_eps
  ceiling_failures none on_units = []
  ceiling_failures (some ceiling) none = []
  ceiling_failures (some ceiling) (some on_units) =
      if R.ltb (R.add ceiling cost_eps) on_units then above_ceiling on_units ceiling ∷ [] else []

  no_cost_failures : List (CostFailure R.F) → Bool
  no_cost_failures [] = true
  no_cost_failures (_ ∷ _) = false

  unfoldable pub evaluate_cost_gate : CostBaseline R.F → CostGateResult R.F
  unfolding reduction_failures meets_failures ceiling_failures no_cost_failures
  evaluate_cost_gate cost =
      let failures =
        reduction_failures cost.cost_reduction_pct cost.target_reduction_pct
        ++ meets_failures cost.meets_target
        ++ ceiling_failures cost.max_cost_on_units cost.cost_on_units in
      record { passed = no_cost_failures failures; failures = failures }

  -- The saving is recorded with its target, and reaches it.
  unfoldable pub reaches_target : Option R.F → Option R.F → Bool
  unfolding cost_eps
  reaches_target none target = false
  reaches_target (some reduction) none = false
  reaches_target (some reduction) (some target) = not (R.ltb (R.add reduction cost_eps) target)

  unfoldable pub not_denied : Option Bool → Bool
  not_denied none = true
  not_denied (some b) = b

  unfoldable pub under_ceiling : Option R.F → Option R.F → Bool
  unfolding cost_eps
  under_ceiling none on_units = true
  under_ceiling (some ceiling) none = true
  under_ceiling (some ceiling) (some on_units) = not (R.ltb (R.add ceiling cost_eps) on_units)

  -- The cost gate passes exactly where the saving and its target are recorded and the target is
  -- reached, the record does not deny it, and the cost keeps below a ceiling that is given.
  pub evaluate_cost_gate-passed :
      (cost : CostBaseline R.F)
      → (evaluate_cost_gate cost).passed ≡ (
          reaches_target cost.cost_reduction_pct cost.target_reduction_pct
          && (not_denied cost.meets_target
              && under_ceiling cost.max_cost_on_units cost.cost_on_units))
  unfolding evaluate_cost_gate no_cost_failures reduction_failures meets_failures ceiling_failures
      reaches_target not_denied under_ceiling
  evaluate_cost_gate-passed cost =
      split cost.cost_reduction_pct cost.target_reduction_pct cost.meets_target
        cost.max_cost_on_units cost.cost_on_units
    where
      split :
          (a b : Option R.F) (m : Option Bool) (c d : Option R.F)
          → no_cost_failures (reduction_failures a b ++ meets_failures m ++ ceiling_failures c d)
            ≡ (reaches_target a b && (not_denied m && under_ceiling c d))
      split a b m c d = ground arith
