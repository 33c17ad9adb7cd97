-- ===== src/Evals/Gate/Floors.antt =====
-- What a passed merge gate shows of the scores and of the adversarial cases.
use atlas_compliance_copilot.Prelude.{
  ◌<◌, ◌^◌, ◌≡◌, refl, ap, ◌∙◌, String, Bool, true, false, not, ◌&&◌, ◌||◌, Option, none, some,
  List, [], ◌∷◌, ◌++◌, if◌then◌else◌, all, count_if, count_if-lt, length, arith, inl, inr,
}
use atlas_compliance_copilot.Float.{Float, IsUnitRatio}
use atlas_compliance_copilot.Evals.Adversarial.{CaseResult, passed, pass_rate}
use atlas_compliance_copilot.Evals.Gate.{
  MetricThreshold, Baseline, Failure, score_of, regression, against_floor, with_floor,
  metric_failures, all_failures, no_failures, gate_failures, evaluate_gate,
}

module _ (R : Float) where
  -- The band is kept, where both the baseline and the band are given.
  unfoldable pub within_band : R.F → Option R.F → Option R.F → Bool
  within_band score none m = true
  within_band score (some b) none = true
  within_band score (some b) (some m) = not (R.ltb m (R.sub b score))

  reaches : MetricThreshold R → R.F → Option R.F → Bool
  unfolding within_band
  reaches thr floor none = false
  reaches thr floor (some score) =
      not (R.ltb score floor) && within_band score thr.baseline thr.max_regression

  reaches_floor : List (String × R.F) → String → MetricThreshold R → Option R.F → Bool
  unfolding reaches
  reaches_floor scores name thr none = true
  reaches_floor scores name thr (some floor) = reaches thr floor (score_of R name scores)

  -- A metric that is not gated, or whose score is there, at the floor or above, and in the band.
  unfoldable pub meets : List (String × R.F) → String × MetricThreshold R → Bool
  unfolding reaches_floor
  meets scores (name, thr) = thr.report_only || reaches_floor scores name thr thr.floor

  no_failures-append :
      (xs ys : List (Failure R.F))
      → no_failures R (xs ++ ys) ≡ (no_failures R xs && no_failures R ys)
  unfolding no_failures
  no_failures-append [] ys = refl
  no_failures-append (x ∷ xs) ys = refl

  regression-band :
      (name : String) (score : R.F) (b m : Option R.F)
      → no_failures R (regression R name score b m) ≡ within_band score b m
  unfolding no_failures regression within_band
  regression-band name score none m = refl
  regression-band name score (some b) none = refl
  regression-band name score (some b) (some m) = ground arith

  against_floor-reaches :
      (name : String) (thr : MetricThreshold R) (floor : R.F) (o : Option R.F)
      → no_failures R (against_floor R name thr floor o) ≡ reaches thr floor o
  unfolding no_failures against_floor reaches
  against_floor-reaches name thr floor none = refl
  against_floor-reaches name thr floor (some score) =
      ground (arith, regression-band name score thr.baseline thr.max_regression)

  metric_failures-meets :
      (scores : List (String × R.F)) (name : String) (thr : MetricThreshold R)
      → no_failures R (metric_failures R scores name thr) ≡ meets scores (name, thr)
  unfolding metric_failures meets no_failures with_floor reaches_floor
  metric_failures-meets scores name thr = split thr.report_only thr.floor
    where
      split :
          (b : Bool) (o : Option R.F)
          → no_failures R (if b then [] else with_floor R scores name thr o)
            ≡ (b || reaches_floor scores name thr o)
      split true o = refl
      split false none = refl
      split false (some floor) = against_floor-reaches name thr floor (score_of R name scores)

  all_failures-meets :
      (scores : List (String × R.F)) (ms : List (String × MetricThreshold R))
      → no_failures R (all_failures R scores ms) ≡ all (meets scores) ms
  unfolding all_failures no_failures
  all_failures-meets scores [] = refl
  all_failures-meets scores ((name, thr) ∷ ms) =
      no_failures-append (metric_failures R scores name thr) (all_failures R scores ms)
      ∙ rw (metric_failures-meets scores name thr, all_failures-meets scores ms)

  -- The gate passes exactly where every gated metric has a score at its floor or above and inside
  -- its regression band, and the adversarial pass rate reaches the required one.
  pub evaluate_gate-passed :
      (scores : List (String × R.F)) (rate : R.F) (baseline : Baseline R)
      → (evaluate_gate R scores rate baseline).passed ≡ (
          all (meets scores) baseline.metrics
          && not (R.ltb rate baseline.adversarial_must_pass_rate))
  unfolding evaluate_gate gate_failures no_failures
  evaluate_gate-passed scores rate baseline =
      no_failures-append (all_failures R scores baseline.metrics) _
      ∙ ground (arith, all_failures-meets scores baseline.metrics)

  -- With a required rate of 1.0, a gate that passes has seen no failing case, among fewer than
  -- 2^53 cases.
  pub evaluate_gate-all :
      (laws : IsUnitRatio R) (scores : List (String × R.F)) (rs : List CaseResult)
      (baseline : Baseline R)
      → length rs < 2 ^ 53
      → baseline.adversarial_must_pass_rate ≡ R.ratio 1 1
      → (evaluate_gate R scores (pass_rate R rs) baseline).passed ≡ true
      → all passed rs ≡ true
  unfolding pass_rate
  evaluate_gate-all laws scores [] baseline few required ok = refl
  evaluate_gate-all laws scores (r ∷ rs) baseline few required ok =
      elim (count_if-lt passed (r ∷ rs)) [
        | inl e ↦ e
        | inr fewer ↦ ground (
          arith,
          ok,
          evaluate_gate-passed scores (R.ratio (count_if passed (r ∷ rs)) (length (r ∷ rs)))
              baseline,
          ap (λ m. R.ltb (R.ratio (count_if passed (r ∷ rs)) (length (r ∷ rs))) m) required,
          laws.ratio_lt (count_if passed (r ∷ rs)) (length (r ∷ rs)) fewer few,
        )
      ]
