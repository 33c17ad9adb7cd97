-- ===== src/Evals/Promotion/Policy.antt =====
-- The promotion policy in each mode, and the reasons of a block.
use mathlib.Core.Path.{subst}
use mathlib.Core.Option.{some-injective}
use atlas_compliance_copilot.Prelude.{
  ◌≡◌, refl, ap, ◌∙◌, or_default, String, Bool, true, false, not, ◌&&◌, ◌||◌, Option, none, some,
  List, [], ◌∷◌, str_eq, if◌then◌else◌, arith,
}
use atlas_compliance_copilot.Float.{Float}
use atlas_compliance_copilot.Evals.Promotion.{
  Metric, Comparison, PromotionFloors, Reason, PromotionGateResult, floor_ok, within_band,
  format_ok, format_jumped, regression_ok, at_least, eps, jump_min_delta, refusal_delta, refusal_ok,
  cost_ok, decisions_of, unless, reasons_of, with_reason, decide, with_metrics,
  evaluate_promotion_gate,
}

module _ (R : Float) where
  -- a reaches b, but for a rounding of 1e-9.
  abbrev pub reaches : R.F → R.F → Bool
  reaches a b = R.leb b (R.add a (R.ratio 1 1_000_000_000))

  abbrev pub cost_within : R.F → Option R.F → Bool
  cost_within band none = true
  cost_within band (some delta) = R.leb delta (R.add band (R.ratio 1 1_000_000_000))

  -- The policy on the scores: the fine-tuned faithfulness reaches its floor; it stays within the band
  -- below the base or, but for the mode no_regression, the format reaches its own floor and gains 0.25
  -- on the base, or the mode is absolute; the format reaches its floor; the refusals' delta, recorded or
  -- else computed, reaches its minimum; and the cost's delta, if there is one, stays within its band.
  unfoldable pub policy :
      PromotionFloors R.F → Comparison R.F → Metric R.F → Metric R.F → Metric R.F → Bool
  policy floors comparison faith fmt refusal =
      reaches faith.ft floors.abs_floor
      && ((str_eq floors.mode "absolute"
            || (reaches faith.ft (R.sub faith.base floors.max_regression_vs_base)
                || (not (str_eq floors.mode "no_regression")
                    && (reaches fmt.ft floors.format_abs_floor
                        && reaches (R.sub fmt.ft fmt.base) (R.ratio 25 100)))))
          && (reaches fmt.ft floors.format_abs_floor
              && (reaches (or_default (R.sub refusal.ft refusal.base) refusal.delta)
                    floors.min_delta_vs_base
                  && cost_within floors.max_regression_pct_vs_base comparison.cost_delta_pct)))

  cost_ok-within :
      (floors : PromotionFloors R.F) (delta : Option R.F)
      → cost_ok R floors delta ≡ cost_within floors.max_regression_pct_vs_base delta
  unfolding cost_ok eps
  cost_ok-within floors none = refl
  cost_ok-within floors (some delta) = refl

  tidy :
      (a m n w j f r c : Bool)
      → (a && ((if m then true else if n then w else w || j) && (f && (r && (c && true)))))
        ≡ (a && ((m || (w || (not n && j))) && (f && (r && c))))
  tidy a m n w j f r c = ground arith

  decide-promoted :
      (comparison : Comparison R.F) (floors : PromotionFloors R.F) (git_sha : String)
      (faith fmt refusal : Metric R.F)
      → (decide R floors comparison git_sha faith fmt refusal).promoted
        ≡ policy floors comparison faith fmt refusal
  unfolding decide decisions_of policy regression_ok floor_ok within_band format_ok format_jumped
      refusal_ok refusal_delta at_least eps jump_min_delta
  decide-promoted comparison floors git_sha faith fmt refusal =
      tidy (floor_ok R floors faith) (str_eq floors.mode "absolute")
        (str_eq floors.mode "no_regression") (within_band R floors faith)
        (format_jumped R floors fmt) (format_ok R floors fmt) (refusal_ok R floors refusal)
        (cost_ok R floors comparison.cost_delta_pct)
      ∙ ap
          (λ c.
            floor_ok R floors faith
            && ((str_eq floors.mode "absolute"
                  || (within_band R floors faith
                      || (not (str_eq floors.mode "no_regression") && format_jumped R floors fmt)))
                && (format_ok R floors fmt && (refusal_ok R floors refusal && c))))
          (cost_ok-within floors comparison.cost_delta_pct)

  -- A comparison that has the three metrics.
  evaluated :
      (comparison : Comparison R.F) (floors : PromotionFloors R.F) (git_sha : String)
      (faith fmt refusal : Metric R.F)
      → comparison.faithfulness ≡ some faith
      → comparison.format_validity ≡ some fmt
      → comparison.refusal_correctness ≡ some refusal
      → evaluate_promotion_gate R comparison floors git_sha
        ≡ some (decide R floors comparison git_sha faith fmt refusal)
  unfolding evaluate_promotion_gate with_metrics
  evaluated comparison floors git_sha faith fmt refusal h k l = rw (h, k, l)

  -- Over a comparison with the three metrics the gate returns a result, and it promotes exactly where,
  -- but for a rounding of 1e-9: the fine-tuned faithfulness reaches its floor; the mode is absolute, or
  -- it reaches the band below the base, or, outside no_regression, the format reaches its floor with a
  -- gain of 0.25; the format reaches its floor; the refusals' delta, recorded or else computed, reaches
  -- its minimum; and the cost's delta, if there is one, is in its band.
  pub evaluate_promotion_gate-promoted :
      (comparison : Comparison R.F) (floors : PromotionFloors R.F) (git_sha : String)
      (faith fmt refusal : Metric R.F)
      → comparison.faithfulness ≡ some faith
      → comparison.format_validity ≡ some fmt
      → comparison.refusal_correctness ≡ some refusal
      → (result : PromotionGateResult R.F) × (evaluate_promotion_gate R comparison floors git_sha
          ≡ some result)
        × (result.promoted ≡ policy floors comparison faith fmt refusal)
  evaluate_promotion_gate-promoted comparison floors git_sha faith fmt refusal h k l = (
    decide R floors comparison git_sha faith fmt refusal,
    evaluated comparison floors git_sha faith fmt refusal h k l,
    decide-promoted comparison floors git_sha faith fmt refusal,
  )

  unfoldable pub has_reason : List (Reason R.F) → Bool
  has_reason [] = false
  has_reason (r ∷ rs) = true

  -- The reasons stand for the decisions that failed.
  decide-reasons :
      (comparison : Comparison R.F) (floors : PromotionFloors R.F) (git_sha : String)
      (faith fmt refusal : Metric R.F)
      → has_reason (decide R floors comparison git_sha faith fmt refusal).blocked_reasons
        ≡ not (decide R floors comparison git_sha faith fmt refusal).promoted
  unfolding decide decisions_of reasons_of unless with_reason has_reason
  decide-reasons comparison floors git_sha faith fmt refusal = ground arith

  -- A result that promotes has no reason for a block, and one that blocks has at least one, be it
  -- required or not.
  pub evaluate_promotion_gate-has_reason :
      (comparison : Comparison R.F) (floors : PromotionFloors R.F) (git_sha : String)
      (result : PromotionGateResult R.F)
      → evaluate_promotion_gate R comparison floors git_sha ≡ some result
      → has_reason result.blocked_reasons ≡ not result.promoted
  unfolding evaluate_promotion_gate with_metrics
  evaluate_promotion_gate-has_reason comparison floors git_sha result h =
      split comparison.faithfulness comparison.format_validity comparison.refusal_correctness h
    where
      split :
          (a b c : Option (Metric R.F))
          → with_metrics R floors comparison git_sha a b c ≡ some result
          → has_reason result.blocked_reasons ≡ not result.promoted
      split none b c k = cc
      split (some faith) none c k = cc
      split (some faith) (some fmt) none k = cc
      split (some faith) (some fmt) (some refusal) k =
          subst (λ x. has_reason x.blocked_reasons ≡ not x.promoted) (some-injective _ _ k)
            (decide-reasons comparison floors git_sha faith fmt refusal)
