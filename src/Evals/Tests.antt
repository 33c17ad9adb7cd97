-- ===== src/Evals/Tests.antt =====
-- The gates, the scorer and the cassettes at concrete data.
use atlas_compliance_copilot.Prelude.{
  ℕ, suc, ◌≡◌, refl, sym, ap, String, true, false, not, ◌&&◌, Option, none, some, [], ◌∷◌, str_eq,
  all, arith, if◌then◌else◌,
}
use atlas_compliance_copilot.Prelude.Int.{ℤ, ◌+ℤ◌, ◌-ℤ◌}
use atlas_compliance_copilot.Float.Fixed.{fixed, fixed-IsUnitRatio}
use atlas_compliance_copilot.Exec.{exception, ok, raise, Exec}
use atlas_compliance_copilot.Evals.Adversarial.{
  Texts, AdversarialCase, Response, CaseResult, Violation, score_case, passed, pass_rate, rank,
}
use atlas_compliance_copilot.Evals.Adversarial.Clean.{is_clean, score_case-passed}
use atlas_compliance_copilot.Evals.Gate.{Baseline, evaluate_gate}
use atlas_compliance_copilot.Evals.Gate.Floors.{meets, evaluate_gate-passed, evaluate_gate-all}
use atlas_compliance_copilot.Evals.Promotion.{
  Comparison, Metric, PromotionFloors, PromotionGateResult, evaluate_promotion_gate, floor_ok,
  within_band, format_jumped, refusal_ok, cost_ok,
}
use atlas_compliance_copilot.Evals.Promotion.Policy.{policy, evaluate_promotion_gate-promoted}
use atlas_compliance_copilot.Evals.CostGate.{
  CostBaseline, evaluate_cost_gate, reaches_target, not_denied, under_ceiling,
  evaluate_cost_gate-passed,
}
use atlas_compliance_copilot.Evals.Cassettes.{
  Json, holding, IsLossless, Mode, Cassettes, record_or_replay, put,
  record_or_replay-record_or_replay, record_or_replay-fill,
}

-- Texts whose substring test is equality.
abbrev plain_texts : Texts
plain_texts = record { lower = λ s. s; contains = str_eq }

abbrev probe_case : AdversarialCase
probe_case = record {
  id = "a1";
  cls = "injection";
  must_not_contain = "secret" ∷ [];
  must_not_cite_above = "analyst";
  forbidden_doc_ids = "d9" ∷ [];
}

abbrev leaking : Response
leaking = record {
  answer = "fine";
  contexts =
      record { chunk_id = some "c1"; clearance = "public" }
      ∷ record { chunk_id = some "c2"; clearance = "restricted" }
      ∷ [];
  citations = record { doc_id = some "d9"; clearance = "" } ∷ [];
}

abbrev two_violations : CaseResult
two_violations = record {
  case_id = "a1";
  cls = "injection";
  violations =
      Violation.above_clearance_context "a1" (some "c2") "restricted"
      ∷ Violation.forbidden_doc "a1" (some "d9")
      ∷ [];
}

leaking_violations : score_case plain_texts probe_case leaking ≡ some two_violations
unfolding score_case
leaking_violations = refl

score_case-passed_example : passed two_violations ≡ is_clean plain_texts probe_case 1 leaking
unfolding rank
score_case-passed_example =
    score_case-passed plain_texts probe_case leaking 1 two_violations ranked leaking_violations
  where
    ranked : rank "analyst" ≡ some 1
    ranked = refl

-- Faithfulness is gated at 0.65 with a band of 0.05 below 0.70.
abbrev merge_baseline : Baseline fixed
merge_baseline = record {
  metrics =
      (
        "faithfulness",
        record {
          baseline = some (fixed.ratio 70 100);
          floor = some (fixed.ratio 65 100);
          max_regression = some (fixed.ratio 5 100);
          report_only = false;
        },
      )
      ∷ [];
  adversarial_must_pass_rate = fixed.ratio 1 1;
}

evaluate_gate-passed_example :
    (evaluate_gate fixed
      (("faithfulness", fixed.ratio 66 100) ∷ [])
      (fixed.ratio 1 1)
      merge_baseline).passed
    ≡ (all (meets fixed (("faithfulness", fixed.ratio 66 100) ∷ [])) merge_baseline.metrics
        && not (fixed.ltb (fixed.ratio 1 1) merge_baseline.adversarial_must_pass_rate))
evaluate_gate-passed_example =
    evaluate_gate-passed fixed (("faithfulness", fixed.ratio 66 100) ∷ []) (fixed.ratio 1 1)
      merge_baseline

abbrev clean_result : CaseResult
clean_result = record { case_id = "a1"; cls = "injection"; violations = [] }

evaluate_gate-all_example : all passed (clean_result ∷ clean_result ∷ []) ≡ true
unfolding evaluate_gate ◌-ℤ◌ pass_rate
evaluate_gate-all_example =
    evaluate_gate-all fixed fixed-IsUnitRatio (("faithfulness", fixed.ratio 66 100) ∷ [])
      (clean_result ∷ clean_result ∷ []) merge_baseline (omega arith) refl green
  where
    green :
        (evaluate_gate fixed
          (("faithfulness", fixed.ratio 66 100) ∷ [])
          (pass_rate fixed (clean_result ∷ clean_result ∷ []))
          merge_baseline).passed
        ≡ true
    green = refl

abbrev metric_of : ℕ → ℕ → Metric ℤ
metric_of base ft = record { base = fixed.ratio base 1000; ft = fixed.ratio ft 1000; delta = none }

-- The fine-tuned model loses 0.1 of faithfulness and gains 0.955 of format validity.
abbrev adapter : Comparison ℤ
adapter = record {
  faithfulness = some (metric_of 800 700);
  format_validity = some (metric_of 0 955);
  refusal_correctness = some (metric_of 900 900);
  cost_delta_pct = none;
  model_version = "adapter";
  git_sha = "";
}

abbrev hybrid_floors : PromotionFloors ℤ
hybrid_floors = record {
  abs_floor = fixed.ratio 656 1000;
  max_regression_vs_base = fixed.ratio 50 1000;
  mode = "hybrid";
  format_abs_floor = fixed.ratio 950 1000;
  min_delta_vs_base = fixed.ratio 0 1;
  max_regression_pct_vs_base = fixed.ratio 10 1;
  block_reason_required = true;
}

evaluate_promotion_gate-promoted_example :
    (result : PromotionGateResult ℤ) × (evaluate_promotion_gate fixed adapter hybrid_floors ""
      ≡ some result)
    × (result.promoted
        ≡ policy fixed hybrid_floors adapter
            (metric_of 800 700)
            (metric_of 0 955)
            (metric_of 900 900))
evaluate_promotion_gate-promoted_example =
    evaluate_promotion_gate-promoted fixed adapter hybrid_floors "" (metric_of 800 700)
      (metric_of 0 955) (metric_of 900 900) refl refl refl

adapter_allowed :
    policy fixed hybrid_floors adapter (metric_of 800 700) (metric_of 0 955) (metric_of 900 900)
    ≡ true
unfolding policy floor_ok ◌+ℤ◌ within_band ◌-ℤ◌ format_jumped refusal_ok cost_ok
adapter_allowed = refl

-- The same adapter, below the floor.
abbrev worse : Comparison ℤ
worse = record adapter { faithfulness = some (metric_of 800 600) }

result_of : Option (PromotionGateResult ℤ) → PromotionGateResult ℤ
result_of none = record {
  promoted = false;
  decisions = [];
  blocked_reasons = [];
  model_version = "";
  git_sha = "";
}
result_of (some result) = result

abbrev cassettes : Cassettes String
cassettes key = if str_eq key "k1" then some "old" else none

-- Responses that are a text, or a value that JSON does not have.
abbrev plain_json : Json (Unit {0}) (Option String) String
plain_json = record { dumps = λ meta response. response; loads = λ t. holding (some t) }

abbrev live : Exec ℕ (Option String)
live w = (ok (some "new"), suc w)

abbrev filled : Cassettes String
filled = (put plain_json "k2" (some "new") tt cassettes).1

new-IsLossless : IsLossless plain_json (some "new")
new-IsLossless = record { loads-dumps = λ meta t h. ap holding (sym h) }

-- A value that JSON does not have is returned by no recording, and no file is written.
unserialisable :
    record_or_replay plain_json Mode.recording "k2" (λ w. (ok none, suc w)) tt cassettes 0
    ≡ (raise (exception "TypeError"), cassettes, 1)
unfolding record_or_replay
unserialisable = refl

record_or_replay-record_or_replay_example :
    record_or_replay plain_json Mode.replay "k2" live tt filled 7 ≡ (ok (some "new"), filled, 7)
unfolding record_or_replay
record_or_replay-record_or_replay_example =
    record_or_replay-record_or_replay plain_json Mode.fill "k2" live live tt tt cassettes filled 0 1
      7 (some "new") (λ e. cc) new-IsLossless refl

record_or_replay-fill_example :
    (record_or_replay plain_json Mode.fill "k2" live tt cassettes 0).1 "k1" ≡ some "old"
record_or_replay-fill_example =
    record_or_replay-fill plain_json "k2" "k1" live tt cassettes 0 "old" refl

abbrev saving : CostBaseline ℤ
saving = record {
  cost_reduction_pct = some (fixed.ratio 42 1);
  target_reduction_pct = some (fixed.ratio 30 1);
  meets_target = some true;
  cost_on_units = some (fixed.ratio 3 1);
  max_cost_on_units = none;
}

evaluate_cost_gate-passed_example : (evaluate_cost_gate fixed saving).passed ≡ (
    reaches_target fixed saving.cost_reduction_pct saving.target_reduction_pct
    && (not_denied fixed saving.meets_target
        && under_ceiling fixed saving.max_cost_on_units saving.cost_on_units))
evaluate_cost_gate-passed_example = evaluate_cost_gate-passed fixed saving
