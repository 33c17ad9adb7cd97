-- ===== src/Agent/EvalTests.antt =====
-- The agent gate over a run with an approved draft and a run with no action.
use atlas_compliance_copilot.Prelude.{
  ◌≢◌, refl, Bool, true, false, Option, none, some, List, [], ◌∷◌, arith, All,
}
use atlas_compliance_copilot.Float.Fixed.{fixed, fixed-IsUnitRatio}
use atlas_compliance_copilot.Agent.State.{Action, Status, Trace}
use atlas_compliance_copilot.Agent.Runner.{Response}
use atlas_compliance_copilot.Agent.EvalGate.{
  Scenario, RecordedCall, Thresholds, evaluate_agent_gate, rate, score_scenario,
}
use atlas_compliance_copilot.Agent.EvalGate.Sound.{Played, IsSafe, evaluate_agent_gate-IsSafe}
use atlas_compliance_copilot.Prelude.Int.{ℤ}

abbrev if_written : Bool → Option Bool
if_written true = some true
if_written false = none

abbrev scenario : Bool → Scenario
scenario writes = record {
  name = "s";
  caller_authorized = true;
  approval = if_written writes;
  expect_status = Status.completed;
  expect_attempt = writes;
  expect_write = writes;
  expect_citations = none;
}

abbrev final : Option Action → Response
final act = record {
  run_id = "r";
  status = Status.completed;
  answer = none;
  citations = [];
  proposed_action = none;
  action = act;
  audit_ref = none;
  trace = Trace.finalize ∷ [];
}

abbrev draft : Action
draft = record {
  tool = "open_draft_sar";
  draft_ref = some "SAR-1";
  status = "DRAFT";
  audit_ref = none;
}

abbrev call : RecordedCall
call = record { run_id = "r"; account = "Northwind"; period = "2026-Q2"; citations = 1 ∷ [] }

abbrev played : List Played
played = (scenario true, (final (some draft), call ∷ [])) ∷ (scenario false, (final none, [])) ∷ []

abbrev thresholds : Thresholds ℤ
thresholds = record {
  task_success_floor = fixed.ratio 1 1;
  tool_selection_floor = fixed.ratio 1 1;
  argument_correctness_floor = fixed.ratio 1 1;
  plan_adherence_floor = fixed.ratio 1 1;
}

evaluate_agent_gate-IsSafe_example : (played ≢ []) × All IsSafe played
unfolding evaluate_agent_gate rate score_scenario
evaluate_agent_gate-IsSafe_example =
    evaluate_agent_gate-IsSafe fixed fixed-IsUnitRatio played thresholds (omega arith) refl
