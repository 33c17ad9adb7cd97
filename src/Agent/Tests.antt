-- ===== src/Agent/Tests.antt =====
-- The agent over a Gateway with one cited amount and an MCP server that counts its drafts, and the
-- theorems at concrete runs.
use atlas_compliance_copilot.Prelude.{
  ℕ, suc, ◌≤◌, ◌%◌, ◌≡◌, ◌≢◌, refl, ap, true, false, String, Option, none, some, [], ◌∷◌, arith,
  leb, ◌==◌, ◌&&◌, ◌||◌, str_eq, if◌then◌else◌, length, is_some, sorted_set,
}
use atlas_compliance_copilot.Prelude.Int.{pos}
use atlas_compliance_copilot.Float.Fixed.{fixed, fixed-IsOrdered}
use atlas_compliance_copilot.Agent.Amounts.{
  Text, Chars, extract_amounts, amounts_in, find_all, currency_at, after_dollar, amount_at, plain,
  grouped_at, exactly, groups, digits, fraction, without_commas,
}
use atlas_compliance_copilot.Agent.Amounts.RoundTrip.{
  Ends, extract_amounts-plain, extract_amounts-nil,
}
use atlas_compliance_copilot.Agent.State.{
  ok, Context, Decision, AgentState, Services, ProposedAction,
}
use atlas_compliance_copilot.Agent.Nodes.{
  assess_node, retrieve_node, amounts_of, maximum, breaching_numbers, planner_node, attempts,
  attempt, call_tool, approve_node, act_sar_node, is_empty,
}
use atlas_compliance_copilot.Agent.Nodes.Assess.{
  has_dollar, reaches, IsGrounded, assess_node-breach, assess_node-IsGrounded,
}
use atlas_compliance_copilot.Agent.Graph.{Node, successor, breach_branch, approval_branch, run_node}
use atlas_compliance_copilot.Agent.Graph.Drive.{Checkpoint, Stop, Run, recursion_limit, drive}
use atlas_compliance_copilot.Agent.Graph.Depth.{drive-ne-recursion_limit}
use atlas_compliance_copilot.Agent.Graph.Proposed.{needs_proposal, drive-needs_proposal}
use atlas_compliance_copilot.Agent.Writes.{Drafts}
use atlas_compliance_copilot.Agent.Engine.{Engine, IsLawful, Invoked}
use atlas_compliance_copilot.Agent.Jwt.{jwt_sub, padded, length-padded}
use atlas_compliance_copilot.Agent.Runner.{
  Service, Metrics, response, render, record_start, record_terminal, start, resume, initial_state,
}
use atlas_compliance_copilot.Agent.Runner.Safety.{start-drafts, resume-unauthorized}
use atlas_compliance_copilot.Agent.Runner.Approval.{resume-resume, resumes, resumes-drafts}

abbrev ascii : Chars
ascii = record { is_digit = λ c. leb b'0' c && leb c b'9'; is_space = λ c. c == b' ' || c == 10 }

-- "pay $900 now"
abbrev note_text : Text
note_text = b'p' ∷ b'a' ∷ b'y' ∷ b' ' ∷ b'$' ∷ b'9' ∷ b'0' ∷ b'0' ∷ b' ' ∷ b'n' ∷ b'o' ∷ b'w' ∷ []

-- "$12,500.50 $3"
abbrev grouped_text : Text
grouped_text =
    b'$' ∷ b'1' ∷ b'2' ∷ b',' ∷ b'5' ∷ b'0' ∷ b'0' ∷ b'.' ∷ b'5' ∷ b'0' ∷ b' ' ∷ b'$' ∷ b'3' ∷ []

grouped_amounts :
    extract_amounts ascii fixed (some grouped_text)
    ≡ pos 12_500_500_000_000 ∷ pos 3_000_000_000 ∷ []
unfolding extract_amounts amounts_in find_all currency_at after_dollar amount_at plain grouped_at
    exactly groups digits fraction without_commas
grouped_amounts = refl

space_Ends : Ends ascii (b' ' ∷ b'n' ∷ b'o' ∷ b'w' ∷ [])
space_Ends = record {
  not_digit = λ c r e. ground arith;
  not_point = λ c r e. ground arith;
  not_comma = λ c r e. ground arith;
}

extract_amounts-plain_example :
    extract_amounts ascii fixed (some note_text)
    ≡ pos 900_000_000_000 ∷ extract_amounts ascii fixed (some (b' ' ∷ b'n' ∷ b'o' ∷ b'w' ∷ []))
extract_amounts-plain_example =
    extract_amounts-plain ascii refl fixed (b'p' ∷ b'a' ∷ b'y' ∷ b' ' ∷ []) b'9' (b'0' ∷ b'0' ∷ [])
      (b' ' ∷ b'n' ∷ b'o' ∷ b'w' ∷ []) refl refl refl space_Ends

extract_amounts-nil_example : extract_amounts ascii fixed (some (b'9' ∷ b'0' ∷ [])) ≡ []
extract_amounts-nil_example = extract_amounts-nil ascii fixed (b'9' ∷ b'0' ∷ []) refl

abbrev cited : Context
cited = record {
  n = some 1;
  document_id = some "l2-doc-1";
  clearance = some "compliance";
  snippet = some grouped_text;
}

-- The world is the number of drafts.
abbrev demo : Services
demo = record {
  float = fixed;
  chars = ascii;
  World = ℕ;
  query = λ w q k b. (ok (record { answer = some note_text; citations = some (cited ∷ []) }), w);
  token_provider = λ w user. (ok "aud-token", w);
  open_draft_sar = λ w r.
      (ok (record { draft_ref = some "SAR-1"; status = none; audit_ref = some "audit-1" }), suc w);
  breach_text = λ a t. "exceeds the reporting threshold";
  threshold = pos 10_000_000_000_000;
  top_k = 6;
  tool_retries = 2;
}

demo_drafts : Drafts demo
demo_drafts = record {
  count = λ w. w;
  query_keeps = λ w q k b. refl;
  token_keeps = λ w user. refl;
  connect_keeps = λ w r m e. cc;
  sar_once = λ w r. omega arith;
}

abbrev Threads : Type 0
Threads = String → Option (Checkpoint fixed.F)

abbrev leave : Threads → String → Run demo → Invoked demo Threads
leave st id r = record {
  stop = r.stop;
  store = λ j. if str_eq j id then some r.checkpoint else st j;
  world = r.world;
}

abbrev resume_from :
    Threads → ℕ → String → ℕ → Decision → Option (Checkpoint fixed.F) → Invoked demo Threads
resume_from st w id limit d none = record { stop = Stop.finished; store = st; world = w }
resume_from st w id limit d (some c) = leave st id (drive demo limit (some d) w c.next c.values)

abbrev memory : Engine demo
memory = record {
  Store = Threads;
  get_state = λ st j. st j;
  invoke = λ st w id limit s. leave st id (drive demo limit none w (some Node.planner) s);
  resume = λ st w id limit d. resume_from st w id limit d (st id);
}

memory-IsLawful : IsLawful demo memory
memory-IsLawful = record {
  invoke_lem = λ st w id limit s fresh. record { stop = refl; world = refl; snapshot = λ j. refl };
  resume_lem = λ st w id limit d c found.
      rw found (record { stop = refl; world = refl; snapshot = λ j. refl });
}

abbrev no_metrics : Metrics fixed.F
no_metrics = record {
  runs_started = 0;
  awaiting_approval = 0;
  runs_completed = 0;
  runs_rejected = 0;
  runs_failed = 0;
  tool_ok = 0;
  tool_error = 0;
  failures = 0;
  latencies = [];
}

abbrev idle : Service demo memory 12
idle = record { store = λ j. none; world = 0; metrics = no_metrics }

abbrev claims : Text → Option (Option String)
claims payload = some (some "priya")

abbrev token : Text
token = b'h' ∷ b'.' ∷ b'p' ∷ b'.' ∷ b's' ∷ []

abbrev at_start : AgentState fixed.F
at_start = record {
  query = "summarize AML exceptions";
  account = "Northwind";
  period = "2026-Q2";
  bearer = token;
  run_id = "run_1";
  caller = "priya";
  created_at = pos 0;
  plan = [];
  answer = some note_text;
  contexts = cited ∷ [];
  amounts = pos 900_000_000_000 ∷ pos 12_500_500_000_000 ∷ pos 3_000_000_000 ∷ [];
  breach = false;
  breach_amount = none;
  breach_detail = none;
  ambiguous = false;
  proposed_action = none;
  approval = none;
  status = none;
  result = none;
  trace = [];
  step_count = 0;
}

abbrev sar : ProposedAction
sar = record {
  tool = "open_draft_sar";
  args = record {
    account = "Northwind";
    period = "2026-Q2";
    rationale = "exceeds the reporting threshold";
    citations = 1 ∷ [];
  };
}

abbrev waiting : Checkpoint fixed.F
waiting = record {
  next = some Node.approve;
  values = record at_start { breach = true; proposed_action = some sar };
}

abbrev paused_service : Service demo memory 12
paused_service = record {
  store = λ j. if str_eq j "run_1" then some waiting else none;
  world = 0;
  metrics = no_metrics;
}

abbrev yes_decision : Decision
yes_decision = record { approved = some true; note = none; breach = none }

abbrev no_decision : Decision
no_decision = record { approved = some false; note = some "not now"; breach = none }

start-drafts_example :
    (start demo memory 12 claims idle "run_1" (pos 0) "q" "Northwind" "2026-Q2" token).1.world ≡ 0
unfolding demo_drafts
start-drafts_example =
    start-drafts demo memory memory-IsLawful demo_drafts 12 claims idle "run_1" (pos 0) "q"
      "Northwind" "2026-Q2" token refl

resume-unauthorized_example :
    (resume demo memory 12 paused_service "run_1" (pos 1) no_decision).1.world ≡ 0
unfolding demo_drafts
resume-unauthorized_example =
    resume-unauthorized demo memory memory-IsLawful demo_drafts 12 paused_service "run_1" (pos 1)
      no_decision waiting refl refl

resume-resume_example :
    let sv' = (resume demo memory 12 paused_service "run_1" (pos 1) yes_decision).1 in
    resume demo memory 12 sv' "run_1" (pos 2) yes_decision
    ≡ (response (render "run_1" (memory.get_state sv'.store "run_1")), sv')
resume-resume_example =
    resume-resume demo memory memory-IsLawful 12 paused_service "run_1" (pos 1) (pos 2) yes_decision
      yes_decision waiting refl refl

resumes-drafts_example :
    (resumes demo memory 12 paused_service "run_1"
      ((pos 1, yes_decision) ∷ (pos 2, yes_decision) ∷ [])).world
    ≤ 1
unfolding demo_drafts
resumes-drafts_example =
    resumes-drafts demo memory memory-IsLawful 12 demo_drafts paused_service "run_1"
      ((pos 1, yes_decision) ∷ (pos 2, yes_decision) ∷ []) waiting refl

drive-ne-recursion_limit_example :
    (drive demo 8 none 0 (some Node.planner) at_start).stop ≢ recursion_limit
drive-ne-recursion_limit_example =
    drive-ne-recursion_limit demo 8 none 0 (some Node.planner) at_start (omega arith)

drives_to_gate :
    (drive demo 8 none 0 (some Node.planner) at_start).checkpoint.next ≡ some Node.approve
unfolding drive planner_node retrieve_node run_node successor breach_branch assess_node maximum
    breaching_numbers extract_amounts amounts_in find_all currency_at after_dollar amount_at plain
    grouped_at exactly groups digits fraction without_commas sorted_set amounts_of
drives_to_gate = refl

drive-needs_proposal_example :
    is_some (drive demo 8 none 0 (some Node.planner) at_start).checkpoint.values.proposed_action
    ≡ true
drive-needs_proposal_example =
    drive-needs_proposal demo 8 none 0 (some Node.planner) at_start (λ e. cc)
      (ap needs_proposal drives_to_gate)

assess_node-breach_example :
    ((assess_node demo at_start).breach ≡ reaches demo at_start.amounts)
    × ((assess_node demo at_start).ambiguous
        ≡ (is_empty at_start.amounts && has_dollar demo at_start))
assess_node-breach_example = assess_node-breach demo fixed-IsOrdered at_start

length-padded_example : length (padded (b'p' ∷ [])) % 4 ≡ 0
length-padded_example = length-padded (b'p' ∷ [])

assess_proposes : (assess_node demo at_start).proposed_action ≡ some sar
unfolding assess_node maximum breaching_numbers extract_amounts amounts_in find_all currency_at
    after_dollar amount_at plain grouped_at exactly groups digits fraction without_commas sorted_set
assess_proposes = refl

assess_node-IsGrounded_example :
    IsGrounded demo at_start.contexts sar.args.citations
    × (sar.args.account ≡ at_start.account)
    × (sar.args.period ≡ at_start.period)
assess_node-IsGrounded_example = assess_node-IsGrounded demo at_start sar assess_proposes

-- A run that starts with a breach waits for approval; approved, it completes with one draft.
started_service : Service demo memory 12
unfolding start initial_state drive planner_node retrieve_node run_node successor breach_branch
    assess_node maximum breaching_numbers extract_amounts amounts_in find_all currency_at
    after_dollar amount_at plain grouped_at exactly groups digits fraction without_commas sorted_set
    jwt_sub padded render amounts_of
started_service =
    (start demo memory 12 claims idle "run_1" (pos 0) "q" "Northwind" "2026-Q2" token).1

waits_for_approval : (started_service.world ≡ 0) × (started_service.metrics.awaiting_approval ≡ 1)
unfolding started_service record_start
waits_for_approval = (refl, refl)

completes_with_a_draft :
    let sv = (resume demo memory 12 started_service "run_1" (pos 5) yes_decision).1 in
    (sv.world ≡ 1) × (sv.metrics.runs_completed ≡ 1) × (sv.metrics.tool_ok ≡ 1)
unfolding started_service resume drive run_node approve_node successor approval_branch act_sar_node
    attempts attempt call_tool render record_terminal
completes_with_a_draft = (refl, refl, refl)
