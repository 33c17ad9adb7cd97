-- ===== src/Agent/Runner.antt =====
-- runner.py: starting, resuming and reading runs, with the metrics that the runner records.
pub mod Safety
pub mod Approval
use atlas_compliance_copilot.Prelude.{
  ℕ, suc, ◌+◌, max, String, Bool, true, false, Option, none, some, List, [], ◌∷◌, ◌++◌,
  if◌then◌else◌, or_default, is_some,
}
use atlas_compliance_copilot.Float.{Float}
use atlas_compliance_copilot.Agent.Amounts.{Text}
use atlas_compliance_copilot.Agent.State.{
  Context, ProposedAction, Decision, Action, Result, action, error, note, Status, Trace, AgentState,
  Services,
}
use atlas_compliance_copilot.Agent.Graph.{Node}
use atlas_compliance_copilot.Agent.Graph.Drive.{
  Checkpoint, Stop, finished, paused, recursion_limit, exception,
}
use atlas_compliance_copilot.Agent.Engine.{Engine, Invoked}
use atlas_compliance_copilot.Agent.Jwt.{jwt_sub}

pub record Response : Type 0 where
  pub run_id : String
  pub status : Status
  pub answer : Option Text
  pub citations : List Context
  pub proposed_action : Option ProposedAction
  pub action : Option Action
  pub audit_ref : Option String
  pub trace : List Trace

-- A response, the None of an unknown run, or an exception.
pub data Reply : Type 0 where
  response : Response → Reply
  unknown_run : Reply
  raised : String → Reply

-- [Citation(**c) for c in contexts if c.get("n") is not None]
numbered : List Context → List Context
numbered [] = []
numbered (c ∷ cs) = let rest = numbered cs in if is_some c.n then c ∷ rest else rest

action_of : Option Result → Option Action
action_of (some (action a)) = some a
action_of (some (error m)) = none
action_of (some (note m)) = none
action_of none = none

audit_of : Option Action → Option String
audit_of none = none
audit_of (some a) = a.audit_ref

unfoldable pub is_terminal : Status → Bool
is_terminal Status.completed = true
is_terminal Status.rejected = true
is_terminal Status.failed = true
is_terminal Status.running = false
is_terminal Status.awaiting_approval = false
is_terminal Status.awaiting_clarification = false

-- A thread paused at a gate.
unfoldable pub is_resumable : Option Node → Bool
is_resumable (some Node.approve) = true
is_resumable (some Node.clarify) = true
is_resumable (some Node.planner) = false
is_resumable (some Node.retrieve) = false
is_resumable (some Node.assess) = false
is_resumable (some Node.act_sar) = false
is_resumable (some Node.rejected) = false
is_resumable (some Node.finalize) = false
is_resumable none = false

unfoldable pub status_of : Option Node → Option Status → Status
status_of (some Node.clarify) s = Status.awaiting_clarification
status_of (some Node.approve) s = Status.awaiting_approval
status_of (some Node.planner) s = Status.running
status_of (some Node.retrieve) s = Status.running
status_of (some Node.assess) s = Status.running
status_of (some Node.act_sar) s = Status.running
status_of (some Node.rejected) s = Status.running
status_of (some Node.finalize) s = Status.running
status_of none s = or_default Status.completed s

-- Prometheus counters and the observed approval latencies.
pub record Metrics (F : Type 0) : Type 0 where
  pub runs_started : ℕ
  pub awaiting_approval : ℕ
  pub runs_completed : ℕ
  pub runs_rejected : ℕ
  pub runs_failed : ℕ
  pub tool_ok : ℕ
  pub tool_error : ℕ
  pub failures : ℕ
  pub latencies : List F

module _ {F : Type 0} where
  unfoldable pub to_response : String → AgentState F → Status → Response
  unfolding numbered action_of audit_of
  to_response run_id s status =
      let act = action_of s.result in
      record {
        run_id = run_id;
        status = status;
        answer = s.answer;
        citations = numbered s.contexts;
        proposed_action = s.proposed_action;
        action = act;
        audit_ref = audit_of act;
        trace = s.trace;
      }

  -- The response to a thread without values is that of an empty state.
  unfoldable pub render : String → Option (Checkpoint F) → Response
  unfolding status_of to_response
  render run_id none = record {
    run_id = run_id;
    status = Status.completed;
    answer = none;
    citations = [];
    proposed_action = none;
    action = none;
    audit_ref = none;
    trace = [];
  }
  render run_id (some c) = to_response run_id c.values (status_of c.next c.values.status)

  count_status : Status → Metrics F → Metrics F
  count_status Status.completed m = record m { runs_completed = m.runs_completed + 1 }
  count_status Status.rejected m = record m { runs_rejected = m.runs_rejected + 1 }
  count_status Status.failed m = record m { runs_failed = m.runs_failed + 1 }
  count_status Status.running m = m
  count_status Status.awaiting_approval m = m
  count_status Status.awaiting_clarification m = m

  count_tool : Status → Option Action → Metrics F → Metrics F
  count_tool Status.completed (some a) m = record m { tool_ok = m.tool_ok + 1 }
  count_tool Status.completed none m = m
  count_tool Status.failed a m = record m {
    tool_error = m.tool_error + 1;
    failures = m.failures + 1;
  }
  count_tool Status.rejected a m = m
  count_tool Status.running a m = m
  count_tool Status.awaiting_approval a m = m
  count_tool Status.awaiting_clarification a m = m

  -- Only a terminal response is counted.
  unfoldable pub record_terminal : Response → Metrics F → Metrics F
  unfolding count_status count_tool is_terminal
  record_terminal r m =
      if is_terminal r.status then count_tool r.status r.action (count_status r.status m) else m

  -- The start of a run awaiting approval is counted, as a terminal one is.
  unfoldable pub record_start : Response → Metrics F → Metrics F
  unfolding record_terminal is_terminal
  record_start r m = elim r.status [
    | Status.awaiting_approval ↦ record m { awaiting_approval = m.awaiting_approval + 1 }
    | _ ↦ record_terminal r m
  ]

unfoldable pub stop_error : Stop → Option String
stop_error finished = none
stop_error paused = none
stop_error recursion_limit = some "GraphRecursionError"
stop_error (exception m) = some m

module _ (E : Services) (G : Engine E) (max_steps : ℕ) where
  open E use {float.{F, ltb, sub, ratio}}

  pub record Service : Type 0 where
    pub store : G.Store
    pub world : E.World
    pub metrics : Metrics F

  abbrev pub limit : ℕ
  limit = max max_steps 8

  -- max(0.0, now - created_at)
  latency : F → F → F
  latency now created_at = let d = sub now created_at in if ltb (ratio 0 1) d then d else ratio 0 1

  -- What `start` hands to the graph.
  unfoldable pub initial_state :
      String → String → F → String → String → String → Text → AgentState F
  initial_state run_id caller now query account period bearer = record {
    query = query;
    account = account;
    period = period;
    bearer = bearer;
    run_id = run_id;
    caller = caller;
    created_at = now;
    plan = [];
    answer = none;
    contexts = [];
    amounts = [];
    breach = false;
    breach_amount = none;
    breach_detail = none;
    ambiguous = false;
    proposed_action = none;
    approval = none;
    status = none;
    result = none;
    trace = [];
    step_count = 0;
  }

  answered : Option String → Response → Reply
  answered none r = response r
  answered (some m) r = raised m

  metrics_if_answered : Option String → (Metrics F → Metrics F) → Metrics F → Metrics F
  metrics_if_answered none f m = f m
  metrics_if_answered (some _) f m = m

  begun : Service → String → Invoked E G.Store → Reply × Service
  unfolding render record_start answered metrics_if_answered stop_error
  begun sv run_id i =
      let r = render run_id (G.get_state i.store run_id) in
      let m = sv.metrics in
      let error = stop_error i.stop in
      (
        answered error r,
        record {
          store = i.store;
          world = i.world;
          metrics =
              metrics_if_answered error (record_start r)
                (record m { runs_started = m.runs_started + 1 });
        },
      )

  -- A bearer token without a subject raises before anything is counted or run.
  started : Service → String → (String → AgentState F) → Option String → Reply × Service
  unfolding begun
  started sv run_id state_in none = (raised "could not read subject from bearer token", sv)
  started sv run_id state_in (some caller) =
      begun sv run_id (G.invoke sv.store sv.world run_id limit (state_in caller))

  -- `run_id` is the fresh identifier and `now` the clock; `claims` decodes a token's payload.
  unfoldable pub start :
      (Text → Option (Option String))
      → Service
      → String
      → F
      → String
      → String
      → String
      → Text
      → Reply × Service
  unfolding started initial_state
  start claims sv run_id now query account period bearer =
      started sv run_id (λ caller. initial_state run_id caller now query account period bearer)
        (jwt_sub claims bearer)

  observe : F → F → Response → Metrics F → Metrics F
  unfolding latency is_terminal
  observe now created_at r m =
      if is_terminal r.status
      then record m { latencies = m.latencies ++ (latency now created_at ∷ []) }
      else m

  continued : Service → String → F → AgentState F → Invoked E G.Store → Reply × Service
  unfolding render record_terminal observe answered metrics_if_answered stop_error
  continued sv run_id now s i =
      let r = render run_id (G.get_state i.store run_id) in
      let error = stop_error i.stop in
      (
        answered error r,
        record {
          store = i.store;
          world = i.world;
          metrics =
              metrics_if_answered error (λ m. record_terminal r (observe now s.created_at r m))
                sv.metrics;
        },
      )

  resumed : Service → String → F → Decision → Option (Checkpoint F) → Reply × Service
  unfolding continued render is_resumable
  resumed sv run_id now d none = (unknown_run, sv)
  resumed sv run_id now d (some c) =
      if is_resumable c.next
      then continued sv run_id now c.values (G.resume sv.store sv.world run_id limit d)
      else (response (render run_id (some c)), sv)

  unfoldable pub resume : Service → String → F → Decision → Reply × Service
  unfolding resumed
  resume sv run_id now d = resumed sv run_id now d (G.get_state sv.store run_id)

  read : String → Option (Checkpoint F) → Reply
  read run_id none = unknown_run
  read run_id (some c) = response (render run_id (some c))

  unfoldable pub get : Service → String → Reply
  unfolding read render
  get sv run_id = read run_id (G.get_state sv.store run_id)
