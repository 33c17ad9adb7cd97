-- ===== src/Agent/State.antt =====
-- state.py and the data that the nodes exchange: the state of a run, the Gateway's answers, the
-- governed tool's requests and replies, and the services that the graph is built with.
use atlas_compliance_copilot.Prelude.{ℕ, String, Bool, Option, List}
use atlas_compliance_copilot.Float.{Float}
use atlas_compliance_copilot.Agent.Amounts.{Text, Chars}

-- A call of another service: a reply, an httpx.ConnectError (the connection was never
-- established), or any other exception with its message.
pub data Call {ℓ} (A : Type ℓ) : Type ℓ where
  ok : A → Call A
  connect_error : String → Call A
  failure : String → Call A

-- A cited context of the Gateway's answer; each key may be absent.
pub record Context : Type 0 where
  pub n : Option ℕ
  pub document_id : Option String
  pub clearance : Option String
  pub snippet : Option Text

pub record GatewayAnswer : Type 0 where
  pub answer : Option Text
  pub citations : Option (List Context)

pub record SarArgs : Type 0 where
  pub account : String
  pub period : String
  pub rationale : String
  pub citations : List ℕ

pub record ProposedAction : Type 0 where
  pub tool : String
  pub args : SarArgs

pub record SarRequest : Type 0 where
  pub bearer : String
  pub run_id : String
  pub args : SarArgs

pub record SarReply : Type 0 where
  pub draft_ref : Option String
  pub status : Option String
  pub audit_ref : Option String

-- The payload of a resume: the human decision.
pub record Decision : Type 0 where
  pub approved : Option Bool
  pub note : Option String
  pub breach : Option Bool

pub record Action : Type 0 where
  pub tool : String
  pub draft_ref : Option String
  pub status : String
  pub audit_ref : Option String

-- The `result` of a run: {"action": …}, {"error": …} or {"note": …}.
pub data Result : Type 0 where
  action : Action → Result
  error : String → Result
  note : String → Result

pub data Status : Type 0 where
  awaiting_approval awaiting_clarification running completed rejected failed : Status

pub data Trace : Type 0 where
  planner : List String → Trace
  retrieve : ℕ → Trace
  assess : Bool → Bool → Trace
  approve : Bool → Trace
  clarify : Bool → Trace
  act_sar : Trace
  act_sar_error : String → Trace
  rejected : Trace
  finalize : Trace

-- A key that no node has written yet reads as its default: none, [] or false.
pub record AgentState (F : Type 0) : Type 0 where
  pub query : String
  pub account : String
  pub period : String
  pub bearer : Text
  pub run_id : String
  pub caller : String
  pub created_at : F
  pub plan : List String
  pub answer : Option Text
  pub contexts : List Context
  pub amounts : List F
  pub breach : Bool
  pub breach_amount : Option F
  pub breach_detail : Option String
  pub ambiguous : Bool
  pub proposed_action : Option ProposedAction
  pub approval : Option Decision
  pub status : Option Status
  pub result : Option Result
  pub trace : List Trace
  pub step_count : ℕ

-- What the graph is built with, and the world that its calls read and change. `breach_text` is
-- the formatted breach detail over the amount and the threshold.
pub record Services : Type 1 where
  pub float : Float
  pub chars : Chars
  pub World : Type 0
  pub query : World → String → ℕ → Text → Call GatewayAnswer × World
  pub token_provider : World → String → Call String × World
  pub open_draft_sar : World → SarRequest → Call SarReply × World
  pub breach_text : float.F → float.F → String
  pub threshold : float.F
  pub top_k : ℕ
  pub tool_retries : ℕ
