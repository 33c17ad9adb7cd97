-- ===== src/Agent/Graph.antt =====
-- graph.py: the topology that build_graph fixes, and the run of a node at a checkpoint.
pub mod Drive
pub mod Depth
pub mod Progress
pub mod Proposed
use atlas_compliance_copilot.Prelude.{
  ℕ, zero, suc, String, Bool, true, false, Option, none, some, if◌then◌else◌, or_default, is_some,
}
use atlas_compliance_copilot.Agent.State.{
  Call, ok, connect_error, failure, Decision, AgentState, Services,
}
use atlas_compliance_copilot.Agent.Nodes.{
  planner_node, retrieve_node, assess_node, approve_node, clarify_node, act_sar_node, rejected_node,
  finalize_node,
}

pub data Node : Type 0 where
  planner retrieve assess approve clarify act_sar rejected finalize : Node

abbrev pub approved_by : Option Decision → Bool
approved_by none = false
approved_by (some d) = or_default false d.approved

module _ {F : Type 0} where
  unfoldable pub breach_branch : AgentState F → Node
  breach_branch s =
      if s.breach then Node.approve else if s.ambiguous then Node.clarify else Node.finalize

  unfoldable pub clarify_branch : AgentState F → Node
  clarify_branch s = if is_some s.proposed_action then Node.approve else Node.finalize

  unfoldable pub approval_branch : AgentState F → Node
  approval_branch s = if approved_by s.approval then Node.act_sar else Node.rejected

  -- The edges: the node that follows, or none at END.
  unfoldable pub successor : Node → AgentState F → Option Node
  successor Node.planner s = some Node.retrieve
  successor Node.retrieve s = some Node.assess
  successor Node.assess s = some (breach_branch s)
  successor Node.clarify s = some (clarify_branch s)
  successor Node.approve s = some (approval_branch s)
  successor Node.act_sar s = none
  successor Node.rejected s = none
  successor Node.finalize s = none

-- A node's run: its new state, a pause at an `interrupt()`, or an exception.
pub data NodeRun (F : Type 0) : Type 0 where
  done : AgentState F → NodeRun F
  interrupted : NodeRun F
  raised : String → NodeRun F

module _ {F : Type 0} where
  abbrev pub run_of_call : Call (AgentState F) → NodeRun F
  run_of_call (ok s) = done s
  run_of_call (connect_error m) = raised m
  run_of_call (failure m) = raised m

  -- At an interrupt a node waits for the decision that the resume brings.
  abbrev pub gate :
      (Decision → AgentState F → AgentState F) → Option Decision → AgentState F → NodeRun F
  gate node none s = interrupted
  gate node (some d) s = done (node d s)

module _ (E : Services) where
  open E use {float.{F}}

  unfoldable pub run_node : Node → Option Decision → E.World → AgentState F → NodeRun F × E.World
  run_node Node.planner d w s = (done (planner_node s), w)
  run_node Node.retrieve d w s = let (r, w') = retrieve_node E w s in (run_of_call r, w')
  run_node Node.assess d w s = (done (assess_node E s), w)
  run_node Node.approve d w s = (gate approve_node d s, w)
  run_node Node.clarify d w s = (gate clarify_node d s, w)
  run_node Node.act_sar d w s = let (r, w') = act_sar_node E w s in (run_of_call r, w')
  run_node Node.rejected d w s = (done (rejected_node s), w)
  run_node Node.finalize d w s = (done (finalize_node s), w)
