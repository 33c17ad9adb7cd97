-- ===== src/Agent/Graph/Progress.antt =====
-- How a run moves along the graph, before a decision and behind it.
use atlas_compliance_copilot.Prelude.{ℕ, zero, suc, ◌≤◌, ◌<◌, Option, none, some, arith}
use atlas_compliance_copilot.Agent.State.{
  Call, ok, connect_error, failure, Decision, AgentState, Services,
}
use atlas_compliance_copilot.Agent.Nodes.{
  retrieve_node, assess_node, act_sar_node, approve_node, clarify_node, planner_node, rejected_node,
  finalize_node,
}
use atlas_compliance_copilot.Agent.Graph.{Node, successor, run_node, run_of_call}
use atlas_compliance_copilot.Agent.Graph.Drive.{After, drive, drive_keeps_resumed}
use atlas_compliance_copilot.Agent.Graph.Depth.{rank, rank-successor}

module _ (E : Services) (k : ℕ) where
  open E use {float.{F}}

  abbrev Within : E.World → Option Node → AgentState F → Type 0
  Within w next s = rank next ≤ k

  After-call :
      (n : Node) (s : AgentState F) (r : Call (AgentState F) × E.World)
      → rank (some n) ≤ k
      → After E Within n s (let (a, w') = r in (run_of_call a, w'))
  After-call n s (ok s', w) h = omega (arith, rank-successor n s')
  After-call n s (connect_error m, w) h = h
  After-call n s (failure m, w) h = h

  step-Within :
      (n : Node) (w : E.World) (s : AgentState F) (d : Option Decision)
      → rank (some n) ≤ k
      → After E Within n s (run_node E n d w s)
  unfolding run_node
  step-Within Node.planner w s d h = omega (arith, rank-successor Node.planner (planner_node s))
  step-Within Node.retrieve w s d h = After-call Node.retrieve s (retrieve_node E w s) h
  step-Within Node.assess w s d h = omega (arith, rank-successor Node.assess (assess_node E s))
  step-Within Node.approve w s none h = h
  step-Within Node.approve w s (some d) h =
      omega (arith, rank-successor Node.approve (approve_node d s))
  step-Within Node.clarify w s none h = h
  step-Within Node.clarify w s (some d) h =
      omega (arith, rank-successor Node.clarify (clarify_node d s))
  step-Within Node.act_sar w s d h = After-call Node.act_sar s (act_sar_node E w s) h
  step-Within Node.rejected w s d h = omega (arith, rank-successor Node.rejected (rejected_node s))
  step-Within Node.finalize w s d h = omega (arith, rank-successor Node.finalize (finalize_node s))

  pub drive-within :
      (fuel : ℕ) (d : Option Decision) (w : E.World) (next : Option Node) (s : AgentState F)
      → rank next ≤ k
      → rank (drive E fuel d w next s).checkpoint.next ≤ k
  unfolding drive
  drive-within zero d w none s h = h
  drive-within (suc fuel) d w none s h = h
  drive-within fuel d w (some n) s h =
      drive_keeps_resumed E Within (λ n' w' s' h'. step-Within n' w' s' none h') fuel d w n s h
        (step-Within n w s d h)

-- A run that is resumed with a decision at the approval gate leaves the gate for good.
pub drive-approve-rank :
    (E : Services) (fuel : ℕ) (d : Decision) (w : E.World) (s : AgentState E.float.F)
    → 0 < fuel
    → rank (drive E fuel (some d) w (some Node.approve) s).checkpoint.next ≤ 1
unfolding drive run_node
drive-approve-rank E zero d w s h = absurd (omega arith)
drive-approve-rank E (suc fuel) d w s h =
    drive-within E 1 fuel none w (successor Node.approve (approve_node d s)) (approve_node d s)
      (omega (arith, rank-successor Node.approve (approve_node d s)))
