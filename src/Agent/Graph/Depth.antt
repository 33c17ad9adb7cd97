-- ===== src/Agent/Graph/Depth.antt =====
-- How far a run of the graph goes.
use atlas_compliance_copilot.Prelude.{ℕ, zero, suc, ◌≤◌, ◌<◌, ◌≢◌, Option, none, some, arith}
use atlas_compliance_copilot.Agent.State.{Decision, AgentState, Services}
use atlas_compliance_copilot.Agent.Graph.{
  Node, successor, NodeRun, done, interrupted, raised, breach_branch, clarify_branch,
  approval_branch,
}
use atlas_compliance_copilot.Agent.Graph.Drive.{Run, recursion_limit, drive, proceed}

-- The nodes left on the longest path to END.
abbrev pub rank : Option Node → ℕ
rank none = 0
rank (some Node.planner) = 6
rank (some Node.retrieve) = 5
rank (some Node.assess) = 4
rank (some Node.clarify) = 3
rank (some Node.approve) = 2
rank (some Node.act_sar) = 1
rank (some Node.rejected) = 1
rank (some Node.finalize) = 1

pub rank-successor :
    {F : Type 0} (n : Node) (s : AgentState F) → rank (successor n s) < rank (some n)
unfolding successor breach_branch clarify_branch approval_branch
rank-successor Node.planner s = omega arith
rank-successor Node.retrieve s = omega arith
rank-successor Node.assess s = ground arith
rank-successor Node.clarify s = ground arith
rank-successor Node.approve s = ground arith
rank-successor Node.act_sar s = omega arith
rank-successor Node.rejected s = omega arith
rank-successor Node.finalize s = omega arith

module _ (E : Services) where
  open E use {float.{F}}

  proceed_stops :
      (onward : E.World → Option Node → AgentState F → Run E) (fuel : ℕ)
      → ((w : E.World) (next : Option Node) (s : AgentState F)
          → rank next ≤ fuel
          → (onward w next s).stop ≢ recursion_limit)
      → (n : Node) (s : AgentState F) (r : NodeRun F × E.World) → rank (some n) ≤ suc fuel
      → (proceed E onward n s r).stop ≢ recursion_limit
  unfolding proceed
  proceed_stops onward fuel ends n s (done s', w) h =
      ends w (successor n s') s' (omega (arith, rank-successor n s'))
  proceed_stops onward fuel ends n s (interrupted, w) h = λ e. cc
  proceed_stops onward fuel ends n s (raised m, w) h = λ e. cc

  -- A run with as many steps as the rank of its node never meets the recursion limit.
  pub drive-ne-recursion_limit :
      (fuel : ℕ) (d : Option Decision) (w : E.World) (next : Option Node) (s : AgentState F)
      → rank next ≤ fuel
      → (drive E fuel d w next s).stop ≢ recursion_limit
  unfolding drive
  drive-ne-recursion_limit zero d w none s h = λ e. cc
  drive-ne-recursion_limit zero d w (some Node.planner) s h = absurd (omega arith)
  drive-ne-recursion_limit zero d w (some Node.retrieve) s h = absurd (omega arith)
  drive-ne-recursion_limit zero d w (some Node.assess) s h = absurd (omega arith)
  drive-ne-recursion_limit zero d w (some Node.clarify) s h = absurd (omega arith)
  drive-ne-recursion_limit zero d w (some Node.approve) s h = absurd (omega arith)
  drive-ne-recursion_limit zero d w (some Node.act_sar) s h = absurd (omega arith)
  drive-ne-recursion_limit zero d w (some Node.rejected) s h = absurd (omega arith)
  drive-ne-recursion_limit zero d w (some Node.finalize) s h = absurd (omega arith)
  drive-ne-recursion_limit (suc fuel) d w none s h = λ e. cc
  drive-ne-recursion_limit (suc fuel) d w (some n) s h =
      proceed_stops (drive E fuel none) fuel (drive-ne-recursion_limit fuel none) n s _ h
