-- ===== src/Agent/Graph/Drive.antt =====
-- How LangGraph is documented to run a compiled graph from a checkpoint: it runs the pending node,
-- merges the update, follows the edge, and stops at END, at an interrupt, at an exception, or at
-- the recursion limit. A decision is used up by the first node that asks for it.
use atlas_compliance_copilot.Prelude.{ℕ, zero, suc, String, Option, none, some}
use atlas_compliance_copilot.Agent.State.{Decision, AgentState, Services}
use atlas_compliance_copilot.Agent.Graph.{
  Node, successor, NodeRun, done, interrupted, raised, run_node,
}

pub record Checkpoint (F : Type 0) : Type 0 where
  pub next : Option Node
  pub values : AgentState F

-- How the run ended.
pub data Stop : Type 0 where
  finished paused recursion_limit : Stop
  exception : String → Stop

module _ (E : Services) where
  open E use {float.{F}}

  pub record Run : Type 0 where
    pub stop : Stop
    pub checkpoint : Checkpoint F
    pub world : E.World

  unfoldable pub drive_to : Stop → E.World → Option Node → AgentState F → Run
  drive_to stop w next s = record {
    stop = stop;
    checkpoint = record { next = next; values = s };
    world = w;
  }

  unfoldable pub proceed :
      (E.World → Option Node → AgentState F → Run) → Node → AgentState F → NodeRun F × E.World → Run
  unfolding drive_to
  proceed onward n s (done s', w) = onward w (successor n s') s'
  proceed onward n s (interrupted, w) = drive_to paused w (some n) s
  proceed onward n s (raised m, w) = drive_to (exception m) w (some n) s

  unfoldable pub drive : ℕ → Option Decision → E.World → Option Node → AgentState F → Run
  unfolding drive_to proceed
  drive zero d w none s = drive_to finished w none s
  drive zero d w (some n) s = drive_to recursion_limit w (some n) s
  drive (suc fuel) d w none s = drive_to finished w none s
  drive (suc fuel) d w (some n) s = proceed (drive fuel none) n s (run_node E n d w s)

  -- What holds of a checkpoint after the run of one node, however that ended.
  abbrev pub After :
      (E.World → Option Node → AgentState F → Type 0)
      → Node
      → AgentState F
      → NodeRun F × E.World
      → Type 0
  After P n s (done s', w) = P w (successor n s') s'
  After P n s (interrupted, w) = P w (some n) s
  After P n s (raised m, w) = P w (some n) s

  abbrev pub At : (E.World → Option Node → AgentState F → Type 0) → Run → Type 0
  At P r = P r.world r.checkpoint.next r.checkpoint.values

  module _ (P : E.World → Option Node → AgentState F → Type 0) where
    proceed_keeps :
        (onward : E.World → Option Node → AgentState F → Run)
        → ((w : E.World) (next : Option Node) (s : AgentState F)
            → P w next s
            → At P (onward w next s))
        → (n : Node) (s : AgentState F) (r : NodeRun F × E.World) → After P n s r
        → At P (proceed onward n s r)
    unfolding proceed
    proceed_keeps onward keeps n s (done s', w) h = keeps w (successor n s') s' h
    proceed_keeps onward keeps n s (interrupted, w) h = h
    proceed_keeps onward keeps n s (raised m, w) h = h

    -- What each node keeps holds where the run stops. The first node alone sees the decision.
    module _
        (step : (n : Node) (w : E.World) (s : AgentState F)
          → P w (some n) s
          → After P n s (run_node E n none w s)) where
      pub drive_keeps :
          (fuel : ℕ) (w : E.World) (next : Option Node) (s : AgentState F)
          → P w next s
          → At P (drive fuel none w next s)
      unfolding drive
      drive_keeps zero w none s h = h
      drive_keeps zero w (some n) s h = h
      drive_keeps (suc fuel) w none s h = h
      drive_keeps (suc fuel) w (some n) s h =
          proceed_keeps (drive fuel none) (drive_keeps fuel) n s _ (step n w s h)

      pub drive_keeps_resumed :
          (fuel : ℕ) (d : Option Decision) (w : E.World) (n : Node) (s : AgentState F)
          → P w (some n) s
          → After P n s (run_node E n d w s)
          → At P (drive fuel d w (some n) s)
      unfolding drive
      drive_keeps_resumed zero d w n s h k = h
      drive_keeps_resumed (suc fuel) d w n s h k =
          proceed_keeps (drive fuel none) (drive_keeps fuel) n s _ k
