-- ===== src/Agent/Graph/Proposed.antt =====
-- Where a run of the graph carries a proposal.
use atlas_compliance_copilot.Prelude.{
  ℕ, zero, suc, ◌≡◌, refl, Bool, false, true, Option, none, some, arith, is_some,
}
use atlas_compliance_copilot.Agent.State.{
  Call, ok, connect_error, failure, Decision, AgentState, Services,
}
use atlas_compliance_copilot.Agent.Nodes.{retrieve_node, assess_node, act_sar_node, approve_node}
use atlas_compliance_copilot.Agent.Graph.{
  Node, successor, run_node, run_of_call, breach_branch, clarify_branch,
}
use atlas_compliance_copilot.Agent.Graph.Drive.{After, At, drive, drive_keeps_resumed}

-- The nodes that need a proposal.
abbrev pub needs_proposal : Option Node → Bool
needs_proposal (some Node.approve) = true
needs_proposal (some Node.act_sar) = true
needs_proposal (some Node.planner) = false
needs_proposal (some Node.retrieve) = false
needs_proposal (some Node.assess) = false
needs_proposal (some Node.clarify) = false
needs_proposal (some Node.rejected) = false
needs_proposal (some Node.finalize) = false
needs_proposal none = false

module _ (E : Services) where
  open E use {float.{F}}

  abbrev pub Proposed : E.World → Option Node → AgentState F → Type 0
  Proposed w next s = needs_proposal next ≡ true → is_some s.proposed_action ≡ true

  -- The breach decision and the proposal go together.
  pub assess_node-proposed :
      (s : AgentState F) → is_some (assess_node E s).proposed_action ≡ (assess_node E s).breach
  unfolding assess_node
  assess_node-proposed s = ground arith

  step-Proposed :
      (n : Node) (w : E.World) (s : AgentState F) (d : Option Decision)
      → Proposed w (some n) s
      → After E Proposed n s (run_node E n d w s)
  unfolding run_node successor
  step-Proposed Node.planner w s d h = λ e. cc
  step-Proposed Node.retrieve w s d h = After-retrieve (retrieve_node E w s)
    where
      After-retrieve :
          (r : Call (AgentState F) × E.World)
          → After E Proposed Node.retrieve s (let (a, w') = r in (run_of_call a, w'))
      After-retrieve (ok s', w) = λ e. cc
      After-retrieve (connect_error m, w) = λ e. cc
      After-retrieve (failure m, w) = λ e. cc
  step-Proposed Node.assess w s d h = unfold breach_branch in ground (arith, assess_node-proposed s)
  step-Proposed Node.approve w s none h = h
  step-Proposed Node.approve w s (some d) h = λ e. unfold approve_node in h refl
  step-Proposed Node.clarify w s none h = h
  step-Proposed Node.clarify w s (some d) h = unfold clarify_branch in ground arith
  step-Proposed Node.act_sar w s d h = After-act (act_sar_node E w s)
    where
      After-act :
          (r : Call (AgentState F) × E.World)
          → After E Proposed Node.act_sar s (let (a, w') = r in (run_of_call a, w'))
      After-act (ok s', w) = λ e. cc
      After-act (connect_error m, w) = h
      After-act (failure m, w) = h
  step-Proposed Node.rejected w s d h = λ e. cc
  step-Proposed Node.finalize w s d h = λ e. cc

  pub drive-Proposed :
      (fuel : ℕ) (d : Option Decision) (w : E.World) (next : Option Node) (s : AgentState F)
      → Proposed w next s
      → At E Proposed (drive E fuel d w next s)
  unfolding drive
  drive-Proposed zero d w none s h = h
  drive-Proposed (suc fuel) d w none s h = h
  drive-Proposed fuel d w (some n) s h =
      drive_keeps_resumed E Proposed (λ n' w' s' h'. step-Proposed n' w' s' none h') fuel d w n s h
        (step-Proposed n w s d h)

  -- A run from the entry point that stops with a proposal needed, at the approval gate or before
  -- the write, carries one. So does a run resumed where the same held.
  pub drive-needs_proposal :
      (fuel : ℕ) (d : Option Decision) (w : E.World) (next : Option Node) (s : AgentState F)
      → (needs_proposal next ≡ true → is_some s.proposed_action ≡ true)
      → needs_proposal (drive E fuel d w next s).checkpoint.next ≡ true
      → is_some (drive E fuel d w next s).checkpoint.values.proposed_action ≡ true
  drive-needs_proposal fuel d w next s h k = drive-Proposed fuel d w next s h k
