-- ===== src/Agent/Writes/Gate.antt =====
-- What the graph can write, node by node and over a run.
use atlas_compliance_copilot.Prelude.{ℕ, ◌+◌, ◌≤◌, ◌≡◌, refl, ◌≢◌, false, Option, none, some, arith}
use atlas_compliance_copilot.Agent.State.{
  Call, ok, connect_error, failure, ProposedAction, Decision, AgentState, Services,
}
use atlas_compliance_copilot.Agent.Nodes.{
  planner_node, retrieve_node, assess_node, approve_node, clarify_node, act_on, act_sar_node,
  rejected_node, finalize_node,
}
use atlas_compliance_copilot.Agent.Graph.{
  Node, successor, breach_branch, clarify_branch, approval_branch, run_node, approved_by,
  run_of_call,
}
use atlas_compliance_copilot.Agent.Graph.Drive.{After, At, drive, drive_keeps, drive_keeps_resumed}
use atlas_compliance_copilot.Agent.Writes.{Drafts, act_on-drafts}

-- The drafts that a pending node may still add itself.
abbrev pub pending : Option Node → ℕ
pending none = 0
pending (some Node.act_sar) = 1
pending (some Node.planner) = 0
pending (some Node.retrieve) = 0
pending (some Node.assess) = 0
pending (some Node.clarify) = 0
pending (some Node.approve) = 0
pending (some Node.rejected) = 0
pending (some Node.finalize) = 0

-- The drafts that a run may still add from here on.
abbrev pub reserve : Option Node → ℕ
reserve none = 0
reserve (some Node.act_sar) = 1
reserve (some Node.planner) = 1
reserve (some Node.retrieve) = 1
reserve (some Node.assess) = 1
reserve (some Node.clarify) = 1
reserve (some Node.approve) = 1
reserve (some Node.rejected) = 0
reserve (some Node.finalize) = 0

module _ {F : Type 0} where
  -- Only the approval gate leads to the governed write.
  pub pending-successor :
      (n : Node) (s : AgentState F) → n ≢ Node.approve → pending (successor n s) ≡ 0
  unfolding successor breach_branch clarify_branch
  pending-successor Node.planner s h = refl
  pending-successor Node.retrieve s h = refl
  pending-successor Node.assess s h = ground arith
  pending-successor Node.clarify s h = ground arith
  pending-successor Node.approve s h = absurd (h refl)
  pending-successor Node.act_sar s h = refl
  pending-successor Node.rejected s h = refl
  pending-successor Node.finalize s h = refl

  reserve-successor : (n : Node) (s : AgentState F) → reserve (successor n s) ≤ reserve (some n)
  unfolding successor breach_branch clarify_branch approval_branch
  reserve-successor Node.planner s = omega arith
  reserve-successor Node.retrieve s = omega arith
  reserve-successor Node.assess s = ground arith
  reserve-successor Node.clarify s = ground arith
  reserve-successor Node.approve s = ground arith
  reserve-successor Node.act_sar s = omega arith
  reserve-successor Node.rejected s = omega arith
  reserve-successor Node.finalize s = omega arith

module _ (E : Services) (D : Drafts E) (c : ℕ) where
  open E use {float.{F}}

  -- No draft yet, and no write pending.
  abbrev Untouched : E.World → Option Node → AgentState F → Type 0
  Untouched w next s = (D.count w ≡ c) × (pending next ≡ 0)

  -- At most one draft, the one that may still come included.
  abbrev Once : E.World → Option Node → AgentState F → Type 0
  Once w next s = D.count w + reserve next ≤ c + 1

  After-retrieve :
      (P : E.World → Option Node → AgentState F → Type 0) (s : AgentState F)
      (r : Call (AgentState F) × E.World)
      → ((s' : AgentState F) → P r.1 (some Node.assess) s')
      → P r.1 (some Node.retrieve) s
      → After E P Node.retrieve s (let (a, w') = r in (run_of_call a, w'))
  unfolding successor
  After-retrieve P s (ok s', w) h k = h s'
  After-retrieve P s (connect_error m, w) h k = k
  After-retrieve P s (failure m, w) h k = k

  retrieve_keeps : (w : E.World) (s : AgentState F) → D.count (retrieve_node E w s).1 ≡ D.count w
  unfolding retrieve_node
  retrieve_keeps w s = D.query_keeps w s.query E.top_k s.bearer

  step-Untouched :
      (n : Node) (w : E.World) (s : AgentState F)
      → Untouched w (some n) s
      → After E Untouched n s (run_node E n none w s)
  unfolding run_node
  step-Untouched Node.planner w s h = (h.0, pending-successor Node.planner _ (λ e. cc))
  step-Untouched Node.retrieve w s h =
      let count : D.count (retrieve_node E w s).1 ≡ c = omega (arith, retrieve_keeps w s) in
      After-retrieve Untouched s (retrieve_node E w s) (λ s'. (count, refl)) (count, refl)
  step-Untouched Node.assess w s h = (h.0, pending-successor Node.assess _ (λ e. cc))
  step-Untouched Node.approve w s h = h
  step-Untouched Node.clarify w s h = h
  step-Untouched Node.act_sar w s h = absurd (omega arith)
  step-Untouched Node.rejected w s h = (h.0, pending-successor Node.rejected _ (λ e. cc))
  step-Untouched Node.finalize w s h = (h.0, pending-successor Node.finalize _ (λ e. cc))

  -- A run that no decision resumes adds no draft.
  pub drive-Untouched :
      (fuel : ℕ) (w : E.World) (next : Option Node) (s : AgentState F)
      → Untouched w next s
      → At E Untouched (drive E fuel none w next s)
  drive-Untouched = drive_keeps E Untouched step-Untouched

  -- Nor does a resume at the clarification gate, whatever the decision.
  pub drive-clarify :
      (fuel : ℕ) (d : Decision) (w : E.World) (s : AgentState F)
      → D.count w ≡ c
      → At E Untouched (drive E fuel (some d) w (some Node.clarify) s)
  unfolding run_node
  drive-clarify fuel d w s h =
      drive_keeps_resumed E Untouched step-Untouched fuel (some d) w Node.clarify s (h, refl)
        (h, pending-successor Node.clarify _ (λ e. cc))

  -- Nor a resume at the approval gate by a decision that does not approve.
  pub drive-unapproved :
      (fuel : ℕ) (d : Decision) (w : E.World) (s : AgentState F)
      → D.count w ≡ c
      → approved_by (some d) ≡ false
      → At E Untouched (drive E fuel (some d) w (some Node.approve) s)
  unfolding run_node successor approval_branch approve_node
  drive-unapproved fuel d w s h k =
      drive_keeps_resumed E Untouched step-Untouched fuel (some d) w Node.approve s (h, refl)
        (h, rw k)

  After-act :
      (p : Option ProposedAction) (w : E.World) (s : AgentState F)
      → D.count w ≤ c
      → After E Once Node.act_sar s (let (r, w') = act_on E p w s in (run_of_call r, w'))
  unfolding successor
  After-act none w s h = unfold act_on in omega arith
  After-act (some p) w s h = unfold act_on in omega (arith, act_on-drafts E D (some p) w s)

  step-Once :
      (n : Node) (w : E.World) (s : AgentState F) (d : Option Decision)
      → Once w (some n) s
      → After E Once n s (run_node E n d w s)
  unfolding run_node act_sar_node
  step-Once Node.planner w s d h = omega (arith, reserve-successor Node.planner (planner_node s))
  step-Once Node.retrieve w s d h =
      let count : D.count (retrieve_node E w s).1 ≡ D.count w = retrieve_keeps w s in
      After-retrieve Once s (retrieve_node E w s) (λ s'. omega arith) (omega arith)
  step-Once Node.assess w s d h = omega (arith, reserve-successor Node.assess (assess_node E s))
  step-Once Node.approve w s none h = h
  step-Once Node.approve w s (some d) h =
      omega (arith, reserve-successor Node.approve (approve_node d s))
  step-Once Node.clarify w s none h = h
  step-Once Node.clarify w s (some d) h =
      omega (arith, reserve-successor Node.clarify (clarify_node d s))
  step-Once Node.act_sar w s d h = After-act s.proposed_action w s (omega arith)
  step-Once Node.rejected w s d h = omega (arith, reserve-successor Node.rejected (rejected_node s))
  step-Once Node.finalize w s d h = omega (arith, reserve-successor Node.finalize (finalize_node s))

  -- However a run is resumed, it adds at most one draft until it stops again.
  pub drive-Once :
      (fuel : ℕ) (d : Option Decision) (w : E.World) (n : Node) (s : AgentState F)
      → Once w (some n) s
      → At E Once (drive E fuel d w (some n) s)
  drive-Once fuel d w n s h =
      drive_keeps_resumed E Once (λ n' w' s' h'. step-Once n' w' s' none h') fuel d w n s h
        (step-Once n w s d h)
