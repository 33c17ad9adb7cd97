-- ===== src/Agent/Runner/Approval.antt =====
-- Resumes of the run API one behind another: approvals and drafts.
use text.Mathlib.TextPositions.{eq_refl}
use atlas_compliance_copilot.Prelude.{
  ℕ, ◌+◌, ◌≤◌, ◌≡◌, ◌∙◌, refl, max, String, true, false, Option, none, some, List, [], ◌∷◌, arith,
  Bool-cases, inl, inr,
}
use atlas_compliance_copilot.Agent.State.{Decision, AgentState, Services}
use atlas_compliance_copilot.Agent.Graph.{Node}
use atlas_compliance_copilot.Agent.Graph.Drive.{Checkpoint, drive}
use atlas_compliance_copilot.Agent.Graph.Depth.{rank}
use atlas_compliance_copilot.Agent.Graph.Progress.{drive-approve-rank}
use atlas_compliance_copilot.Agent.Writes.{Drafts}
use atlas_compliance_copilot.Agent.Writes.Gate.{drive-Once, reserve}
use atlas_compliance_copilot.Agent.Engine.{Engine, IsLawful}
use atlas_compliance_copilot.Agent.Runner.{
  response, Service, resume, resumed, continued, is_resumable, render,
}

is_resumable-rank : (next : Option Node) → rank next ≤ 1 → is_resumable next ≡ false
unfolding is_resumable
is_resumable-rank (some Node.approve) h = absurd (omega arith)
is_resumable-rank (some Node.clarify) h = absurd (omega arith)
is_resumable-rank (some Node.planner) h = refl
is_resumable-rank (some Node.retrieve) h = refl
is_resumable-rank (some Node.assess) h = refl
is_resumable-rank (some Node.act_sar) h = refl
is_resumable-rank (some Node.rejected) h = refl
is_resumable-rank (some Node.finalize) h = refl
is_resumable-rank none h = refl

module _ (E : Services) (G : Engine E) (max_steps : ℕ) where
  open E use {float.{F}}

  -- A run resumed again and again, at the given times with the given decisions.
  unfoldable pub resumes :
      Service E G max_steps → String → List (F × Decision) → Service E G max_steps
  resumes sv run_id [] = sv
  resumes sv run_id ((now, d) ∷ more) = resumes (resume E G max_steps sv run_id now d).1 run_id more

module _ (E : Services) (G : Engine E) (L : IsLawful E G) (max_steps : ℕ) where
  open E use {float.{F}}

  -- The checkpoint that a resumption at a gate leaves.
  resume-snapshot :
      (sv : Service E G max_steps) (run_id : String) (now : F) (d : Decision) (c : Checkpoint F)
      → G.get_state sv.store run_id ≡ some c
      → is_resumable c.next ≡ true
      → G.get_state (resume E G max_steps sv run_id now d).1.store run_id
        ≡ some (drive E (max max_steps 8) (some d) sv.world c.next c.values).checkpoint
  unfolding resume resumed continued
  resume-snapshot sv run_id now d c found h =
      rw (found, resumed, h)
        ((L.resume_lem sv.store sv.world run_id (max max_steps 8) d c found).snapshot run_id
          ∙ rw eq_refl)

  resume-world :
      (sv : Service E G max_steps) (run_id : String) (now : F) (d : Decision) (c : Checkpoint F)
      → G.get_state sv.store run_id ≡ some c
      → is_resumable c.next ≡ true
      → (resume E G max_steps sv run_id now d).1.world
        ≡ (drive E (max max_steps 8) (some d) sv.world c.next c.values).world
  unfolding resume resumed continued
  resume-world sv run_id now d c found h =
      rw (found, resumed, h)
        (L.resume_lem sv.store sv.world run_id (max max_steps 8) d c found).world

  resumed_shut :
      (sv : Service E G max_steps) (run_id : String) (now : F) (d : Decision) (c : Checkpoint F)
      → G.get_state sv.store run_id ≡ some c
      → is_resumable c.next ≡ false
      → resume E G max_steps sv run_id now d ≡ (response (render run_id (some c)), sv)
  unfolding resume resumed
  resumed_shut sv run_id now d c found h = rw (found, resumed, h)

  -- Once a run that waits for approval has been resumed, a further resume with any decision
  -- changes nothing in the service: it returns the run's state.
  pub resume-resume :
      (sv : Service E G max_steps) (run_id : String) (now later : F) (d e : Decision)
      (c : Checkpoint F)
      → G.get_state sv.store run_id ≡ some c
      → c.next ≡ some Node.approve
      → let sv' = (resume E G max_steps sv run_id now d).1 in
        resume E G max_steps sv' run_id later e
        ≡ (response (render run_id (G.get_state sv'.store run_id)), sv')
  resume-resume sv run_id now later d e c found gate =
      let sv' = (resume E G max_steps sv run_id now d).1 in
      let kept = resume-snapshot sv run_id now d c found (rw gate (unfold is_resumable in refl)) in
      let decided : is_resumable
            (drive E (max max_steps 8) (some d) sv.world c.next c.values).checkpoint.next
          ≡ false =
        rw gate (
          is_resumable-rank _
            (drive-approve-rank E (max max_steps 8) d sv.world c.values (omega arith))) in
      resumed_shut sv' run_id later e _ kept decided ∙ rw kept

  module _ (D : Drafts E) where
    -- The drafts, and the one that the run may still write.
    abbrev Bounded : ℕ → Service E G max_steps → String → Type 0
    Bounded b sv run_id =
        (c : Checkpoint F) × (G.get_state sv.store run_id ≡ some c)
        × (D.count sv.world + reserve c.next ≤ b + 1)

    drive-Bounded :
        (b : ℕ) (w : E.World) (next : Option Node) (s : AgentState F) (d : Decision)
        → is_resumable next ≡ true
        → D.count w + reserve next ≤ b + 1
        → let r = drive E (max max_steps 8) (some d) w next s in
          D.count r.world + reserve r.checkpoint.next ≤ b + 1
    unfolding is_resumable
    drive-Bounded b w (some Node.approve) s d r h = drive-Once E D b _ (some d) w Node.approve s h
    drive-Bounded b w (some Node.clarify) s d r h = drive-Once E D b _ (some d) w Node.clarify s h
    drive-Bounded b w (some Node.planner) s d r h = cc
    drive-Bounded b w (some Node.retrieve) s d r h = cc
    drive-Bounded b w (some Node.assess) s d r h = cc
    drive-Bounded b w (some Node.act_sar) s d r h = cc
    drive-Bounded b w (some Node.rejected) s d r h = cc
    drive-Bounded b w (some Node.finalize) s d r h = cc
    drive-Bounded b w none s d r h = cc

    resume-Bounded :
        (b : ℕ) (sv : Service E G max_steps) (run_id : String) (now : F) (d : Decision)
        → Bounded b sv run_id
        → Bounded b (resume E G max_steps sv run_id now d).1 run_id
    resume-Bounded b sv run_id now d (c, found, h) = elim (Bool-cases (is_resumable c.next)) [
      | inl e ↦ (
        (drive E (max max_steps 8) (some d) sv.world c.next c.values).checkpoint,
        resume-snapshot sv run_id now d c found e,
        rw (resume-world sv run_id now d c found e)
            (drive-Bounded b sv.world c.next c.values d e h),
      )
      | inr e ↦ rw (resumed_shut sv run_id now d c found e) (c, found, h)
    ]

    resumes-Bounded :
        (b : ℕ) (sv : Service E G max_steps) (run_id : String) (calls : List (F × Decision))
        → Bounded b sv run_id
        → Bounded b (resumes E G max_steps sv run_id calls) run_id
    unfolding resumes
    resumes-Bounded b sv run_id [] h = h
    resumes-Bounded b sv run_id ((now, d) ∷ more) h =
        resumes-Bounded b (resume E G max_steps sv run_id now d).1 run_id more
          (resume-Bounded b sv run_id now d h)

    reserve-le : (next : Option Node) → reserve next ≤ 1
    reserve-le none = omega arith
    reserve-le (some Node.planner) = omega arith
    reserve-le (some Node.retrieve) = omega arith
    reserve-le (some Node.assess) = omega arith
    reserve-le (some Node.clarify) = omega arith
    reserve-le (some Node.approve) = omega arith
    reserve-le (some Node.act_sar) = omega arith
    reserve-le (some Node.rejected) = omega arith
    reserve-le (some Node.finalize) = omega arith

    -- However often a run is resumed, and with whatever decisions, it writes one draft at most.
    pub resumes-drafts :
        (sv : Service E G max_steps) (run_id : String) (calls : List (F × Decision))
        (c : Checkpoint F)
        → G.get_state sv.store run_id ≡ some c
        → D.count (resumes E G max_steps sv run_id calls).world ≤ D.count sv.world + 1
    resumes-drafts sv run_id calls c found = omega (
      arith,
      (resumes-Bounded (D.count sv.world) sv run_id calls
          (c, found, omega (arith, reserve-le c.next))).2,
    )
