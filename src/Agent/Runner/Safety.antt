-- ===== src/Agent/Runner/Safety.antt =====
-- What the requests of the run API can do to the MCP server's drafts, and single-use approvals.
use atlas_compliance_copilot.Prelude.{
  ℕ, ◌≡◌, ◌∙◌, refl, max, String, Bool, true, false, Option, none, some, ap, Bool-cases, inl, inr,
}
use atlas_compliance_copilot.Agent.Amounts.{Text}
use atlas_compliance_copilot.Agent.State.{Decision, AgentState, Services}
use atlas_compliance_copilot.Agent.Graph.{Node, approved_by}
use atlas_compliance_copilot.Agent.Graph.Drive.{Checkpoint, drive}
use atlas_compliance_copilot.Agent.Writes.{Drafts}
use atlas_compliance_copilot.Agent.Writes.Gate.{drive-Untouched, drive-clarify, drive-unapproved}
use atlas_compliance_copilot.Agent.Engine.{Engine, IsLawful}
use atlas_compliance_copilot.Agent.Jwt.{jwt_sub}
use atlas_compliance_copilot.Agent.Runner.{
  Service, start, started, begun, resume, resumed, continued, is_resumable,
}

-- The decision authorises a write: it approves, and the run waits for approval.
abbrev pub authorizes : Option Node → Decision → Bool
authorizes (some Node.approve) d = approved_by (some d)
authorizes (some Node.planner) d = false
authorizes (some Node.retrieve) d = false
authorizes (some Node.assess) d = false
authorizes (some Node.clarify) d = false
authorizes (some Node.act_sar) d = false
authorizes (some Node.rejected) d = false
authorizes (some Node.finalize) d = false
authorizes none d = false

module _ (E : Services) (G : Engine E) (L : IsLawful E G) (D : Drafts E) (max_steps : ℕ) where
  open E use {float.{F}}

  started-drafts :
      (sv : Service E G max_steps) (run_id : String) (state_in : String → AgentState F)
      (caller : Option String)
      → G.get_state sv.store run_id ≡ none
      → D.count (started E G max_steps sv run_id state_in caller).1.world ≡ D.count sv.world
  unfolding started begun
  started-drafts sv run_id state_in none fresh = refl
  started-drafts sv run_id state_in (some caller) fresh =
      let left = L.invoke_lem sv.store sv.world run_id (max max_steps 8) (state_in caller) fresh in
      ap D.count left.world
      ∙ (drive-Untouched E D (D.count sv.world) (max max_steps 8) sv.world (some Node.planner)
          (state_in caller) (refl, refl)).0

  -- Starting a run writes no draft, whatever the Gateway answers.
  pub start-drafts :
      (claims : Text → Option (Option String)) (sv : Service E G max_steps) (run_id : String)
      (now : F) (query account period : String) (bearer : Text)
      → G.get_state sv.store run_id ≡ none
      → D.count (start E G max_steps claims sv run_id now query account period bearer).1.world
        ≡ D.count sv.world
  unfolding start
  start-drafts claims sv run_id now query account period bearer fresh =
      started-drafts sv run_id _ (jwt_sub claims bearer) fresh

  driven :
      (sv : Service E G max_steps) (run_id : String) (now : F) (d : Decision) (c : Checkpoint F)
      → G.get_state sv.store run_id ≡ some c
      → D.count
          (continued E G max_steps sv run_id now c.values
            (G.resume sv.store sv.world run_id (max max_steps 8) d)).1.world
        ≡ D.count (drive E (max max_steps 8) (some d) sv.world c.next c.values).world
  unfolding continued
  driven sv run_id now d c found =
      ap D.count (L.resume_lem sv.store sv.world run_id (max max_steps 8) d c found).world

  gate_unauthorized :
      (next : Option Node) (w : E.World) (d : Decision) (s : AgentState F) (fuel : ℕ)
      → is_resumable next ≡ true
      → authorizes next d ≡ false
      → D.count (drive E fuel (some d) w next s).world ≡ D.count w
  unfolding is_resumable
  gate_unauthorized (some Node.approve) w d s fuel r h =
      (drive-unapproved E D (D.count w) fuel d w s refl h).0
  gate_unauthorized (some Node.clarify) w d s fuel r h =
      (drive-clarify E D (D.count w) fuel d w s refl).0
  gate_unauthorized (some Node.planner) w d s fuel r h = cc
  gate_unauthorized (some Node.retrieve) w d s fuel r h = cc
  gate_unauthorized (some Node.assess) w d s fuel r h = cc
  gate_unauthorized (some Node.act_sar) w d s fuel r h = cc
  gate_unauthorized (some Node.rejected) w d s fuel r h = cc
  gate_unauthorized (some Node.finalize) w d s fuel r h = cc
  gate_unauthorized none w d s fuel r h = cc

  -- A resume writes no draft unless it approves a run that waits for approval.
  pub resume-unauthorized :
      (sv : Service E G max_steps) (run_id : String) (now : F) (d : Decision) (c : Checkpoint F)
      → G.get_state sv.store run_id ≡ some c
      → authorizes c.next d ≡ false
      → D.count (resume E G max_steps sv run_id now d).1.world ≡ D.count sv.world
  unfolding resume resumed
  resume-unauthorized sv run_id now d c found h =
      rw (found, resumed)
        (elim (Bool-cases (is_resumable c.next)) [
          | inl e ↦
              rw e (
                driven sv run_id now d c found ∙ gate_unauthorized c.next sv.world d c.values _ e h)
          | inr e ↦ rw e
        ])
