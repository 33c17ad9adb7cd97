-- ===== src/Agent/Engine.antt =====
-- The compiled graph behind its checkpointer, which LangGraph provides: a store of one checkpoint
-- for each thread, and what `invoke` and `get_state` are documented to do to it.
use atlas_compliance_copilot.Prelude.{ℕ, ◌≡◌, String, Option, none, some, str_eq, if◌then◌else◌}
use atlas_compliance_copilot.Agent.State.{Decision, AgentState, Services}
use atlas_compliance_copilot.Agent.Graph.{Node}
use atlas_compliance_copilot.Agent.Graph.Drive.{Checkpoint, Stop, Run, drive}

module _ (E : Services) where
  open E use {float.{F}}

  -- What an `invoke` leaves: how it stopped, the store and the world.
  pub record Invoked (Store : Type 0) : Type 0 where
    pub stop : Stop
    pub store : Store
    pub world : E.World

  pub record Engine : Type 1 where
    pub Store : Type 0
    -- The thread's snapshot, none for a thread without values.
    pub get_state : Store → String → Option (Checkpoint F)
    -- invoke(state, config), with the recursion limit of the config
    pub invoke : Store → E.World → String → ℕ → AgentState F → Invoked Store
    -- invoke(Command(resume=…), config)
    pub resume : Store → E.World → String → ℕ → Decision → Invoked Store

  -- The run that an invocation makes has left its checkpoint under its thread, and no other.
  pub record Left (G : Engine) (st : G.Store) (id : String) (r : Run E) (i : Invoked G.Store)
      : Type 0 where
    pub stop : i.stop ≡ r.stop
    pub world : i.world ≡ r.world
    pub snapshot :
        (j : String)
        → G.get_state i.store j ≡ (if str_eq j id then some r.checkpoint else G.get_state st j)

  pub record IsLawful (G : Engine) : Type 0 where
    -- An invocation of a new thread runs the graph from its entry point.
    pub invoke_lem :
        (st : G.Store) (w : E.World) (id : String) (limit : ℕ) (s : AgentState F)
        → G.get_state st id ≡ none
        → Left G st id (drive E limit none w (some Node.planner) s) (G.invoke st w id limit s)
    -- A resumption runs it on from the thread's checkpoint, with the decision for the pending gate.
    pub resume_lem :
        (st : G.Store) (w : E.World) (id : String) (limit : ℕ) (d : Decision) (c : Checkpoint F)
        → G.get_state st id ≡ some c
        → Left G st id (drive E limit (some d) w c.next c.values) (G.resume st w id limit d)
