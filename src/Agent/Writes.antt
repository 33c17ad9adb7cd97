-- ===== src/Agent/Writes.antt =====
-- The governed write: how many drafts the nodes and the graph can add to the MCP server.
pub mod Gate
use atlas_compliance_copilot.Prelude.{
  ℕ, zero, suc, ◌+◌, ◌≤◌, ◌≡◌, refl, ◌∙◌, String, Bool, true, false, Option, none, some, List,
  arith, ◌<>◌, or_default,
}
use atlas_compliance_copilot.Agent.Amounts.{Text}
use atlas_compliance_copilot.Agent.State.{
  Call, ok, connect_error, failure, SarArgs, ProposedAction, SarRequest, SarReply, Trace, Decision,
  AgentState, Services,
}
use atlas_compliance_copilot.Agent.Nodes.{
  attempt, after_attempt, attempts, call_tool, act_on, retrieve_node,
}
use atlas_compliance_copilot.Agent.Graph.{
  Node, successor, breach_branch, clarify_branch, approval_branch, run_node,
}
use atlas_compliance_copilot.Agent.Graph.Drive.{
  Run, After, At, drive, drive_keeps, drive_keeps_resumed,
}

-- The drafts of the MCP server, as a number of the world. Queries and tokens add none. A call of
-- the tool adds at most one, and none if the connection was never established.
pub record Drafts (E : Services) : Type 0 where
  pub count : E.World → ℕ
  pub query_keeps :
      (w : E.World) (q : String) (k : ℕ) (b : Text) → count (E.query w q k b).1 ≡ count w
  pub token_keeps : (w : E.World) (user : String) → count (E.token_provider w user).1 ≡ count w
  pub connect_keeps :
      (w : E.World) (r : SarRequest) (m : String)
      → (E.open_draft_sar w r).0 ≡ connect_error m
      → count (E.open_draft_sar w r).1 ≡ count w
  pub sar_once : (w : E.World) (r : SarRequest) → count (E.open_draft_sar w r).1 ≤ count w + 1

module _ (E : Services) (D : Drafts E) where
  open E use {float.{F}}

  -- What one round of the loop may add.
  abbrev Round : E.World → Call SarReply × E.World → Type 0
  Round w (connect_error m, w') = D.count w' ≡ D.count w
  Round w (ok reply, w') = D.count w' ≤ D.count w + 1
  Round w (failure m, w') = D.count w' ≤ D.count w + 1

  Round-of :
      (w : E.World) (c : Call SarReply × E.World)
      → D.count c.1 ≤ D.count w + 1
      → ((m : String) → c.0 ≡ connect_error m → D.count c.1 ≡ D.count w)
      → Round w c
  Round-of w (ok reply, w') h k = h
  Round-of w (connect_error m, w') h k = k m refl
  Round-of w (failure m, w') h k = h

  call_tool-Round :
      (s : AgentState F) (args : SarArgs) (w : E.World) (t : Call String × E.World)
      → D.count t.1 ≡ D.count w
      → Round w (call_tool E s args t)
  unfolding call_tool
  call_tool-Round s args w (ok token, w') h =
      let r : SarRequest = record { bearer = token; run_id = s.run_id; args = args } in
      Round-of w (E.open_draft_sar w' r) (omega (arith, D.sar_once w' r))
        (λ m e. omega (arith, D.connect_keeps w' r m e))
  call_tool-Round s args w (connect_error m, w') h = h
  call_tool-Round s args w (failure m, w') h = omega arith

  attempt-Round : (w : E.World) (s : AgentState F) (args : SarArgs) → Round w (attempt E w s args)
  unfolding attempt
  attempt-Round w s args =
      call_tool-Round s args w (E.token_provider w s.caller) (D.token_keeps w s.caller)

  after_attempt_le :
      (w : E.World) (onward : E.World → Option String → AgentState F × E.World) (s : AgentState F)
      (trace : List Trace)
      → ((w' : E.World) (l : Option String) → D.count (onward w' l).1 ≤ D.count w' + 1)
      → (c : Call SarReply × E.World) → Round w c
      → D.count (after_attempt E onward s trace c).1 ≤ D.count w + 1
  unfolding after_attempt
  after_attempt_le w onward s trace ih (ok reply, w') h = h
  after_attempt_le w onward s trace ih (connect_error m, w') h =
      omega (arith, ih w' (some ("connect error: " <> m)))
  after_attempt_le w onward s trace ih (failure m, w') h = h

  -- However many rounds the loop makes, it adds at most one draft.
  attempts-drafts :
      (rounds : ℕ) (s : AgentState F) (args : SarArgs) (trace : List Trace) (w : E.World)
      (last : Option String)
      → D.count (attempts E rounds s args trace w last).1 ≤ D.count w + 1
  unfolding attempts
  attempts-drafts zero s args trace w last = omega arith
  attempts-drafts (suc rounds) s args trace w last =
      after_attempt_le w (attempts E rounds s args trace) s trace
        (λ w' l. attempts-drafts rounds s args trace w' l) (attempt E w s args)
        (attempt-Round w s args)

  -- The act node adds at most one draft.
  pub act_on-drafts :
      (p : Option ProposedAction) (w : E.World) (s : AgentState F)
      → D.count (act_on E p w s).1 ≤ D.count w + 1
  unfolding act_on
  act_on-drafts none w s = omega arith
  act_on-drafts (some p) w s = attempts-drafts _ s p.args _ w none
