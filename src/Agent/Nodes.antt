-- ===== src/Agent/Nodes.antt =====
-- The graph's nodes (nodes/*.py, graph.py). A node gives the state with its update merged in.

pub mod Assess
use atlas_compliance_copilot.Prelude.{
  ℕ, zero, suc, ◌+◌, max, String, ◌<>◌, Bool, true, false, not, ◌&&◌, Option, none, some, List, [],
  ◌∷◌, ◌++◌, map, if◌then◌else◌, length, or_default, is_some, mem_ℕ, any, sorted_set, str_eq,
}
use atlas_compliance_copilot.Float.{Float}
use atlas_compliance_copilot.Agent.Amounts.{Text, extract_amounts}
use atlas_compliance_copilot.Agent.State
use atlas_compliance_copilot.Agent.State.{
  Call, ok, connect_error, failure, Context, GatewayAnswer, SarArgs, ProposedAction, SarRequest,
  SarReply, Decision, Action, AgentState, Services,
}

abbrev pub plan : List String
plan = "retrieve" ∷ "assess" ∷ "conditional-sar" ∷ []

abbrev is_empty_text : String → Bool
is_empty_text t = str_eq t ""

abbrev pub is_empty {ℓ} : {A : Type ℓ} → List A → Bool
is_empty [] = true
is_empty (x ∷ xs) = false

-- The numbers of the contexts that have one: {c.get("n") for c in contexts if …}.
unfoldable pub numbers : List Context → List ℕ
numbers [] = []
numbers (c ∷ cs) = elim c.n [ none ↦ numbers cs | some n ↦ n ∷ numbers cs ]

-- " ".join(c.get("snippet") or "" for c in contexts)
joined_snippets : List Context → Text
joined_snippets [] = []
joined_snippets (c ∷ []) = or_default [] c.snippet
joined_snippets (c ∷ d ∷ cs) = or_default [] c.snippet ++ (b' ' ∷ joined_snippets (d ∷ cs))

note_result : Option String → Option State.Result
note_result none = none
note_result (some n) = if is_empty_text n then none else some (State.Result.note n)

note_of : Option Decision → Option String
note_of none = none
note_of (some d) = d.note

abbrev pub confirmed_detail : String
confirmed_detail = "Human-confirmed breach (amount not machine-readable in the source)"

module _ {F : Type 0} where
  unfoldable pub planner_node : AgentState F → AgentState F
  planner_node s = record s {
    plan = plan;
    trace = s.trace ++ (State.Trace.planner plan ∷ []);
    step_count = s.step_count + 1;
  }

  -- What the approval gate writes when the run resumes with a decision.
  unfoldable pub approve_node : Decision → AgentState F → AgentState F
  approve_node d s = record s {
    approval = some d;
    trace = s.trace ++ (State.Trace.approve (or_default false d.approved) ∷ []);
    step_count = s.step_count + 1;
  }

  -- What the clarification gate writes when the run resumes with a decision.
  unfoldable pub clarify_node : Decision → AgentState F → AgentState F
  clarify_node d s =
      let trace = s.trace ++ (State.Trace.clarify (or_default false d.breach) ∷ []) in
      if or_default false d.breach
      then record s {
        breach = true;
        breach_detail = some confirmed_detail;
        proposed_action = some (record {
          tool = "open_draft_sar";
          args = record {
            account = s.account;
            period = s.period;
            rationale = confirmed_detail;
            citations = sorted_set (numbers s.contexts);
          };
        });
        trace = trace;
        step_count = s.step_count + 1;
      }
      else record s { breach = false; trace = trace; step_count = s.step_count + 1 }

  unfoldable pub rejected_node : AgentState F → AgentState F
  unfolding note_result note_of
  rejected_node s = record s {
    status = some State.Status.rejected;
    result = note_result (note_of s.approval);
    trace = s.trace ++ (State.Trace.rejected ∷ []);
    step_count = s.step_count + 1;
  }

  unfoldable pub finalize_node : AgentState F → AgentState F
  finalize_node s = record s {
    status = some State.Status.completed;
    trace = s.trace ++ (State.Trace.finalize ∷ []);
    step_count = s.step_count + 1;
  }

module _ (R : Float) where
  unfoldable pub amounts_of : List Context → (Option Text → List R.F) → List R.F
  amounts_of [] extract = []
  amounts_of (c ∷ cs) extract = extract c.snippet ++ amounts_of cs extract

  -- max(xs), for a list that begins with a
  unfoldable pub maximum : R.F → List R.F → R.F
  maximum a [] = a
  maximum a (x ∷ xs) = maximum (if R.ltb a x then x else a) xs

  max_or_none : List R.F → Option R.F
  max_or_none [] = none
  max_or_none (a ∷ xs) = some (maximum a xs)

  at_least : R.F → Option R.F → Bool
  at_least threshold none = false
  at_least threshold (some a) = R.leb threshold a

  -- The numbers of the citations with an amount at or above the threshold.
  unfoldable pub breaching_numbers : R.F → List Context → (Option Text → List R.F) → List ℕ
  breaching_numbers threshold [] extract = []
  breaching_numbers threshold (c ∷ cs) extract =
      let rest = breaching_numbers threshold cs extract in
      if any (λ a. R.leb threshold a) (extract c.snippet)
      then elim c.n [ none ↦ rest | some n ↦ n ∷ rest ]
      else rest

module _ (E : Services) where
  open E use {float.{F}}

  pub extract : Option Text → List F
  extract = extract_amounts E.chars E.float

  -- resp.get("answer", "") or "", resp.get("citations", []) or []
  retrieved : GatewayAnswer → AgentState F → AgentState F
  unfolding extract
  retrieved resp s =
      let answer = or_default [] resp.answer in
      let contexts = or_default [] resp.citations in
      record s {
        answer = some answer;
        contexts = contexts;
        amounts = extract (some answer) ++ amounts_of E.float contexts extract;
        trace = s.trace ++ (State.Trace.retrieve (length contexts) ∷ []);
        step_count = s.step_count + 1;
      }

  after_query : AgentState F → Call GatewayAnswer → Call (AgentState F)
  after_query s (ok resp) = ok (retrieved resp s)
  after_query s (connect_error m) = connect_error m
  after_query s (failure m) = failure m

  -- An exception of the Gateway client is the node's exception.
  unfoldable pub retrieve_node : E.World → AgentState F → Call (AgentState F) × E.World
  unfolding after_query retrieved
  retrieve_node w s = let (r, w') = E.query w s.query E.top_k s.bearer in (after_query s r, w')

  -- The contexts to cite: the breaching ones, or all if the amount stands in the answer alone.
  cited : List Context → List ℕ
  unfolding extract
  cited contexts =
      let breaching = sorted_set (breaching_numbers E.float E.threshold contexts extract) in
      if is_empty breaching then sorted_set (numbers contexts) else breaching

  proposal : AgentState F → F → ProposedAction
  unfolding cited
  proposal s amount = record {
    tool = "open_draft_sar";
    args = record {
      account = s.account;
      period = s.period;
      rationale = E.breach_text amount E.threshold;
      citations = cited s.contexts;
    };
  }

  -- A dollar sign in the answer or in a snippet.
  pub money_context : AgentState F → Bool
  unfolding joined_snippets
  money_context s = mem_ℕ b'$' (or_default [] s.answer ++ joined_snippets s.contexts)

  when_breach {ℓ} : {A : Type ℓ} → Bool → Option F → (F → A) → Option A
  when_breach true (some a) f = some (f a)
  when_breach true none f = none
  when_breach false a f = none

  unfoldable pub assess_node : AgentState F → AgentState F
  unfolding max_or_none at_least proposal money_context when_breach
  assess_node s =
      let top = max_or_none E.float s.amounts in
      let breach = at_least E.float E.threshold top in
      let ambiguous = not breach && is_empty s.amounts && money_context s in
      record s {
        breach = breach;
        breach_amount = top;
        breach_detail = when_breach breach top (λ a. E.breach_text a E.threshold);
        ambiguous = ambiguous;
        proposed_action = when_breach breach top (proposal s);
        trace = s.trace ++ (State.Trace.assess breach ambiguous ∷ []);
        step_count = s.step_count + 1;
      }

  act_failed : AgentState F → List State.Trace → String → AgentState F
  act_failed s trace message = record s {
    status = some State.Status.failed;
    result = some (State.Result.error message);
    trace = trace ++ (State.Trace.act_sar_error message ∷ []);
    step_count = s.step_count + 1;
  }

  act_done : AgentState F → List State.Trace → SarReply → AgentState F
  act_done s trace reply = record s {
    status = some State.Status.completed;
    result = some (
        State.Result.action (record {
          tool = "open_draft_sar";
          draft_ref = reply.draft_ref;
          status = or_default "DRAFT" reply.status;
          audit_ref = reply.audit_ref;
        }));
    trace = trace;
    step_count = s.step_count + 1;
  }

  -- The tool call, made only with a token.
  unfoldable pub call_tool :
      AgentState F → SarArgs → Call String × E.World → Call SarReply × E.World
  call_tool s args (ok token, w) =
      E.open_draft_sar w (record { bearer = token; run_id = s.run_id; args = args })
  call_tool s args (connect_error m, w) = (connect_error m, w)
  call_tool s args (failure m, w) = (failure m, w)

  -- One round of the `try`: the token, then the tool call.
  unfoldable pub attempt : E.World → AgentState F → SarArgs → Call SarReply × E.World
  attempt w s args = call_tool s args (E.token_provider w s.caller)

  -- Only a connect error goes on, to the next round with its message.
  unfoldable pub after_attempt :
      (E.World → Option String → AgentState F × E.World)
      → AgentState F
      → List State.Trace
      → Call SarReply × E.World
      → AgentState F × E.World
  unfolding act_failed act_done
  after_attempt onward s trace (ok reply, w) = (act_done s trace reply, w)
  after_attempt onward s trace (connect_error m, w) = onward w (some ("connect error: " <> m))
  after_attempt onward s trace (failure m, w) = (act_failed s trace m, w)

  -- The loop over the attempts, with the last connect error.
  unfoldable pub attempts :
      ℕ
      → AgentState F
      → SarArgs
      → List State.Trace
      → E.World
      → Option String
      → AgentState F × E.World
  unfolding act_failed after_attempt
  attempts zero s args trace w last =
      (act_failed s trace (or_default "tool call failed after retries" last), w)
  attempts (suc rounds) s args trace w last =
      after_attempt (attempts rounds s args trace) s trace (attempt w s args)

  -- The subscript of a proposal that is None raises.
  unfoldable pub act_on :
      Option ProposedAction → E.World → AgentState F → Call (AgentState F) × E.World
  act_on none w s = (failure "'NoneType' object is not subscriptable", w)
  act_on (some proposed) w s =
      let r =
        attempts (max 1 (E.tool_retries + 1)) s proposed.args
          (s.trace ++ (State.Trace.act_sar ∷ [])) w none in
      (ok r.0, r.1)

  unfoldable pub act_sar_node : E.World → AgentState F → Call (AgentState F) × E.World
  unfolding act_on
  act_sar_node w s = act_on s.proposed_action w s
