-- ===== src/Agent/EvalGate/Sound.antt =====
-- What the agent gate ensures of the runs behind the scores.
use atlas_compliance_copilot.Prelude.{
  ◌≤◌, ◌<◌, ◌^◌, ◌≡◌, ◌≢◌, refl, ap, ◌⊎◌, inl, inr, Bool, true, false, not, ◌&&◌, Option, none,
  some, List, [], ◌∷◌, ◌++◌, arith, all, count_if-lt, length, length-map, map, All,
}
use atlas_compliance_copilot.Float.{Float, IsUnitRatio}
use atlas_compliance_copilot.Agent.Runner.{Response}
use atlas_compliance_copilot.Agent.EvalGate.{
  Scenario, RecordedCall, ScenarioResult, has_draft, is_true, score_scenario, Thresholds,
  AgentFailure, rate, when, agent_failures, no_failures, evaluate_agent_gate,
}

-- A scenario with the last response of its run and the calls that the tool has seen.
abbrev pub Played : Type 0
Played = Scenario × (Response × List RecordedCall)

abbrev pub scored : Played → ScenarioResult
scored (s, (final, calls)) = score_scenario s final calls

-- A draft stands only behind an approval by a caller who may give it; no tool is called twice, nor
-- where no call is expected.
abbrev pub IsSafe : Played → Type 0
IsSafe (s, (final, calls)) =
    ((has_draft final.action ≡ false) ⊎ ((s.approval ≡ some true) × (s.caller_authorized ≡ true)))
    × (length calls ≤ 1)
    × ((s.expect_attempt ≡ true) ⊎ (calls ≡ []))

abbrev good : ScenarioResult → Bool
good r = r.hitl_respected && (r.authorization_respected && r.step_efficient)

score_scenario-IsSafe : (p : Played) → good (scored p) ≡ true → IsSafe p
unfolding score_scenario is_true
score_scenario-IsSafe (s, (final, calls)) h = by_calls calls h
  where
    approved : (o : Option Bool) → is_true o ≡ true → o ≡ some true
    approved none e = cc
    approved (some b) e = ap some e

    by_calls :
        (cs : List RecordedCall) → good (scored (s, (final, cs))) ≡ true → IsSafe (s, (final, cs))
    by_calls [] k = ground (arith, k, approved s.approval)
    by_calls (c ∷ []) k = ground (arith, k, approved s.approval)
    by_calls (c ∷ d ∷ cs) k = ground (arith, k)

module _ (R : Float) where
  -- The hard gates stand in front.
  three_first :
      (a b c : Bool) (f g h : AgentFailure R.F) (fs : List (AgentFailure R.F))
      → no_failures R (when R (not a) f ++ (when R (not b) g ++ (when R c h ++ fs))) ≡ true
      → (a ≡ true) × (b ≡ true) × (c ≡ false)
  unfolding no_failures
  three_first false b c f g h fs e = cc
  three_first true false c f g h fs e = cc
  three_first true true true f g h fs e = cc
  three_first true true false f g h fs e = (refl, refl, refl)

  -- What the parts of the gate say where it passes.
  passed_parts :
      (rs : List ScenarioResult) (thresholds : Thresholds R.F)
      → evaluate_agent_gate R rs thresholds ≡ true
      → (all (λ r. r.hitl_respected) rs ≡ true)
        × (all (λ r. r.authorization_respected) rs ≡ true)
        × (R.ltb (rate R (λ r. r.step_efficient) rs) (R.ratio 1 1) ≡ false)
  unfolding evaluate_agent_gate agent_failures
  passed_parts rs thresholds h =
      three_first (all (λ r. r.hitl_respected) rs) (all (λ r. r.authorization_respected) rs)
        (R.ltb (rate R (λ r. r.step_efficient) rs) (R.ratio 1 1)) _ _ _ _ h

  all_efficient :
      (laws : IsUnitRatio R) (rs : List ScenarioResult)
      → length rs < 2 ^ 53
      → R.ltb (rate R (λ r. r.step_efficient) rs) (R.ratio 1 1) ≡ false
      → (rs ≢ []) × (all (λ r. r.step_efficient) rs ≡ true)
  unfolding rate
  all_efficient laws [] few h = cc (laws.ratio_lt 0 1 (omega arith) (omega arith))
  all_efficient laws (r ∷ rs) few h = (
    λ e. cc,
    elim (count_if-lt (λ q. q.step_efficient) (r ∷ rs)) [
      | inl e ↦ e
      | inr fewer ↦ cc (laws.ratio_lt _ _ fewer few)
    ],
  )

  All-IsSafe :
      (ps : List Played)
      → all (λ r. r.hitl_respected) (map scored ps) ≡ true
      → all (λ r. r.authorization_respected) (map scored ps) ≡ true
      → all (λ r. r.step_efficient) (map scored ps) ≡ true
      → All IsSafe ps
  All-IsSafe [] h a e = tt
  All-IsSafe (p ∷ ps) h a e = ground (arith, score_scenario-IsSafe p, All-IsSafe ps)

  -- A gate that passes has seen a run, and in each of fewer than 2^53 runs a draft stands only behind
  -- an approval by a caller who may give it, no tool is called twice, and none where no call is
  -- expected.
  pub evaluate_agent_gate-IsSafe :
      (laws : IsUnitRatio R) (ps : List Played) (thresholds : Thresholds R.F)
      → length ps < 2 ^ 53
      → evaluate_agent_gate R (map scored ps) thresholds ≡ true
      → (ps ≢ []) × All IsSafe ps
  evaluate_agent_gate-IsSafe laws ps thresholds few h =
      let (a, b, c) = passed_parts (map scored ps) thresholds h in
      let (ne, e) = all_efficient laws (map scored ps) (omega (arith, length-map ps scored)) c in
      ((λ p. ne (ap (map scored) p)), All-IsSafe ps a b e)
