-- ===== src/Agent/Mcp/Handshake.antt =====
-- The order of the calls behind a draft.
use atlas_compliance_copilot.Prelude.{
  ◌<>◌, List, [], ◌∷◌, ◌≡◌, refl, sym, ap, ◌∙◌, String, Bool, true, false, Option, none, some,
  str_eq, arith, if◌then◌else◌,
}
use atlas_compliance_copilot.Exec.{continue-ok, returned, exception, ok, throw, pure}
use atlas_compliance_copilot.Text.{codes}
use atlas_compliance_copilot.Agent.State.{SarArgs}
use atlas_compliance_copilot.Agent.Mcp.{
  Headers, base_headers, Json, null, boolean, number, string, array, object, Response, Http,
  headers, envelope, initialize_params, call_params, lookup, Fields, parse_jsonrpc, result_of,
  no_error, raise_for_status, issued, initialize, lifted, rpc, open_draft_sar,
}

result_of-ok :
    (p : Option Json) (v : Json)
    → result_of p ≡ ok v
    → (fs : Fields) × (p ≡ some (object fs)) × (lookup "error" fs ≡ none)
unfolding result_of no_error
result_of-ok (some (object fs)) v h = (fs, refl, clean (lookup "error" fs) h)
  where
    clean : (e : Option Json) → no_error fs e ≡ ok v → e ≡ none
    clean none k = refl
    clean (some e) k = ground arith
result_of-ok (some null) v h = ground arith
result_of-ok (some (boolean b)) v h = ground arith
result_of-ok (some (number n)) v h = ground arith
result_of-ok (some (string t)) v h = ground arith
result_of-ok (some (array vs)) v h = ground arith
result_of-ok none v h = ground arith

-- The value of a header, and what stands in a message under a path of keys.
pub header : String → Headers → Option String
header key [] = none
header key ((k, v) ∷ hs) = let rest = header key hs in if str_eq k key then some v else rest

pub at : List String → Json → Option Json
at [] v = some v
at (key ∷ keys) (object fs) = elim (lookup key fs) [ none ↦ none | some v ↦ at keys v ]
at (key ∷ keys) v = none

-- A request of the method with the caller's token, in the session if there is one.
pub record IsRequest (bearer method : String) (session : Option String) (hs : Headers) (body : Json)
    : Type 0 where
  pub authorized : header "Authorization" hs ≡ some ("Bearer " <> bearer)
  pub in_session : header "Mcp-Session-Id" hs ≡ session
  pub calls : at ("method" ∷ []) body ≡ some (string (codes method))

-- The parameters name the tool and carry the run and the text arguments of the draft.
pub record CarriesDraft (run_id : String) (args : SarArgs) (body : Json) : Type 0 where
  pub tool : at ("params" ∷ "name" ∷ []) body ≡ some (string (codes "open_draft_sar"))
  pub run : at ("params" ∷ "arguments" ∷ "runId" ∷ []) body ≡ some (string (codes run_id))
  pub account :
      at ("params" ∷ "arguments" ∷ "account" ∷ []) body ≡ some (string (codes args.account))
  pub period : at ("params" ∷ "arguments" ∷ "period" ∷ []) body ≡ some (string (codes args.period))
  pub rationale :
      at ("params" ∷ "arguments" ∷ "rationale" ∷ []) body ≡ some (string (codes args.rationale))

initialize-IsRequest :
    (bearer : String)
    → IsRequest bearer "initialize" none
        (headers bearer none)
        (envelope "initialize" initialize_params)
unfolding header at headers base_headers envelope lookup
initialize-IsRequest bearer = record { authorized = refl; in_session = refl; calls = refl }

call-IsRequest :
    (bearer id : String) (params : Json)
    → str_eq id "" ≡ false
    → IsRequest bearer "tools/call"
        (some id)
        (headers bearer (some id))
        (envelope "tools/call" params)
unfolding header at headers base_headers envelope lookup
call-IsRequest bearer id params h = record {
  authorized = rw h refl;
  in_session = rw h refl;
  calls = refl;
}

call-CarriesDraft :
    (run_id : String) (args : SarArgs)
    → CarriesDraft run_id args (envelope "tools/call" (call_params run_id args))
unfolding at envelope call_params lookup
call-CarriesDraft run_id args = record {
  tool = refl;
  run = refl;
  account = refl;
  period = refl;
  rationale = refl;
}

module _ {W : Type 0} (H : Http W) where
  raise_for_status-ok :
      (r : Response) (w w' : W)
      → raise_for_status H r w ≡ (ok tt, w')
      → (r.status_ok ≡ true) × (w' ≡ w)
  unfolding raise_for_status
  raise_for_status-ok r w w' h = split r.status_ok refl h
    where
      split :
          (b : Bool)
          → r.status_ok ≡ b
          → (if b then pure tt else throw (exception "HTTPStatusError")) w ≡ (ok tt, w')
          → (r.status_ok ≡ true) × (w' ≡ w)
      split true e k = (e, (returned tt tt w w' k).1)
      split false e k = ground arith

  issued-ok :
      (o : Option String) (id : String) (w w' : W)
      → issued H o w ≡ (ok id, w')
      → (o ≡ some id) × (str_eq id "" ≡ false) × (w' ≡ w)
  unfolding issued
  issued-ok none id w w' h = ground arith
  issued-ok (some s) id w w' h = split (str_eq s "") refl h
    where
      split :
          (b : Bool)
          → str_eq s "" ≡ b
          → (if b then throw (exception "McpError") else pure s) w ≡ (ok id, w')
          → (some s ≡ some id) × (str_eq id "" ≡ false) × (w' ≡ w)
      split true e k = ground arith
      split false e k =
          let (same, still) = returned s id w w' k in
          (ap some (sym same), ap (λ x. str_eq x "") same ∙ e, still)

  initialize-ok :
      (bearer id : String) (w w' : W)
      → initialize H bearer w ≡ (ok id, w')
      → (r : Response) × (H.post (headers bearer none) (envelope "initialize" initialize_params) w
          ≡ (ok r, w'))
        × (r.status_ok ≡ true)
        × (r.session_id ≡ some id)
        × (str_eq id "" ≡ false)
  unfolding initialize
  initialize-ok bearer id w w' h =
      let (r, w1, sent, h1) =
        continue-ok (H.post (headers bearer none) (envelope "initialize" initialize_params) w) _
          (id, w') h in
      let (u, w2, checked, h2) = continue-ok (raise_for_status H r w1) _ (id, w') h1 in
      let (good, still) = raise_for_status-ok r w1 w2 checked in
      let (named, filled, end) = issued-ok r.session_id id w2 w' h2 in
      (r, sent ∙ ap (λ x. (ok r, x)) (sym (end ∙ still)), good, named, filled)

  rpc-ok :
      (bearer id method : String) (params v : Json) (w w' : W)
      → rpc H bearer id method params w ≡ (ok v, w')
      → (r : Response) × (fs : Fields) × (H.post
            (headers bearer (some id))
            (envelope method params)
            w
          ≡ (ok r, w'))
        × (r.status_ok ≡ true)
        × (parse_jsonrpc H r.text ≡ some (object fs))
        × (lookup "error" fs ≡ none)
  unfolding rpc lifted
  rpc-ok bearer id method params v w w' h =
      let (r, w1, sent, h1) =
        continue-ok (H.post (headers bearer (some id)) (envelope method params) w) _ (v, w') h in
      let (u, w2, checked, h2) = continue-ok (raise_for_status H r w1) _ (v, w') h1 in
      let (good, still) = raise_for_status-ok r w1 w2 checked in
      let (fs, parsed, clean) = result_of-ok (parse_jsonrpc H r.text) v (ap (λ p. p.0) h2) in
      (
        r,
        fs,
        sent ∙ ap (λ x. (ok r, x)) (sym (ap (λ p. p.1) (sym h2) ∙ still)),
        good,
        parsed,
        clean,
      )

  -- A draft is returned only behind two requests that carry the caller's token as their bearer: an
  -- initialize with no session header, which the server answered with a session id that is not empty,
  -- and then the tools/call of open_draft_sar with that session's header, with the run and the text
  -- arguments of the draft, whose answer has no error. No other request is made.
  pub open_draft_sar-ok :
      (bearer run_id : String) (args : SarArgs) (out : Json) (w w' : W)
      → open_draft_sar H bearer run_id args w ≡ (ok out, w')
      → (first : Response) × (w1 : W) × (id : String) × (second : Response) × (fs : Fields)
        × (h1 : Headers) × (b1 : Json) × (h2 : Headers) × (b2 : Json) × IsRequest bearer
            "initialize" none h1 b1
        × (H.post h1 b1 w ≡ (ok first, w1))
        × (first.status_ok ≡ true)
        × (first.session_id ≡ some id)
        × (str_eq id "" ≡ false)
        × IsRequest bearer "tools/call" (some id) h2 b2
        × CarriesDraft run_id args b2
        × (H.post h2 b2 w1 ≡ (ok second, w'))
        × (second.status_ok ≡ true)
        × (parse_jsonrpc H second.text ≡ some (object fs))
        × (lookup "error" fs ≡ none)
  unfolding open_draft_sar lifted
  open_draft_sar-ok bearer run_id args out w w' h =
      let params = call_params run_id args in
      let (id, w1, begun, h1) = continue-ok (initialize H bearer w) _ (out, w') h in
      let (v, w2, called, h2) =
        continue-ok (rpc H bearer id "tools/call" params w1) _ (out, w') h1 in
      let (first, opened, good, named, filled) = initialize-ok bearer id w w1 begun in
      let (second, fs, sent, fine, parsed, clean) =
        rpc-ok bearer id "tools/call" params v w1 w2 called in
      (
        first,
        w1,
        id,
        second,
        fs,
        headers bearer none,
        envelope "initialize" initialize_params,
        headers bearer (some id),
        envelope "tools/call" params,
        initialize-IsRequest bearer,
        opened,
        good,
        named,
        filled,
        call-IsRequest bearer id params filled,
        call-CarriesDraft run_id args,
        sent ∙ ap (λ x. (ok second, x)) (ap (λ p. p.1) h2),
        fine,
        parsed,
        clean,
      )
