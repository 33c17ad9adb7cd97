-- ===== src/Agent/Mcp.antt =====
-- agents/app/mcp_client.py: the client of the governed write. `post` is client.post to the server's
-- URL; numbers in JSON are taken to be integers. An exception that the code does not raise itself
-- goes by what it met.
pub mod Handshake
use atlas_compliance_copilot.Prelude.{
  ℕ, String, ◌<>◌, Bool, true, false, not, Option, none, some, List, [], ◌∷◌, ◌++◌, if◌then◌else◌,
  str_eq,
}
use atlas_compliance_copilot.Prelude.Int.{ℤ, pos}
use atlas_compliance_copilot.Text.{Text, codes, strip, has_infix, after_prefix, text_eq}
use atlas_compliance_copilot.Exec.{Error, exception, Result, ok, raise, Exec, ◌>>=◌, pure, throw}
use atlas_compliance_copilot.Agent.State.{SarArgs}

mutual
  pub data Json : Type 0 where
    null : Json
    boolean : Bool → Json
    number : ℤ → Json
    string : Text → Json
    array : Items → Json
    object : Fields → Json

  pub data Items : Type 0 where
    no_items : Items
    item : Json → Items → Items

  pub data Fields : Type 0 where
    no_fields : Fields
    field : String → Json → Fields → Fields

-- d.get(key)
unfoldable pub lookup : String → Fields → Option Json
lookup key no_fields = none
lookup key (field k v fs) = let rest = lookup key fs in if str_eq k key then some v else rest

unfoldable pub truthy : Json → Bool
truthy null = false
truthy (boolean b) = b
truthy (number (pos ℕ.zero)) = false
truthy (number (pos (ℕ.suc n))) = true
truthy (number (ℤ.negsuc n)) = true
truthy (string []) = false
truthy (string (c ∷ t)) = true
truthy (array no_items) = false
truthy (array (item v vs)) = true
truthy (object no_fields) = false
truthy (object (field k v fs)) = true

unfoldable pub holds : Option Json → Bool
unfolding truthy
holds none = false
holds (some v) = truthy v

pub record Response : Type 0 where
  pub status_ok : Bool
  pub session_id : Option String
  pub text : Text

abbrev pub Headers : Type 0
Headers = List (String × String)

pub record Http (W : Type 0) : Type 0 where
  pub post : Headers → Json → Exec W Response
  pub loads : Text → Option Json
  pub splitlines : Text → List Text
  pub blank : ℕ → Bool

base_headers : String → Headers
base_headers bearer =
    ("Content-Type", "application/json")
    ∷ ("Accept", "application/json, text/event-stream")
    ∷ ("Authorization", "Bearer " <> bearer)
    ∷ []

unfoldable pub headers : String → Option String → Headers
unfolding base_headers
headers bearer none = base_headers bearer
headers bearer (some id) =
    if str_eq id ""
    then base_headers bearer
    else base_headers bearer ++ (("Mcp-Session-Id", id) ∷ [])

unfoldable pub envelope : String → Json → Json
envelope method params = object (
    field "jsonrpc" (string (codes "2.0")) (
      field "id" (number (pos 1))
        (field "method" (string (codes method)) (field "params" params no_fields))))

unfoldable pub initialize_params : Json
initialize_params = object (
    field "protocolVersion" (string (codes "2025-11-25")) (
      field "capabilities" (object no_fields) (
        field "clientInfo"
          (object (
            field "name" (string (codes "atlas-agents"))
              (field "version" (string (codes "0.1.0")) no_fields)))
          no_fields)))

numbers_of : List ℕ → Items
numbers_of [] = no_items
numbers_of (n ∷ ns) = item (number (pos n)) (numbers_of ns)

unfoldable pub call_params : String → SarArgs → Json
unfolding numbers_of
call_params run_id args = object (
    field "name" (string (codes "open_draft_sar")) (
      field "arguments"
        (object (
          field "account" (string (codes args.account)) (
            field "period" (string (codes args.period)) (
              field "rationale" (string (codes args.rationale)) (
                field "citations" (array (numbers_of args.citations))
                  (field "runId" (string (codes run_id)) no_fields))))))
        no_fields))

-- item.get("text") of the first item of the type text
unfoldable pub scan_text : Items → Result (Option Json)
unfolding lookup
scan_text no_items = ok none
scan_text (item (object fs) vs) =
    let rest = scan_text vs in if is_text (lookup "type" fs) then ok (lookup "text" fs) else rest
  where
    is_text : Option Json → Bool
    is_text (some (string t)) = text_eq t (codes "text")
    is_text (some v) = false
    is_text none = false
scan_text (item v vs) = raise (exception "no mapping")

content_text : Option Json → Result (Option Json)
unfolding scan_text truthy
content_text none = ok none
content_text (some (array vs)) = scan_text vs
content_text (some v) = if truthy v then raise (exception "no list of mappings") else ok none

unfoldable pub first_text : Fields → Result (Option Json)
unfolding content_text lookup
first_text fs = content_text (lookup "content" fs)

-- raise McpError(_first_text(result) or …)
refuse : Result (Option Json) → Result Json
refuse (ok _) = raise (exception "McpError")
refuse (raise e) = raise e

loaded : Option Json → Result Json
loaded none = raise (exception "JSONDecodeError")
loaded (some v) = ok v

unfoldable pub from_text : (Text → Option Json) → Result (Option Json) → Result Json
unfolding loaded truthy
from_text loads (raise e) = raise e
from_text loads (ok none) = ok (object no_fields)
from_text loads (ok (some (string (c ∷ t)))) = loaded (loads (c ∷ t))
from_text loads (ok (some v)) =
    if truthy v then raise (exception "no text") else ok (object no_fields)

chosen : Result Json → Option Json → Result Json
unfolding truthy
chosen otherwise none = otherwise
chosen otherwise (some v) = if truthy v then ok v else otherwise

-- What open_draft_sar makes of the result of its call.
unfoldable pub draft_of : (Text → Option Json) → Json → Result Json
unfolding holds lookup refuse first_text chosen from_text
draft_of loads (object fs) =
    if holds (lookup "isError" fs)
    then refuse (first_text fs)
    else chosen (from_text loads (first_text fs)) (lookup "structuredContent" fs)
draft_of loads v = raise (exception "no mapping")

result_or_empty : Option Json → Json
result_or_empty none = object no_fields
result_or_empty (some v) = v

unfoldable pub no_error : Fields → Option Json → Result Json
unfolding result_or_empty lookup
no_error fs (some e) = raise (exception "McpError")
no_error fs none = ok (result_or_empty (lookup "result" fs))

unfoldable pub result_of : Option Json → Result Json
unfolding no_error lookup
result_of (some (object fs)) = no_error fs (lookup "error" fs)
result_of (some v) = raise (exception "no mapping")
result_of none = raise (exception "JSONDecodeError")

module _ {W : Type 0} (H : Http W) where
  frames : List Text → List Text
  frames [] = []
  frames (l ∷ ls) = elim (after_prefix (codes "data:") l) [
    | none ↦ frames ls
    | some t ↦ strip H.blank t ∷ frames ls
  ]

  last_or : Text → List Text → Text
  last_or t [] = t
  last_or t (f ∷ fs) = last_or f fs

  unfoldable pub parse_jsonrpc : Text → Option Json
  unfolding frames last_or has_infix
  parse_jsonrpc body =
      if has_infix (codes "data:") body
      then H.loads (last_or body (frames (H.splitlines body)))
      else H.loads body

  unfoldable pub raise_for_status : Response → Exec W (Unit {0})
  raise_for_status r = if r.status_ok then pure tt else throw (exception "HTTPStatusError")

  unfoldable pub issued : Option String → Exec W String
  issued none = throw (exception "McpError")
  issued (some id) = if str_eq id "" then throw (exception "McpError") else pure id

  unfoldable pub initialize : String → Exec W String
  unfolding raise_for_status issued
  initialize bearer =
      H.post (headers bearer none) (envelope "initialize" initialize_params) >>= λ r.
      raise_for_status r >>= λ _. issued r.session_id

  unfoldable pub lifted : Result Json → Exec W Json
  lifted r w = (r, w)

  unfoldable pub rpc : String → String → String → Json → Exec W Json
  unfolding raise_for_status lifted
  rpc bearer id method params = H.post (headers bearer (some id)) (envelope method params) >>= λ r.
      raise_for_status r >>= λ _. lifted (result_of (parse_jsonrpc r.text))

  unfoldable pub open_draft_sar : String → String → SarArgs → Exec W Json
  unfolding initialize rpc lifted
  open_draft_sar bearer run_id args = initialize bearer >>= λ id.
      rpc bearer id "tools/call" (call_params run_id args) >>= λ result.
      lifted (draft_of H.loads result)
