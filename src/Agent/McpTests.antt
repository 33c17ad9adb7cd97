-- ===== src/Agent/McpTests.antt =====
-- The client against a server that counts its requests.
use atlas_compliance_copilot.Prelude.{
  ℕ, suc, ◌≡◌, refl, String, true, false, none, some, [], ◌∷◌, str_eq,
}
use atlas_compliance_copilot.Text.{codes, text_eq}
use atlas_compliance_copilot.Exec.{exception, ok, raise}
use atlas_compliance_copilot.Agent.State.{SarArgs}
use atlas_compliance_copilot.Agent.Mcp.{
  Headers, Json, boolean, null, string, object, array, no_items, item, Response, Http, lookup,
  Fields, field, no_fields, parse_jsonrpc, result_of, draft_of, open_draft_sar,
}
use atlas_compliance_copilot.Agent.Mcp.Handshake.{IsRequest, CarriesDraft, open_draft_sar-ok}

abbrev draft : Json
draft = object (field "draftRef" (string (codes "SAR-1")) no_fields)

abbrev answering : Json → Http ℕ
answering result = record {
  post = λ h body w.
      (ok (record { status_ok = true; session_id = some "s-1"; text = codes "data: {}" }), suc w);
  loads = λ t. some (object (field "result" result no_fields));
  splitlines = λ t. t ∷ [];
  blank = λ c. false;
}

abbrev drafted : Json
drafted = object (field "structuredContent" draft no_fields)

abbrev sar_args : SarArgs
sar_args = record { account = "A-1"; period = "2025-Q4"; rationale = "breach"; citations = 1 ∷ [] }

-- A tool that reports an error.
tool_error :
    open_draft_sar
      (answering
        (object (field "isError" (boolean true) (field "content" (array no_items) no_fields))))
      "t"
      "r"
      sar_args
      0
    ≡ (raise (exception "McpError"), 2)
unfolding open_draft_sar result_of parse_jsonrpc draft_of
tool_error = refl

abbrev in_content : Json
in_content = object (
    field "structuredContent" null (
      field "content"
        (array (
          item
            (object
              (field "type" (string (codes "text")) (field "text" (string (codes "{}")) no_fields)))
            no_items))
        no_fields))

-- The text of the content stands in for an empty structuredContent, and is read as JSON.
from_content :
    open_draft_sar (answering in_content) "t" "r" sar_args 0
    ≡ (ok (object (field "result" in_content no_fields)), 2)
unfolding open_draft_sar result_of parse_jsonrpc draft_of text_eq
from_content = refl

open_draft_sar-ok_example :
    (first : Response) × (w1 : ℕ) × (id : String) × (second : Response) × (fs : Fields)
    × (h1 : Headers) × (b1 : Json) × (h2 : Headers) × (b2 : Json) × IsRequest "t" "initialize" none
        h1 b1
    × ((answering drafted).post h1 b1 0 ≡ (ok first, w1))
    × (first.status_ok ≡ true)
    × (first.session_id ≡ some id)
    × (str_eq id "" ≡ false)
    × IsRequest "t" "tools/call" (some id) h2 b2
    × CarriesDraft "r" sar_args b2
    × ((answering drafted).post h2 b2 w1 ≡ (ok second, 2))
    × (second.status_ok ≡ true)
    × (parse_jsonrpc (answering drafted) second.text ≡ some (object fs))
    × (lookup "error" fs ≡ none)
unfolding open_draft_sar result_of parse_jsonrpc draft_of
open_draft_sar-ok_example = open_draft_sar-ok (answering drafted) "t" "r" sar_args draft 0 2 refl
