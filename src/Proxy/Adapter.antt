-- ===== src/Proxy/Adapter.antt =====
-- backend/internal/proxy/adapter.go: the MCP adapter, and what it answers. The sentences that a model
-- reads in an outcome are left out, and so are the texts of rejections, which are constructors.
pub mod Unambiguous
use kite_rail.Prelude.{ℕ, Bool, not, Option, none, some, List, [], ◌∷◌, if◌then◌else◌}
use kite_rail.Prelude.Text.{Text, codes, text_eq}
use kite_rail.Prelude.Headers.{Headers}
use kite_rail.Prelude.Headers
use kite_rail.Policy.{ProxyDecision}
use kite_rail.Mcp.Json.{Scalar, Fields, Token}
use kite_rail.Proxy.Ingress.{
  IngressRequest, Reason, Validated, valid, invalid, tools_call, validate_ingress,
}
use kite_rail.Proxy.Mirrored.{
  HeaderReason, Single, omitted, single, malformed, single_header, validate_mirrored_headers,
  protocol_version,
}

pub record Invocation : Type 0 where
  pub protocol : Text
  pub version : Text
  pub method : Text
  pub name : Text
  pub tool : Text
  pub arguments : Option Fields
  pub request_id : Text
  pub response_id : Option Scalar

-- The JSON-RPC error codes; each number is the negation of its `magnitude`.
pub data Code : Type 0 where
  invalid_request header_body_mismatch denied_by_policy quarantined : Code

unfoldable pub magnitude : Code → ℕ
magnitude invalid_request = 32600
magnitude header_body_mismatch = 32020
magnitude denied_by_policy = 32010
magnitude quarantined = 32011

-- The messages of rejections.
pub data Message : Type 0 where
  body_reason : Reason → Message
  header_reason : HeaderReason → Message
  post_only too_large unreadable : Message

pub record IngressError : Type 0 where
  pub status : ℕ
  pub code : Code
  pub message : Message
  pub response_id : Option Scalar

pub data Parsed : Type 0 where
  parsed : Invocation → Parsed
  rejected : IngressError → Parsed

-- `version, _, _ := singleHeader(…)`
unfoldable pub version_of : Single → Text
version_of omitted = []
version_of (single version) = version
version_of (malformed e) = []

-- The second check of `Parse`, and the invocation.
unfoldable pub parse_headers : Headers → IngressRequest → Option HeaderReason → Parsed
unfolding version_of
parse_headers header ingress (some e) = rejected (record {
  status = 400;
  code = header_body_mismatch;
  message = header_reason e;
  response_id = ingress.response_id;
})
parse_headers header ingress none = parsed (record {
  protocol = codes "mcp";
  version = version_of (single_header header protocol_version);
  method = ingress.method;
  name = ingress.params_name;
  tool = ingress.tool;
  arguments = ingress.arguments;
  request_id = ingress.request_id;
  response_id = ingress.response_id;
})

unfoldable pub parse_validated : Headers → Validated → Parsed
unfolding parse_headers
parse_validated header (invalid reason id) = rejected (record {
  status = 400;
  code = invalid_request;
  message = body_reason reason;
  response_id = id;
})
parse_validated header (valid ingress) =
    parse_headers header ingress (validate_mirrored_headers header ingress)

-- `MCPAdapter.Parse`, on the header and the body of a request.
unfoldable pub parse : (Text → Option (List Token)) → Headers → Text → Parsed
unfolding parse_validated
parse lex header body = parse_validated header (validate_ingress lex body)

-- `decisionMeta`; the id is empty for a denial.
pub record DecisionMeta : Type 0 where
  pub decision : Text
  pub rule : Text
  pub explanation : Text
  pub policy_version : Text
  pub quarantine_id : Text

pub data Body : Type 0 where
  -- A JSON-RPC error of the proxy's own validation.
  rpc_rejection : Code → Message → Option Scalar → Body
  -- A tool result with `isError` set, and a JSON-RPC error of an outcome.
  tool_result : Option Scalar → DecisionMeta → Body
  rpc_outcome : Option Scalar → Code → DecisionMeta → Body
  -- The REST bodies for clients that declare no protocol version.
  denied_json : Text → Body
  quarantined_json : Text → Body
  -- The text of `http.Error`.
  plain : Text → Body
  -- What the upstream answers.
  streamed : Text → Body

pub record Response : Type 0 where
  pub status : ℕ
  pub headers : Headers
  pub body : Body

abbrev pub json_header : Headers → Headers
json_header h = Headers.set (codes "Content-Type") (codes "application/json") h

-- `ingressError` and `WriteIngressError`
unfoldable pub ingress_error : ℕ → Code → Message → Option Scalar → Response
ingress_error status code message id = record {
  status = status;
  headers = json_header [];
  body = rpc_rejection code message id;
}

unfoldable pub write_ingress_error : IngressError → Response
unfolding ingress_error
write_ingress_error e = ingress_error e.status e.code e.message e.response_id

unfoldable pub decision_meta : Text → ProxyDecision → Text → DecisionMeta
decision_meta outcome d id = record {
  decision = outcome;
  rule = d.rule;
  explanation = d.explanation;
  policy_version = d.policy_version;
  quarantine_id = id;
}

unfoldable pub write_outcome : Headers → Invocation → Code → DecisionMeta → Response
write_outcome h inv code meta = record {
  status = 200;
  headers = json_header h;
  body =
      if text_eq inv.method tools_call
      then tool_result inv.response_id meta
      else rpc_outcome inv.response_id code meta;
}

unfoldable pub set_decision_headers : Text → ProxyDecision → Headers → Headers
set_decision_headers outcome d h =
    let h' = Headers.set (codes "X-Elodea-Decision") outcome h in
    if text_eq d.policy_version []
    then h'
    else Headers.set (codes "X-Elodea-Policy-Version") d.policy_version h'

-- `nativeMCP`, on the header of the request.
unfoldable pub is_native_mcp : Headers → Bool
is_native_mcp header = not (text_eq (Headers.get protocol_version header) [])

unfoldable pub write_deny : Headers → Invocation → ProxyDecision → Response
unfolding set_decision_headers is_native_mcp write_outcome decision_meta
write_deny header inv d =
    let h = set_decision_headers (codes "deny") d [] in
    if is_native_mcp header
    then write_outcome h inv denied_by_policy (decision_meta (codes "deny") d [])
    else record { status = 403; headers = json_header h; body = denied_json d.explanation }

unfoldable pub write_quarantine : Headers → Invocation → Text → ProxyDecision → Response
unfolding set_decision_headers is_native_mcp write_outcome decision_meta
write_quarantine header inv id d =
    let h =
      Headers.set (codes "X-Elodea-Quarantine-ID") id
        (set_decision_headers (codes "quarantine") d []) in
    if is_native_mcp header
    then write_outcome h inv quarantined (decision_meta (codes "quarantine") d id)
    else record { status = 202; headers = json_header h; body = quarantined_json id }
