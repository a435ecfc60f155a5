-- ===== src/Proxy/Tests.antt =====
-- A tool call, and the proxy at it.
use kite_rail.Prelude.{ℕ, ◌+◌, ◌≡◌, ◌⊎◌, refl, Bool, true, false, Option, none, some, List, [], ◌∷◌}
use kite_rail.Prelude.Text.{Text, codes, text_eq}
use kite_rail.Prelude.Headers.{Headers, lookup, all_tokens}
use kite_rail.Proxy.Recheck.{policy_recheck}
use kite_rail.Proxy.Recheck.Captured.{TokenNames}
use kite_rail.Proxy.Recheck.Same.{captured, policy_recheck-captured}
use kite_rail.Prelude.Http.{post}
use kite_rail.Policy.{Action, allow, quarantine, ProxyDecision}
use kite_rail.Auth.{Identity, agent}
use kite_rail.Auth
use kite_rail.Ledger.Timestamp.{zero_time}
use kite_rail.Engine.{Engine, result, object, string}
use kite_rail.Mcp.Json.{Fields, Token, no_fields, field, leaf, ok, decode_object}
use kite_rail.Mcp.Json
use kite_rail.Mcp.Json.Distinct.{flatten}
use kite_rail.Proxy.Ingress.{Validated, valid, tools_call, validate_ingress}
use kite_rail.Proxy.Ingress.Subject.{Faithful, validate_ingress-Faithful}
use kite_rail.Proxy.Mirrored.Agreement.{Mirrors}
use kite_rail.Proxy.Adapter.{Invocation, parsed, parse}
use kite_rail.Proxy.Adapter.Unambiguous.{parse-Mirrors}
use kite_rail.Proxy.World.{EvalInput, Url, UrlRest, World, Env}
use kite_rail.Proxy.Handler.{Handler, Request, read_body, complete, serve_http, ledger_entry}
use kite_rail.Proxy.Handler.Mediation.{Quiet, Mediated, serve_http-Mediated}
use kite_rail.Proxy.Handler.FailsClosed.{Understood, Refused, serve_http-Refused, unaudited_nothing}
use kite_rail.Proxy.Handler.Holds.{Quarantined, quarantine-Quarantined}
use kite_rail.Proxy.Handler.Authored.{with_engine, AllowedByPolicy, serve_http-AllowedByPolicy}

abbrev text : Text → Json.Value
text s = leaf (Json.string s)

-- {"name": "pay", "arguments": {}}
abbrev params : Fields
params =
    field (codes "name") (text (codes "pay"))
      (field (codes "arguments") (Json.object no_fields) no_fields)

-- {"jsonrpc": "2.0", "id": 7, "method": "tools/call", "params": …}
abbrev call : Fields
call = field (codes "jsonrpc") (text (codes "2.0")) (
    field (codes "id") (leaf (Json.number (codes "7"))) (
      field (codes "method") (text tools_call)
        (field (codes "params") (Json.object params) no_fields)))

-- A lexer that reads every body as this call.
abbrev reading : Text → Option (List Token)
reading body = some (flatten (Json.object call))

call_decoded : decode_object reading (codes "{}") ≡ ok call
unfolding decode_object flatten Json.decode_value Json.more Json.member_name Json.fresh Json.insert
    text_eq Json.end_object
call_decoded = refl

abbrev headers : Headers
headers =
    (codes "Authorization", codes "Bearer a" ∷ [])
    ∷ (codes "Mcp-Method", tools_call ∷ [])
    ∷ (codes "Mcp-Name", codes "pay" ∷ [])
    ∷ []

abbrev invocation : Invocation
invocation = record {
  protocol = codes "mcp";
  version = [];
  method = tools_call;
  name = codes "pay";
  tool = codes "pay";
  arguments = some no_fields;
  request_id = codes "7";
  response_id = some (Json.number (codes "7"));
}

call_parsed : parse reading headers (codes "{}") ≡ parsed invocation
unfolding parse validate_ingress decode_object flatten Json.decode_value Json.more Json.member_name
    Json.fresh Json.insert text_eq Json.end_object Json.lookup kite_rail.Proxy.Ingress.as_string
    kite_rail.Proxy.Ingress.name_field kite_rail.Proxy.Ingress.id_text
    kite_rail.Proxy.Mirrored.validate_mirrored_headers kite_rail.Proxy.Mirrored.single_header
    kite_rail.Proxy.Mirrored.equal_fold kite_rail.Prelude.Headers.to_lower
    kite_rail.Proxy.Mirrored.decode_header_name kite_rail.Prelude.Text.strip_suffix
call_parsed = refl

call_method : lookup (codes "Mcp-Method") headers ≡ some (tools_call ∷ [])
unfolding lookup text_eq
call_method = refl

parse-Mirrors_example : Mirrors (codes "Mcp-Method") (tools_call ∷ []) tools_call (codes "pay") []
parse-Mirrors_example =
    parse-Mirrors reading headers (codes "{}") (codes "Mcp-Method") (tools_call ∷ []) invocation
      call_parsed call_method

validate_ingress-Faithful_example :
    Faithful (decode_object reading (codes "{}")) (validate_ingress reading (codes "{}"))
validate_ingress-Faithful_example = validate_ingress-Faithful reading (codes "{}")

abbrev url_rest : UrlRest
url_rest = record { opaque = []; user = []; force_query = false }

abbrev target : Url
target = record {
  scheme = codes "https";
  host = codes "upstream";
  path = codes "/mcp";
  raw_path = [];
  raw_query = [];
}

abbrev handler : Handler
handler = record {
  target = target;
  target_auth_token = codes "t";
  has_ledger = true;
  max_body_bytes = 100;
  sha256 = λ s. s;
  lex = reading;
  prepare = λ h. h;
}

abbrev request : Request
request = record {
  method = post;
  url = target;
  url_rest = url_rest;
  headers = headers;
  bytes = codes "{}";
  broken = false;
  identity = some (record { id = codes "a1"; role = agent });
}

abbrev decision : Action → ProxyDecision
decision action = record {
  action = action;
  rule = codes "r";
  explanation = [];
  policy_version = codes "v";
}

-- An environment in which each evaluation has this decision.
abbrev deciding : ProxyDecision → Bool → Env
deciding d fails = record {
  now = λ n. zero_time;
  evaluate = λ n input. some d;
  ledger_fails = λ n. fails;
  create = λ n. some (codes "q1");
  upstream = λ n. none;
}

abbrev empty_world : World
empty_world = record { history = []; calls = 0 }

request_read : read_body 100 request ≡ complete (codes "{}")
unfolding read_body
request_read = refl

serve_http-Mediated_example :
    Mediated
      (deciding (decision allow) false)
      handler
      request
      empty_world
      (serve_http (deciding (decision allow) false) handler request empty_world).1
serve_http-Mediated_example =
    serve_http-Mediated (deciding (decision allow) false) handler request empty_world

serve_http-Refused_example :
    Understood handler request
    ⊎ Refused empty_world (serve_http (deciding (decision allow) false) handler request empty_world)
serve_http-Refused_example =
    serve_http-Refused (deciding (decision allow) false) handler request empty_world

unaudited_nothing_example :
    (serve_http (deciding (decision allow) true) handler request empty_world).1.history ≡ []
unaudited_nothing_example =
    unaudited_nothing (deciding (decision allow) true) handler (λ n. refl) refl request empty_world

quarantine-Quarantined_example :
    Quarantined
      (deciding (decision quarantine) false)
      handler
      request
      invocation
      (decision quarantine)
      (ledger_entry handler.sha256
        (codes "a1")
        invocation
        (codes "{}")
        (decision quarantine)
        zero_time)
      3
      []
      (serve_http (deciding (decision quarantine) false) handler request empty_world)
unfolding Auth.agent_from_context
quarantine-Quarantined_example =
    quarantine-Quarantined (deciding (decision quarantine) false) handler request empty_world
      invocation (decision quarantine) refl request_read call_parsed refl refl

-- An engine whose policy allows everything.
abbrev engine : Engine EvalInput
engine = record {
  query = record {
    modules = [];
    eval = λ input. result (
        object
          ((codes "action", string (codes "allow")) ∷ (codes "rule", string (codes "r")) ∷ []));
  };
  ready = true;
  version = codes "v";
}

serve_http-AllowedByPolicy_example :
    let env = deciding (decision allow) false in
    Quiet env handler empty_world
      (serve_http (with_engine (λ n. engine) env) handler request empty_world).1
    ⊎ AllowedByPolicy (λ n. engine) env handler request empty_world
serve_http-AllowedByPolicy_example =
    serve_http-AllowedByPolicy (λ n. engine) (deciding (decision allow) false) handler request
      empty_world

headers-TokenNames : TokenNames headers
unfolding all_tokens
headers-TokenNames = (refl, (refl, (refl, tt)))

policy_recheck-captured_example :
    policy_recheck reading
      (λ input. some (decision allow))
      zero_time
      (codes "a1")
      (codes "{}")
      (captured 3 headers)
    ≡ some (decision allow)
policy_recheck-captured_example =
    policy_recheck-captured reading (λ input. some (decision allow)) zero_time (codes "a1")
      (codes "{}") headers invocation 3 headers-TokenNames call_parsed
