-- ===== src/Proxy/Handler.antt =====
-- `ServeHTTP` of backend/internal/proxy/proxy.go. Logging, metrics, latencies, write deadlines and the
-- event publisher, which is a no-op in the server, are left out.
pub mod Mediation
pub mod FailsClosed
pub mod Holds
pub mod Authored
use kite_rail.Prelude.{
  ℕ, Bool, true, false, ltb, length, Option, none, some, List, [], ◌∷◌, ◌++◌, if◌then◌else◌,
}
use kite_rail.Prelude.Text.{Text, codes}
use kite_rail.Prelude.Headers.{Headers}
use kite_rail.Prelude.Http.{Method, is_post}
use kite_rail.Policy.{Action, allow, deny, quarantine, other, ProxyDecision}
use kite_rail.Auth.{Identity, agent_from_context}
use kite_rail.Mcp.Headers.{capture_replay_headers}
use kite_rail.Mcp.Json.{Token}
use kite_rail.Ledger.Timestamp.{Time}
use kite_rail.Ledger.Entry.{LedgerEntry}
use kite_rail.Quarantine.World.{payload_hash}
use kite_rail.Proxy.Adapter.{
  Invocation, IngressError, Parsed, parsed, rejected, invalid_request, post_only, too_large,
  unreadable, parse, Response, plain, ingress_error, write_ingress_error, write_deny,
  write_quarantine,
}
use kite_rail.Proxy.World.{
  EvalInput, Url, UrlRest, Outgoing, Held, World, Env, M, pure, ◌>>=◌, ◌>>◌, ask, on_ledger,
  on_store, round_trip,
}
use kite_rail.Proxy.Upstream.{rewrite}

-- The fields of `Handler`. `lex` gives the JSON tokens of a body, and `prepare` what the reverse proxy
-- of net/http/httputil copies of the incoming headers before `Rewrite`.
pub record Handler : Type 0 where
  pub target : Url
  pub target_auth_token : Text
  pub has_ledger : Bool
  pub max_body_bytes : ℕ
  pub sha256 : Text → Text
  pub lex : Text → Option (List Token)
  pub prepare : Headers → Headers

-- A request: the bytes that its body delivers, whether reading it then fails, and the identity in
-- its context.
pub record Request : Type 0 where
  pub method : Method
  pub url : Url
  pub url_rest : UrlRest
  pub headers : Headers
  pub bytes : Text
  pub broken : Bool
  pub identity : Option Identity

-- `io.ReadAll` of the body behind `http.MaxBytesReader`.
pub data Reading : Type 0 where
  over_limit failed : Reading
  complete : Text → Reading

unfoldable pub read_body : ℕ → Request → Reading
read_body limit r =
    if ltb limit (length r.bytes) then over_limit else if r.broken then failed else complete r.bytes

-- `http.Error`
abbrev pub http_error : ℕ → Text → Response
http_error status message = record { status = status; headers = []; body = plain message }

abbrev pub internal_error : Response
internal_error = http_error 500 (codes "Internal Server Error")

abbrev pub action_text : Action → Text
action_text allow = codes "allow"
action_text deny = codes "deny"
action_text quarantine = codes "quarantine"
action_text (other s) = s

unfoldable pub eval_input : Text → Time → Invocation → EvalInput
eval_input agent now inv = record {
  protocol = inv.protocol;
  version = inv.version;
  tool = inv.tool;
  arguments = inv.arguments;
  agent = agent;
  timestamp = now;
  raw_method = inv.method;
}

-- The entry of a decision; the fields that it leaves out are zero.
unfoldable pub ledger_entry :
    (Text → Text) → Text → Invocation → Text → ProxyDecision → Time → LedgerEntry
ledger_entry sha256 agent inv body d now = record {
  seq_num = 0;
  timestamp = now;
  agent = agent;
  tool = inv.tool;
  decision = action_text d.action;
  policy_rule = d.rule;
  payload_hash = payload_hash sha256 body;
  prev_hash = [];
  hash = [];
  request_id = inv.request_id;
  policy_version = d.policy_version;
}

abbrev pub agent_of : Request → Text
agent_of r = agent_from_context r.identity

unfoldable pub answer_of : Option Response → Response
answer_of none = http_error 502 (codes "upstream unavailable")
answer_of (some response) = response

module _ (env : Env) (h : Handler) where
  -- What the reverse proxy sends.
  unfoldable pub outgoing : Request → Text → Outgoing
  outgoing r body =
      rewrite h.target h.target_auth_token (agent_of r)
        (record { url = r.url; url_rest = r.url_rest; headers = h.prepare r.headers; body = body })

  unfoldable pub forward : Request → Text → M Response
  unfolding outgoing answer_of
  forward r body = do answer ← round_trip env (outgoing r body); pure (answer_of answer)

  -- `Append` of an entry, if there is a ledger.
  unfoldable pub append_entry : LedgerEntry → M Bool
  append_entry entry = if h.has_ledger then on_ledger env entry else pure true

  -- The entry that records that a held item was not stored.
  unfoldable pub store_failed : LedgerEntry → M Response
  unfolding append_entry
  store_failed entry = do
    now ← ask env.now
    accepted ←
        append_entry (record entry { timestamp = now; decision = codes "quarantine_store_failed" })
    pure internal_error

  unfoldable pub after_create :
      Request → Invocation → LedgerEntry → ProxyDecision → Option Text → M Response
  unfolding store_failed
  after_create r inv entry d none = store_failed entry
  after_create r inv entry d (some id) = pure (write_quarantine r.headers inv id d)

  -- What the store is asked to hold.
  abbrev pub held_item : Request → Text → Invocation → ProxyDecision → Text → Held
  held_item r body inv d id = record {
    agent = agent_of r;
    tool = inv.tool;
    payload = body;
    headers = capture_replay_headers r.headers;
    rule = d.rule;
    explanation = d.explanation;
    id = id;
  }

  unfoldable pub hold : Request → Text → Invocation → LedgerEntry → ProxyDecision → M Response
  unfolding after_create
  hold r body inv entry d = on_store env (held_item r body inv d) >>= after_create r inv entry d

  -- The `switch` on the action.
  unfoldable pub enforce :
      Action → Request → Text → Invocation → LedgerEntry → ProxyDecision → M Response
  unfolding forward hold
  enforce allow r body inv entry d = forward r body
  enforce deny r body inv entry d = pure (write_deny r.headers inv d)
  enforce quarantine r body inv entry d = hold r body inv entry d
  enforce (other s) r body inv entry d = pure internal_error

  -- What follows the attempt to write the entry.
  unfoldable pub after_append :
      Request → Text → Invocation → LedgerEntry → ProxyDecision → Bool → M Response
  unfolding enforce
  after_append r body inv entry d false = pure (http_error 503 (codes "audit unavailable"))
  after_append r body inv entry d true = enforce d.action r body inv entry d

  unfoldable pub decide : Request → Text → Invocation → ProxyDecision → M Response
  unfolding after_append
  decide r body inv d = do
    now ← ask env.now
    let entry = ledger_entry h.sha256 (agent_of r) inv body d now
    append_entry entry >>= after_append r body inv entry d

  unfoldable pub after_evaluate : Request → Text → Invocation → Option ProxyDecision → M Response
  unfolding decide
  after_evaluate r body inv none = pure internal_error
  after_evaluate r body inv (some d) = decide r body inv d

  unfoldable pub evaluate : Request → Text → Invocation → M Response
  unfolding after_evaluate
  evaluate r body inv = do
    now ← ask env.now
    ask (λ n. env.evaluate n (eval_input (agent_of r) now inv)) >>= after_evaluate r body inv

  unfoldable pub after_parse : Request → Text → Parsed → M Response
  unfolding evaluate
  after_parse r body (rejected e) = pure (write_ingress_error e)
  after_parse r body (parsed inv) = evaluate r body inv

  unfoldable pub after_read : Request → Reading → M Response
  unfolding after_parse
  after_read r over_limit = pure (ingress_error 413 invalid_request too_large none)
  after_read r failed = pure (ingress_error 400 invalid_request unreadable none)
  after_read r (complete body) = after_parse r body (parse h.lex r.headers body)

  unfoldable pub serve_http : Request → M Response
  unfolding after_read
  serve_http r =
      if is_post r.method
      then after_read r (read_body h.max_body_bytes r)
      else pure (ingress_error 405 invalid_request post_only none)
