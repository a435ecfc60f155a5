-- ===== src/Proxy/Handler/FailsClosed.antt =====
-- Requests that are not understood, and requests that cannot be audited.
use kite_rail.Prelude.{
  ℕ, ◌+◌, ◌≡◌, ◌⊎◌, refl, sym, ◌∙◌, ap, subst, inl, inr, true, false, Option, none, some,
  Bool-cases, arith,
}
use kite_rail.Prelude.Text.{Text}
use kite_rail.Prelude.Http.{is_post}
use kite_rail.Policy.{ProxyDecision}
use kite_rail.Ledger.Entry.{LedgerEntry}
use kite_rail.Mcp.Json.{Scalar}
use kite_rail.Prelude.Headers.{Headers}
use kite_rail.Proxy.Ingress.{Validated, valid, invalid}
use kite_rail.Proxy.Mirrored.{HeaderReason}
use kite_rail.Proxy.Adapter.{
  Invocation, Parsed, parsed, rejected, parse, parse_validated, parse_headers, Response, Code,
  Message, ingress_error, write_ingress_error,
}
use kite_rail.Proxy.World.{World, Env, on_ledger}
use kite_rail.Proxy.Handler.{
  Handler, Request, Reading, over_limit, failed, complete, read_body, eval_input, ledger_entry,
  agent_of, append_entry, after_append, decide, after_evaluate, evaluate, after_parse, after_read,
  serve_http,
}

-- The request is a POST within the size limit that parses to an invocation.
pub record Understood (h : Handler) (r : Request) : Type 0 where
  pub inv : Invocation
  pub posted : is_post r.method ≡ true
  pub within_limit : read_body h.max_body_bytes r ≡ complete r.bytes
  pub understood : parse h.lex r.headers r.bytes ≡ parsed inv

-- A JSON-RPC error with one of the three statuses, behind which nothing has happened.
pub record Refused (w : World) (answer : Response × World) : Type 0 where
  pub status : ℕ
  pub code : Code
  pub message : Message
  pub id : Option Scalar
  pub replied : answer ≡ (ingress_error status code message id, w)
  pub client_error : (status ≡ 400) ⊎ ((status ≡ 405) ⊎ (status ≡ 413))

abbrev Is400 : Parsed → Type 0
Is400 (parsed inv) = Unit
Is400 (rejected e) = e.status ≡ 400

parse_validated-Is400 : (header : Headers) (v : Validated) → Is400 (parse_validated header v)
unfolding parse_validated parse_headers
parse_validated-Is400 header (invalid reason id) = refl
parse_validated-Is400 header (valid ing) = by_reason _
  where
    by_reason : (o : Option HeaderReason) → Is400 (parse_headers header ing o)
    by_reason none = tt
    by_reason (some e) = refl

module _ (env : Env) (h : Handler) where
  abbrev Answered : Request → World → Response × World → Type 0
  Answered r w answer = Understood h r ⊎ Refused w answer

  after_parse-Answered :
      (r : Request) (p : Parsed) (w : World)
      → is_post r.method ≡ true
      → read_body h.max_body_bytes r ≡ complete r.bytes
      → parse h.lex r.headers r.bytes ≡ p
      → Is400 p
      → Answered r w (after_parse env h r r.bytes p w)
  unfolding after_parse write_ingress_error
  after_parse-Answered r (rejected e) w posted within_limit understood bad = inr (record {
    status = e.status;
    code = e.code;
    message = e.message;
    id = e.response_id;
    replied = refl;
    client_error = inl bad;
  })
  after_parse-Answered r (parsed inv) w posted within_limit understood bad =
      inl (record {
        inv = inv;
        posted = posted;
        within_limit = within_limit;
        understood = understood;
      })

  pub complete_bytes :
      (r : Request) (body : Text) → read_body h.max_body_bytes r ≡ complete body → r.bytes ≡ body
  unfolding read_body
  complete_bytes r body e = ground arith

  after_read-Answered :
      (r : Request) (reading : Reading) (w : World)
      → is_post r.method ≡ true
      → read_body h.max_body_bytes r ≡ reading
      → Answered r w (after_read env h r reading w)
  unfolding after_read parse
  after_read-Answered r over_limit w posted e = inr (record {
    status = 413;
    code = _;
    message = _;
    id = none;
    replied = refl;
    client_error = inr (inr refl);
  })
  after_read-Answered r failed w posted e = inr (record {
    status = 400;
    code = _;
    message = _;
    id = none;
    replied = refl;
    client_error = inl refl;
  })
  after_read-Answered r (complete body) w posted e =
      let same = complete_bytes r body e in
      subst (λ b. Answered r w (after_parse env h r b (parse h.lex r.headers b) w)) same
        (after_parse-Answered r _ w posted (e ∙ ap complete (sym same)) refl
          (parse_validated-Is400 r.headers _))

-- A request is understood, or it is refused: the answer is a JSON-RPC error with status 400, 405 or
-- 413, nothing has been written, held or sent, and no other component has been called.
pub serve_http-Refused :
    (env : Env) (h : Handler) (r : Request) (w : World)
    → Understood h r ⊎ Refused w (serve_http env h r w)
unfolding serve_http
serve_http-Refused env h r w = elim (Bool-cases (is_post r.method)) [
  | inl posted ↦ rw posted (after_read-Answered env h r _ w posted refl)
  | inr other_method ↦ rw other_method (
      inr (record {
        status = 405;
        code = _;
        message = _;
        id = none;
        replied = refl;
        client_error = inr (inl refl);
      }))
]

-- A ledger is configured, and it refuses every entry.
module _ (env : Env) (h : Handler) (down : (n : ℕ) → env.ledger_fails n ≡ true)
    (ledger : h.has_ledger ≡ true) where
  abbrev Untouched : World → World → Type 0
  Untouched w w' = w'.history ≡ w.history

  append_entry-down :
      (entry : LedgerEntry) (w : World)
      → ((append_entry env h entry w).0 ≡ false) × Untouched w (append_entry env h entry w).1
  unfolding append_entry on_ledger
  append_entry-down entry w = rw (ledger, down w.calls) (refl, refl)

  decide-Untouched :
      (r : Request) (body : Text) (inv : Invocation) (d : ProxyDecision) (w : World)
      → Untouched w (decide env h r body inv d w).1
  unfolding decide after_append
  decide-Untouched r body inv d w =
      let entry = ledger_entry h.sha256 (agent_of r) inv body d (env.now w.calls) in
      let v = record w { calls = w.calls + 1 } in
      let (refused, same) = append_entry-down entry v in rw refused same

  evaluate-Untouched :
      (r : Request) (body : Text) (inv : Invocation) (w : World)
      → Untouched w (evaluate env h r body inv w).1
  unfolding evaluate after_evaluate
  evaluate-Untouched r body inv w =
      known (env.evaluate (w.calls + 1) (eval_input (agent_of r) (env.now w.calls) inv))
    where
      known :
          (o : Option ProxyDecision)
          → Untouched w (after_evaluate env h r body inv o (record w { calls = w.calls + 1 + 1 })).1
      known none = refl
      known (some d) = decide-Untouched r body inv d _

  after_parse-Untouched :
      (r : Request) (body : Text) (p : Parsed) (w : World)
      → Untouched w (after_parse env h r body p w).1
  unfolding after_parse
  after_parse-Untouched r body (rejected e) w = refl
  after_parse-Untouched r body (parsed inv) w = evaluate-Untouched r body inv w

  after_read-Untouched :
      (r : Request) (reading : Reading) (w : World) → Untouched w (after_read env h r reading w).1
  unfolding after_read
  after_read-Untouched r over_limit w = refl
  after_read-Untouched r failed w = refl
  after_read-Untouched r (complete body) w = after_parse-Untouched r body _ w

  -- While the ledger refuses every entry, no request leads to anything: whatever the policy
  -- decides, nothing is sent upstream, nothing is held and nothing is written.
  pub unaudited_nothing : (r : Request) (w : World) → (serve_http env h r w).1.history ≡ w.history
  unfolding serve_http
  unaudited_nothing r w = elim (Bool-cases (is_post r.method)) [
    | inl posted ↦ rw posted (after_read-Untouched r _ w)
    | inr other_method ↦ rw other_method refl
  ]
