-- ===== src/Proxy/Handler/Mediation.antt =====
-- What `ServeHTTP` may send upstream.
use kite_rail.Prelude.{
  ◌+◌, ◌≡◌, ◌⊎◌, refl, sym, subst, inl, inr, ◌∙◌, arith, Bool, true, false, Option, none, some,
  List, [], ◌∷◌, Bool-cases, Option-cases, if◌then◌else◌, ap,
}
use kite_rail.Prelude.Text.{Text}
use kite_rail.Prelude.Http.{is_post}
use kite_rail.Policy.{Action, allow, deny, quarantine, other, ProxyDecision}
use kite_rail.Ledger.Entry.{LedgerEntry}
use kite_rail.Proxy.Adapter.{Invocation, Parsed, parsed, rejected, parse}
use kite_rail.Proxy.World.{
  Held, Outgoing, Effect, audited, forwarded, held, World, Env, on_ledger, on_store, round_trip,
}
use kite_rail.Proxy.Handler.FailsClosed.{complete_bytes}
use kite_rail.Proxy.Handler.{
  after_create, after_append, after_evaluate, Handler, Request, Reading, over_limit, failed,
  complete, read_body, eval_input, ledger_entry, agent_of, outgoing, forward, append_entry,
  store_failed, hold, enforce, decide, evaluate, after_parse, after_read, serve_http,
}

-- The requests that have been sent upstream.
unfoldable pub forwards : List Effect → List Outgoing
forwards [] = []
forwards (forwarded out ∷ history) = out ∷ forwards history
forwards (audited entry ∷ history) = forwards history
forwards (held item ∷ history) = forwards history

module _ (env : Env) (h : Handler) where
  -- The history with the entry of a decision, if there is a ledger.
  abbrev pub audit : LedgerEntry → List Effect → List Effect
  audit entry history = if h.has_ledger then audited entry ∷ history else history

  -- The step between two worlds sends nothing upstream.
  abbrev pub Quiet : World → World → Type 0
  Quiet w w' = forwards w'.history ≡ forwards w.history

  -- The request was understood, the policy allowed exactly it, and its audit entry was accepted right
  -- before it was sent.
  pub record Allowed (r : Request) (w w' : World) : Type 0 where
    pub inv : Invocation
    pub decision : ProxyDecision
    pub posted : is_post r.method ≡ true
    pub within_limit : read_body h.max_body_bytes r ≡ complete r.bytes
    pub understood : parse h.lex r.headers r.bytes ≡ parsed inv
    pub decided :
        env.evaluate (w.calls + 1) (eval_input (agent_of r) (env.now w.calls) inv) ≡ some decision
    pub allowed : decision.action ≡ allow
    pub executed :
        w'.history
        ≡ forwarded (outgoing env h r r.bytes)
          ∷ audit
              (ledger_entry h.sha256 (agent_of r) inv r.bytes decision (env.now (w.calls + 1 + 1)))
              w.history

  abbrev pub Mediated : Request → World → World → Type 0
  Mediated r w w' = Quiet w w' ⊎ Allowed r w w'

  append_entry-Quiet : (entry : LedgerEntry) (w : World) → Quiet w (append_entry env h entry w).1
  unfolding append_entry on_ledger forwards
  append_entry-Quiet entry w = ground arith

  store_failed-Quiet : (entry : LedgerEntry) (w : World) → Quiet w (store_failed env h entry w).1
  unfolding store_failed
  store_failed-Quiet entry w = append_entry-Quiet _ _

  on_store-Quiet : (item : Text → Held) (w : World) → Quiet w (on_store env item w).1
  unfolding on_store forwards
  on_store-Quiet item w = elim (Option-cases (env.create w.calls)) [
    | inl e ↦ rw (e, on_store) refl
    | inr (id, e) ↦ rw (e, on_store) refl
  ]

  after_create-Quiet :
      (r : Request) (inv : Invocation) (entry : LedgerEntry) (d : ProxyDecision) (o : Option Text)
      (w : World)
      → Quiet w (after_create env h r inv entry d o w).1
  unfolding after_create
  after_create-Quiet r inv entry d none w = store_failed-Quiet entry w
  after_create-Quiet r inv entry d (some id) w = refl

  hold-Quiet :
      (r : Request) (body : Text) (inv : Invocation) (entry : LedgerEntry) (d : ProxyDecision)
      (w : World)
      → Quiet w (hold env h r body inv entry d w).1
  unfolding hold
  hold-Quiet r body inv entry d w = after_create-Quiet r inv entry d _ _ ∙ on_store-Quiet _ w

  -- The entry of a decision is written if `append_entry` accepts it.
  pub append_entry-audit :
      (entry : LedgerEntry) (w : World)
      → (append_entry env h entry w).0 ≡ true
      → (append_entry env h entry w).1.history ≡ audit entry w.history
  unfolding append_entry on_ledger
  append_entry-audit entry w e = ground arith

  -- What is enforced: an allow sends the request behind what was written before, all else is quiet.
  abbrev Enforced : Action → Request → Text → World → World → Type 0
  Enforced allow r body w w' = w'.history ≡ forwarded (outgoing env h r body) ∷ w.history
  Enforced _ r body w w' = Quiet w w'

  enforce-Enforced :
      (a : Action) (r : Request) (body : Text) (inv : Invocation) (entry : LedgerEntry)
      (d : ProxyDecision) (w : World)
      → Enforced a r body w (enforce env h a r body inv entry d w).1
  unfolding enforce forward round_trip
  enforce-Enforced allow r body inv entry d w = refl
  enforce-Enforced deny r body inv entry d w = refl
  enforce-Enforced quarantine r body inv entry d w = hold-Quiet r body inv entry d w
  enforce-Enforced (other s) r body inv entry d w = refl

  -- A decision is quiet, or it is an allow that was written and executed.
  abbrev Decided : Request → Text → LedgerEntry → ProxyDecision → World → World → Type 0
  Decided r body entry d w w' =
      Quiet w w'
      ⊎ ((d.action ≡ allow)
          × (w'.history ≡ forwarded (outgoing env h r body) ∷ audit entry w.history))

  after_append-Decided :
      (r : Request) (body : Text) (inv : Invocation) (entry : LedgerEntry) (d : ProxyDecision)
      (accepted : Bool) (w v : World)
      → Quiet w v
      → (accepted ≡ true → v.history ≡ audit entry w.history)
      → Decided r body entry d w (after_append env h r body inv entry d accepted v).1
  unfolding after_append
  after_append-Decided r body inv entry d false w v quiet written = inl quiet
  after_append-Decided r body inv entry d true w v quiet written =
      by_action d.action refl _ (enforce-Enforced d.action r body inv entry d v)
    where
      by_action :
          (a : Action)
          → d.action ≡ a
          → (v' : World) → Enforced a r body v v'
          → Decided r body entry d w v'
      by_action allow e v' sent =
          inr (e, sent ∙ ap (λ x. forwarded (outgoing env h r body) ∷ x) (written refl))
      by_action deny e v' sent = inl (sent ∙ quiet)
      by_action quarantine e v' sent = inl (sent ∙ quiet)
      by_action (other s) e v' sent = inl (sent ∙ quiet)

  decide-Decided :
      (r : Request) (body : Text) (inv : Invocation) (d : ProxyDecision) (w : World)
      → Decided r body
          (ledger_entry h.sha256 (agent_of r) inv body d (env.now w.calls))
          d
          w
          (decide env h r body inv d w).1
  unfolding decide
  decide-Decided r body inv d w =
      let entry = ledger_entry h.sha256 (agent_of r) inv body d (env.now w.calls) in
      let v = record w { calls = w.calls + 1 } in
      after_append-Decided r body inv entry d (append_entry env h entry v).0 w
        (append_entry env h entry v).1 (append_entry-Quiet entry v) (append_entry-audit entry v)

  evaluate-Mediated :
      (r : Request) (inv : Invocation) (w : World)
      → is_post r.method ≡ true
      → read_body h.max_body_bytes r ≡ complete r.bytes
      → parse h.lex r.headers r.bytes ≡ parsed inv
      → Mediated r w (evaluate env h r r.bytes inv w).1
  unfolding evaluate after_evaluate
  evaluate-Mediated r inv w posted within_limit understood =
      known (env.evaluate (w.calls + 1) (eval_input (agent_of r) (env.now w.calls) inv)) refl
    where
      known :
          (o : Option ProxyDecision)
          → env.evaluate (w.calls + 1) (eval_input (agent_of r) (env.now w.calls) inv) ≡ o
          → Mediated r w
              (after_evaluate env h r r.bytes inv o (record w { calls = w.calls + 1 + 1 })).1
      known none e = inl refl
      known (some d) e =
          elim (decide-Decided r r.bytes inv d (record w { calls = w.calls + 1 + 1 })) [
            | inl quiet ↦ inl quiet
            | inr sent ↦ inr (record {
              inv = inv;
              decision = d;
              posted = posted;
              within_limit = within_limit;
              understood = understood;
              decided = e;
              allowed = sent.0;
              executed = sent.1;
            })
          ]

  after_parse-Mediated :
      (r : Request) (p : Parsed) (w : World)
      → is_post r.method ≡ true
      → read_body h.max_body_bytes r ≡ complete r.bytes
      → parse h.lex r.headers r.bytes ≡ p
      → Mediated r w (after_parse env h r r.bytes p w).1
  unfolding after_parse
  after_parse-Mediated r (rejected e) w posted within_limit understood = inl refl
  after_parse-Mediated r (parsed inv) w posted within_limit understood =
      evaluate-Mediated r inv w posted within_limit understood

  after_read-Mediated :
      (r : Request) (reading : Reading) (w : World)
      → is_post r.method ≡ true
      → read_body h.max_body_bytes r ≡ reading
      → Mediated r w (after_read env h r reading w).1
  unfolding after_read
  after_read-Mediated r over_limit w posted e = inl refl
  after_read-Mediated r failed w posted e = inl refl
  after_read-Mediated r (complete body) w posted e =
      let same = complete_bytes env h r body e in
      subst (λ b. Mediated r w (after_parse env h r b (parse h.lex r.headers b) w).1) same
        (after_parse-Mediated r _ w posted (e ∙ ap complete (sym same)) refl)

-- Whatever the environment does and whatever was done before, a request leads to nothing being sent
-- upstream, or to exactly one request being sent and: it is a POST within the size limit, it
-- parses, the policy has allowed the very input that it parses to, and what it does to the history
-- is to append the audit entry of that decision, if there is a ledger, and then the outgoing
-- request with the body that was checked.
pub serve_http-Mediated :
    (env : Env) (h : Handler) (r : Request) (w : World)
    → Mediated env h r w (serve_http env h r w).1
unfolding serve_http
serve_http-Mediated env h r w = elim (Bool-cases (is_post r.method)) [
  | inl posted ↦ rw posted (after_read-Mediated env h r _ w posted refl)
  | inr other_method ↦ rw other_method (inl refl)
]
