-- ===== src/Proxy/Handler/Holds.antt =====
-- What becomes of a request that the policy quarantines.
use kite_rail.Prelude.{
  ℕ, ◌+◌, ◌≡◌, ◌⊎◌, refl, sym, subst, inl, inr, Bool, true, false, not, ◌&&◌, if◌then◌else◌, Option,
  none, some, List, ◌∷◌, Bool-cases,
}
use kite_rail.Prelude.Text.{Text, codes}
use kite_rail.Prelude.Http.{is_post}
use kite_rail.Policy.{quarantine, ProxyDecision}
use kite_rail.Ledger.Timestamp.{Time}
use kite_rail.Ledger.Entry.{LedgerEntry}
use kite_rail.Proxy.Adapter.{Invocation, parsed, parse, Response, write_quarantine}
use kite_rail.Proxy.World.{Effect, held, World, Env, on_ledger, on_store}
use kite_rail.Proxy.Handler.{
  Handler, Request, complete, read_body, eval_input, ledger_entry, agent_of, http_error,
  internal_error, held_item, append_entry, store_failed, after_create, hold, enforce, after_append,
  decide, after_evaluate, evaluate, after_parse, after_read, serve_http,
}
use kite_rail.Proxy.Handler.Mediation.{audit}

-- The entry that says that an item was not stored.
abbrev pub failure : LedgerEntry → Time → LedgerEntry
failure entry now = record entry { timestamp = now; decision = codes "quarantine_store_failed" }

module _ (env : Env) (h : Handler) where
  -- Whether the ledger refuses an entry that is appended at this call, and the call behind it.
  abbrev pub refuses : ℕ → Bool
  refuses n = h.has_ledger && env.ledger_fails n

  abbrev pub next_call : ℕ → ℕ
  next_call n = if h.has_ledger then n + 1 else n

  -- The history behind an entry that is appended at this call.
  abbrev pub recorded : ℕ → LedgerEntry → List Effect → List Effect
  recorded n entry history = if refuses n then history else audit env h entry history

  append_entry-Exact :
      (entry : LedgerEntry) (w : World)
      → let (accepted, v) = append_entry env h entry w in
        (accepted ≡ not (refuses w.calls))
        × (v.calls ≡ next_call w.calls)
        × (v.history ≡ recorded w.calls entry w.history)
  unfolding append_entry on_ledger
  append_entry-Exact entry w = elim (Bool-cases h.has_ledger) [
    | inr none_there ↦ rw none_there (refl, refl, refl)
    | inl has ↦ elim (Bool-cases (env.ledger_fails w.calls)) [
      | inl fails ↦ rw (has, fails) (refl, refl, refl)
      | inr works ↦ rw (has, works) (refl, refl, refl)
    ]
  ]

  -- The item was stored, at this call, and its id answered; or it was not, the answer is an error,
  -- and the failure is on record if the ledger has taken it.
  abbrev pub HeldOrRecorded :
      Request
      → Invocation
      → ProxyDecision
      → LedgerEntry
      → ℕ
      → List Effect
      → Response × World
      → Type 0
  HeldOrRecorded r inv d entry n history answer =
      ((id : Text) × (env.create n ≡ some id)
        × (answer.0 ≡ write_quarantine r.headers inv id d)
        × (answer.1.history ≡ held (held_item env h r r.bytes inv d id) ∷ history))
      ⊎ ((env.create n ≡ none)
          × (answer.0 ≡ internal_error)
          × (answer.1.history ≡ recorded (n + 1 + 1) (failure entry (env.now (n + 1))) history))

  -- The store was asked at the call before.
  store_failed-Recorded :
      (r : Request) (inv : Invocation) (d : ProxyDecision) (entry : LedgerEntry) (w : World)
      → env.create w.calls ≡ none
      → HeldOrRecorded r inv d entry w.calls w.history
          (store_failed env h entry (record w { calls = w.calls + 1 }))
  unfolding store_failed
  store_failed-Recorded r inv d entry w missing =
      let e = failure entry (env.now (w.calls + 1)) in
      inr (missing, refl, (append_entry-Exact e (record w { calls = w.calls + 1 + 1 })).2)

  hold-HeldOrRecorded :
      (r : Request) (inv : Invocation) (d : ProxyDecision) (entry : LedgerEntry) (w : World)
      → HeldOrRecorded r inv d entry w.calls w.history (hold env h r r.bytes inv entry d w)
  unfolding hold on_store after_create
  hold-HeldOrRecorded r inv d entry w = by_id (env.create w.calls) refl
    where
      by_id :
          (o : Option Text)
          → env.create w.calls ≡ o
          → let stored = elim o as (λ _. Option Text × World) [
            | none ↦ (none, record w { calls = w.calls + 1 })
            | some id ↦ (
              some id,
              record {
                history = held (held_item env h r r.bytes inv d id) ∷ w.history;
                calls = w.calls + 1;
              },
            )
          ] in
            HeldOrRecorded r inv d entry w.calls w.history
              (after_create env h r inv entry d stored.0 stored.1)
      by_id none e = store_failed-Recorded r inv d entry w e
      by_id (some id) e = inl (id, e, refl, refl)

  -- The ledger refuses the entry at this call and nothing has happened, or it takes the entry, and
  -- the item is held at the call behind that.
  abbrev pub Quarantined :
      Request
      → Invocation
      → ProxyDecision
      → LedgerEntry
      → ℕ
      → List Effect
      → Response × World
      → Type 0
  Quarantined r inv d entry n history answer =
      ((refuses n ≡ true)
        × (answer.0 ≡ http_error 503 (codes "audit unavailable"))
        × (answer.1.history ≡ history))
      ⊎ ((refuses n ≡ false)
          × HeldOrRecorded r inv d entry (next_call n) (audit env h entry history) answer)

  after_append-Quarantined :
      (r : Request) (inv : Invocation) (d : ProxyDecision) (entry : LedgerEntry) (n : ℕ)
      (history : List Effect) (accepted : Bool) (v : World)
      → d.action ≡ quarantine
      → accepted ≡ not (refuses n)
      → v.calls ≡ next_call n
      → v.history ≡ recorded n entry history
      → Quarantined r inv d entry n history (after_append env h r r.bytes inv entry d accepted v)
  unfolding after_append enforce
  after_append-Quarantined r inv d entry n history false v a e at past =
      elim (Bool-cases (refuses n)) [
        | inl refused ↦ inl (refused, refl, rw refused at past)
        | inr taken ↦ cc (rw taken at e)
      ]
  after_append-Quarantined r inv d entry n history true v a e at past =
      elim (Bool-cases (refuses n)) [
        | inl refused ↦ cc (rw refused at e)
        | inr taken ↦ inr (
          taken,
          subst
              (λ b.
                HeldOrRecorded r inv d entry (next_call n) (audit env h entry history)
                  (enforce env h b r r.bytes inv entry d v))
              (sym a)
              (subst
                (λ m.
                  HeldOrRecorded r inv d entry m (audit env h entry history)
                    (hold env h r r.bytes inv entry d v))
                at
                (subst
                  (λ l. HeldOrRecorded r inv d entry v.calls l (hold env h r r.bytes inv entry d v))
                  (rw taken at past) (hold-HeldOrRecorded r inv d entry v))),
        )
      ]

  decide-Quarantined :
      (r : Request) (inv : Invocation) (d : ProxyDecision) (w : World)
      → d.action ≡ quarantine
      → Quarantined r inv d
          (ledger_entry h.sha256 (agent_of r) inv r.bytes d (env.now w.calls))
          (w.calls + 1)
          w.history
          (decide env h r r.bytes inv d w)
  unfolding decide
  decide-Quarantined r inv d w a =
      let entry = ledger_entry h.sha256 (agent_of r) inv r.bytes d (env.now w.calls) in
      let v = record w { calls = w.calls + 1 } in
      let exact = append_entry-Exact entry v in
      after_append-Quarantined r inv d entry (w.calls + 1) w.history (append_entry env h entry v).0
        (append_entry env h entry v).1 a exact.0 exact.1 exact.2

  -- A POST within the size limit that parses and that the policy quarantines is never sent upstream.
  -- If a ledger is configured and refuses the entry of the decision, the answer is 503 and nothing has
  -- happened. Otherwise the entry is on the ledger, if there is one, and the store is asked to hold
  -- the request. If it returns an id, exactly one item is held under it, with the whole body, the
  -- headers for its replay and the rule, and the answer carries that id. If it fails, the answer is an
  -- error and nothing is held, and the failure is on record exactly if the ledger takes the entry that
  -- reports it.
  pub quarantine-Quarantined :
      (r : Request) (w : World) (inv : Invocation) (d : ProxyDecision)
      → is_post r.method ≡ true
      → read_body h.max_body_bytes r ≡ complete r.bytes
      → parse h.lex r.headers r.bytes ≡ parsed inv
      → env.evaluate (w.calls + 1) (eval_input (agent_of r) (env.now w.calls) inv) ≡ some d
      → d.action ≡ quarantine
      → Quarantined r inv d
          (ledger_entry h.sha256 (agent_of r) inv r.bytes d (env.now (w.calls + 1 + 1)))
          (w.calls + 1 + 1 + 1)
          w.history
          (serve_http env h r w)
  unfolding serve_http after_read after_parse evaluate after_evaluate
  quarantine-Quarantined r w inv d posted within_limit understood decided a =
      rw (posted, within_limit, after_read, understood, after_parse, decided)
        (decide-Quarantined r inv d (record w { calls = w.calls + 1 + 1 }) a)
