-- ===== src/Quarantine/Worker/Requests.antt =====
-- What one claim of a held action can hand to the HTTP client.
use kite_rail.Prelude.{
  ℕ, ◌≡◌, ◌⊎◌, refl, ◌∙◌, ap, inl, inr, Bool, true, false, ltb, leb, Option, none, some, ◌∷◌, ◌++◌,
  if◌then◌else◌, Bool-cases,
}
use kite_rail.Prelude.Text.{Text, codes}
use kite_rail.Prelude.Headers.{Headers, get}
use kite_rail.Quarantine.Worker.Metadata.{replay_headers-key}
use kite_rail.Mcp.Headers.{decode_replay_headers}
use kite_rail.Policy.{Action, allow, deny, quarantine, other, ProxyDecision}
use kite_rail.Quarantine.Store.{Result, ok, err, QuarantineEntry}
use kite_rail.Quarantine.World.{World, Post, Env, M, on_store, send, pure, ◌>>=◌}
use kite_rail.Quarantine.Worker.{
  Worker, Outcome, replayed_ok, failed, append_ledger, record_ledger, try_release, try_fail, settle,
  send_replay, do_replay, start_replay, current_decision, block, blocked_by_current_policy,
  is_blocked, process_claimed, approver,
}
use kite_rail.Quarantine.Worker.WriteAhead.Claim.{current_decision-history}
use kite_rail.Quarantine.Worker.Blocking.{
  posts, SendsNothing, on_store-SendsNothing, on_ledger-SendsNothing, record_ledger-SendsNothing,
  park_exhausted-SendsNothing, block-SendsNothing,
}

-- The newest call of the HTTP client, if there is a new one, is for the stored payload of this entry,
-- under the key that all its replays have.
abbrev pub AtMostOne : QuarantineEntry → World → World → Type 0
AtMostOne entry w v =
    (posts v.history ≡ posts w.history)
    ⊎ ((p : Post) × (posts v.history ≡ p ∷ posts w.history)
        × (p.entry_id ≡ entry.id)
        × (p.body ≡ entry.payload)
        × (get (codes "Idempotency-Key") p.headers ≡ codes "kiterail-quarantine-" ++ entry.id))

module _ (env : Env) (wk : Worker) where
  try_release-SendsNothing : (id : Text) (w : World) → SendsNothing (try_release env wk id) w
  unfolding try_release
  try_release-SendsNothing id w = on_store-SendsNothing env wk _ w

  try_fail-SendsNothing : (id : Text) (w : World) → SendsNothing (try_fail env wk id) w
  unfolding try_fail
  try_fail-SendsNothing id w = on_store-SendsNothing env wk _ w

  settle-SendsNothing :
      (entry : QuarantineEntry) (by : Text) (outcome : Outcome) (w : World)
      → SendsNothing (settle env wk entry by outcome) w
  unfolding settle
  settle-SendsNothing entry by replayed_ok w =
      after (on_store env _ w).0 _ (on_store-SendsNothing env wk _ w)
    where
      after :
          (r : Result (Unit {0})) (v : World)
          → posts v.history ≡ posts w.history
          → posts
              ((elim r as (λ _. M (Unit {0})) [
                | err e ↦ pure tt
                | ok _ ↦ record_ledger env wk entry by (codes "approved_replayed")
              ])
                v).1.history
            ≡ posts w.history
      after (ok a) v same =
          record_ledger-SendsNothing env wk entry by (codes "approved_replayed") v ∙ same
      after (err e) v same = same
  settle-SendsNothing entry by (failed outcome) w =
      let v = (record_ledger env wk entry by outcome w).1 in
      let same = record_ledger-SendsNothing env wk entry by outcome w in
      elim (Bool-cases (leb wk.max_replay_attempts entry.attempts)) [
        | inl last ↦ rw last (try_fail-SendsNothing entry.id v ∙ same)
        | inr more ↦ rw more (try_release-SendsNothing entry.id v ∙ same)
      ]

  send_replay-AtMostOne :
      (entry : QuarantineEntry) (by : Text) (stored : Option Headers) (w : World)
      → AtMostOne entry w (send_replay env wk entry by stored w).1
  unfolding send_replay send posts
  send_replay-AtMostOne entry by none w = inl refl
  send_replay-AtMostOne entry by (some stored) w = inr (
    _,
    refl,
    refl,
    refl,
    replay_headers-key wk.target_auth_token entry.agent_id entry.id by stored,
  )

  do_replay-AtMostOne :
      (entry : QuarantineEntry) (by : Text) (w : World)
      → AtMostOne entry w (do_replay env wk entry by w).1
  unfolding do_replay
  do_replay-AtMostOne entry by w = target wk.target_ok
    where
      target :
          (b : Bool)
          → AtMostOne entry w
              ((if b
                  then send_replay env wk entry by
                      (decode_replay_headers wk.json_unmarshal entry.request_headers)
                  else pure (failed (codes "replay_error")))
                w).1
      target true = send_replay-AtMostOne entry by _ w
      target false = inl refl

  -- An action that sends nothing keeps the bound, before and after.
  then_nothing :
      (entry : QuarantineEntry) (u w v : World)
      → posts v.history ≡ posts w.history
      → AtMostOne entry u w
      → AtMostOne entry u v
  then_nothing entry u w v same (inl none_yet) = inl (same ∙ none_yet)
  then_nothing entry u w v same (inr (p, one, id, body, key)) = inr (p, same ∙ one, id, body, key)

  after_nothing :
      (entry : QuarantineEntry) (u w v : World)
      → posts w.history ≡ posts u.history
      → AtMostOne entry w v
      → AtMostOne entry u v
  after_nothing entry u w v same (inl none_yet) = inl (none_yet ∙ same)
  after_nothing entry u w v same (inr (p, one, id, body, key)) =
      inr (p, one ∙ ap (λ l. p ∷ l) same, id, body, key)

  append_ledger-SendsNothing :
      (entry : QuarantineEntry) (by decision : Text) (w : World)
      → SendsNothing (append_ledger env wk entry by decision) w
  unfolding append_ledger
  append_ledger-SendsNothing entry by decision w = elim (Bool-cases wk.has_ledger) [
    | inl has ↦ rw has (on_ledger-SendsNothing env wk _ w)
    | inr no_ledger ↦ rw no_ledger refl
  ]

  start_replay-AtMostOne :
      (entry : QuarantineEntry) (by : Text) (w : World)
      → AtMostOne entry w (start_replay env wk entry by w).1
  unfolding start_replay
  start_replay-AtMostOne entry by w =
      after (append_ledger env wk entry by (codes "replay_started") w).0 _
        (append_ledger-SendsNothing entry by (codes "replay_started") w)
    where
      after :
          (started : Bool) (v : World)
          → posts v.history ≡ posts w.history
          → AtMostOne entry w
              ((elim started as (λ _. M (Unit {0})) [
                | false ↦ try_release env wk entry.id
                | true ↦ do_replay env wk entry by >>= settle env wk entry by
              ])
                v).1
      after false v same = inl (try_release-SendsNothing entry.id v ∙ same)
      after true v same =
          let u = do_replay env wk entry by v in
          let t = (settle env wk entry by u.0 u.1).1 in
          after_nothing entry w v t same (
            then_nothing entry v u.1 t (settle-SendsNothing entry by u.0 u.1)
              (do_replay-AtMostOne entry by v))

  blocked_by-quiet :
      (recheck : ℕ → Text → Text → Headers → Option ProxyDecision) (entry : QuarantineEntry)
      (by : Text) (w : World)
      → SendsNothing (blocked_by_current_policy env wk recheck entry by) w
  unfolding blocked_by_current_policy
  blocked_by-quiet recheck entry by w =
      by_action (current_decision env wk recheck entry w).0.action _ _
      ∙ ap posts (current_decision-history env wk recheck entry w)
    where
      by_action :
          (a : Action) (d : ProxyDecision) (v : World)
          → posts
              ((elim a as (λ _. M Bool) [ deny ↦ block env wk entry by d | _ ↦ pure false ])
                v).1.history
            ≡ posts v.history
      by_action deny d v = (block-SendsNothing env wk entry by d v).1
      by_action allow d v = refl
      by_action quarantine d v = refl
      by_action (other s) d v = refl

  is_blocked-quiet :
      (recheck : Option (ℕ → Text → Text → Headers → Option ProxyDecision))
      (entry : QuarantineEntry) (by : Text) (w : World)
      → SendsNothing (is_blocked env wk recheck entry by) w
  unfolding is_blocked
  is_blocked-quiet none entry by w = refl
  is_blocked-quiet (some recheck) entry by w = blocked_by-quiet recheck entry by w

  -- One claim of a held action calls the HTTP client at most once, with the payload that was held,
  -- under its id, and with the idempotency key that depends on nothing but the id. (What the client's
  -- transport makes of that call, also to send the request again, is not part of it.) For an entry
  -- whose attempts are beyond the limit the client is not called.
  pub process_claimed-AtMostOne :
      (entry : QuarantineEntry) (w : World)
      → AtMostOne entry w (process_claimed env wk entry w).1
        × (ltb wk.max_replay_attempts entry.attempts ≡ true
            → posts (process_claimed env wk entry w).1.history ≡ posts w.history)
  unfolding process_claimed
  process_claimed-AtMostOne entry w =
      elim (Bool-cases (ltb wk.max_replay_attempts entry.attempts)) [
        | inl exhausted ↦
            let quiet = park_exhausted-SendsNothing env wk entry (approver entry) w in
            rw exhausted (inl quiet, λ e. quiet)
        | inr left ↦ rw left (
          after (is_blocked env wk wk.recheck entry (approver entry) w).0 _
              (is_blocked-quiet wk.recheck entry (approver entry) w),
          λ e. cc,
        )
      ]
    where
      after :
          (blocked : Bool) (v : World)
          → posts v.history ≡ posts w.history
          → AtMostOne entry w
              ((if blocked then pure tt else start_replay env wk entry (approver entry)) v).1
      after true v same = inl same
      after false v same =
          after_nothing entry w v (start_replay env wk entry (approver entry) v).1 same
            (start_replay-AtMostOne entry (approver entry) v)
