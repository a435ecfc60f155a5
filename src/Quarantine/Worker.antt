-- ===== src/Quarantine/Worker.antt =====
-- backend/internal/quarantine/worker.go. Logging and metrics are left out.
pub mod WriteAhead
pub mod Passes
pub mod Metadata
pub mod Blocking
pub mod Requests
use kite_rail.Prelude.{
  ℕ, ◌+◌, Bool, true, false, not, ◌&&◌, ◌||◌, Option, none, some, List, [], ◌∷◌, ◌++◌, ltb, leb,
  if◌then◌else◌,
}
use kite_rail.Prelude.Text.{Text, codes, decimal}
use kite_rail.Prelude.Headers.{Headers, set, put}
use kite_rail.Mcp.Headers.{decode_replay_headers}
use kite_rail.Policy.{Action, deny, ProxyDecision}
use kite_rail.Ledger.Entry.{LedgerEntry}
use kite_rail.Quarantine.Table.{Rows}
use kite_rail.Quarantine.Store.{
  Uuid, Result, ok, err, QuarantineEntry, claim_approved, fail_replay, finish_replay, release,
  recover,
}
use kite_rail.Quarantine.World.{
  World, Post, Upstream, unreachable, status_code, Env, M, pure, ◌>>=◌, ◌>>◌, audit_entry, on_store,
  on_ledger, send, payload_hash,
}

-- The fields of `Worker`, and what it takes from outside the program: `recheck` at the time of a
-- call is `none` if no re-check is configured, and its inner `none` is an error; `target_ok` says that a
-- request to the target URL can be built.
pub record Worker : Type 0 where
  pub uuid : Uuid
  pub sha256 : Text → Text
  pub json_unmarshal : Text → Option Headers
  pub has_ledger : Bool
  pub recheck : Option (ℕ → Text → Text → Headers → Option ProxyDecision)
  pub target_ok : Bool
  pub target_auth_token : Text
  pub max_replay_attempts : ℕ
  pub batch_size : ℕ

abbrev pub default_max_replay_attempts : ℕ
default_max_replay_attempts = 3

-- The result of `doReplay`: success, or the outcome under which a failure is recorded.
pub data Outcome : Type 0 where
  replayed_ok : Outcome
  failed : Text → Outcome

unfoldable pub approver : QuarantineEntry → Text
approver entry = elim entry.resolved_by [ [] ↦ codes "unknown" | c ∷ s ↦ c ∷ s ]

-- `for name, values := range replayHeaders { req.Header[name] = values }`
unfoldable pub copy_headers : Headers → Headers → Headers
copy_headers onto [] = onto
copy_headers onto ((name, values) ∷ rest) = copy_headers (put name values onto) rest

unfoldable pub set_auth : Text → Headers → Headers
set_auth [] h = h
set_auth (c ∷ token) h = set (codes "Authorization") (codes "Bearer " ++ (c ∷ token)) h

-- The headers of a replay: the stored ones, and Elodea's own over them.
unfoldable pub replay_headers : Text → Text → Text → Text → Headers → Headers
unfolding copy_headers set_auth
replay_headers token agent_id id approved_by stored = set_auth token (
    set (codes "Idempotency-Key") (codes "kiterail-quarantine-" ++ id) (
      set (codes "X-Elodea-Approved-By") approved_by (
        set (codes "X-Elodea-Quarantine-ID") id (
          set (codes "X-Elodea-Agent") agent_id
            (set (codes "Content-Type") (codes "application/json") (copy_headers [] stored))))))

unfoldable pub outcome_of : Upstream → Outcome
outcome_of unreachable = failed (codes "replay_error")
outcome_of (status_code n) =
    if ltb n 200 || leb 300 n then failed (codes "replay_upstream_" ++ decimal n) else replayed_ok

module _ (env : Env) (wk : Worker) where
  -- `appendLedger`; true if it returns nil.
  unfoldable pub append_ledger : QuarantineEntry → Text → Text → M Bool
  append_ledger entry approved_by decision =
      if wk.has_ledger
      then on_ledger env (
          audit_entry approved_by entry.tool_name decision (codes "hitl_approval")
            (payload_hash wk.sha256 entry.payload) entry.id [])
      else pure true

  unfoldable pub record_ledger : QuarantineEntry → Text → Text → M (Unit {0})
  record_ledger entry approved_by decision =
      append_ledger entry approved_by decision >>= λ accepted. pure tt

  -- What the caller does with an error of these calls is to log it.
  unfoldable pub try_release : Text → M (Unit {0})
  try_release id = do
    answer ← on_store env (λ fault now rows. release wk.uuid fault id rows)
    pure tt

  unfoldable pub try_fail : Text → M (Unit {0})
  try_fail id = do
    answer ← on_store env (λ fault now rows. fail_replay wk.uuid fault id rows)
    pure tt

  unfoldable pub send_replay : QuarantineEntry → Text → Option Headers → M Outcome
  send_replay entry approved_by none = pure (failed (codes "replay_error"))
  send_replay entry approved_by (some stored) = do
    answer ← send env (record {
      entry_id = entry.id;
      body = entry.payload;
      headers = replay_headers wk.target_auth_token entry.agent_id entry.id approved_by stored;
    })
    pure (outcome_of answer)

  unfoldable pub do_replay : QuarantineEntry → Text → M Outcome
  do_replay entry approved_by =
      if wk.target_ok
      then send_replay entry approved_by
          (decode_replay_headers wk.json_unmarshal entry.request_headers)
      else pure (failed (codes "replay_error"))

  -- What follows the request, by its outcome.
  unfoldable pub settle : QuarantineEntry → Text → Outcome → M (Unit {0})
  settle entry approved_by replayed_ok = do
    marked ← on_store env (λ fault now rows. finish_replay wk.uuid fault now entry.id rows)
    elim marked [
      | err e ↦ pure tt
      | ok _ ↦ record_ledger entry approved_by (codes "approved_replayed")
    ]
  settle entry approved_by (failed outcome) = do
    record_ledger entry approved_by outcome
    if leb wk.max_replay_attempts entry.attempts then try_fail entry.id else try_release entry.id

  -- The write-ahead entry, and the replay behind it.
  unfoldable pub start_replay : QuarantineEntry → Text → M (Unit {0})
  start_replay entry approved_by = do
    started ← append_ledger entry approved_by (codes "replay_started")
    elim started [
      | false ↦ try_release entry.id
      | true ↦ do_replay entry approved_by >>= settle entry approved_by
    ]

  -- Interrupted replays have used up the attempts.
  unfoldable pub park_exhausted : QuarantineEntry → Text → M (Unit {0})
  park_exhausted entry approved_by = do
    marked ← on_store env (λ fault now rows. fail_replay wk.uuid fault entry.id rows)
    elim marked [
      | err e ↦ pure tt
      | ok _ ↦ record_ledger entry approved_by (codes "replay_exhausted")
    ]

  -- The decision now in force, an error being a denial; the error's text is only logged.
  unfoldable pub current_decision :
      (ℕ → Text → Text → Headers → Option ProxyDecision) → QuarantineEntry → M ProxyDecision
  current_decision recheck entry w =
      let stored = decode_replay_headers wk.json_unmarshal entry.request_headers in
      let failed : ProxyDecision = record {
        action = deny;
        rule = codes "replay_recheck_error";
        explanation = [];
        policy_version = [];
      } in
      elim stored [
        | none ↦ (failed, w)
        | some headers ↦ elim (recheck w.calls entry.agent_id entry.payload headers) [
          | none ↦ (failed, record w { calls = w.calls + 1 })
          | some decision ↦ (decision, record w { calls = w.calls + 1 })
        ]
      ]

  -- The denied branch of `blockedByCurrentPolicy`.
  unfoldable pub block : QuarantineEntry → Text → ProxyDecision → M Bool
  block entry approved_by decision = do
    marked ← on_store env (λ fault now rows. fail_replay wk.uuid fault entry.id rows)
    elim marked [
      | err e ↦ pure true
      | ok _ ↦
          if wk.has_ledger
          then (do
            accepted ← on_ledger env (
                audit_entry approved_by entry.tool_name (codes "replay_blocked_by_policy")
                  decision.rule (payload_hash wk.sha256 entry.payload) entry.id
                  decision.policy_version)
            pure true)
          else pure true
    ]

  unfoldable pub blocked_by_current_policy :
      (ℕ → Text → Text → Headers → Option ProxyDecision) → QuarantineEntry → Text → M Bool
  blocked_by_current_policy recheck entry approved_by = do
    decision ← current_decision recheck entry
    elim decision.action [ deny ↦ block entry approved_by decision | _ ↦ pure false ]

  -- `wk.recheck != nil && wk.blockedByCurrentPolicy(…)`
  unfoldable pub is_blocked :
      Option (ℕ → Text → Text → Headers → Option ProxyDecision) → QuarantineEntry → Text → M Bool
  is_blocked none entry approved_by = pure false
  is_blocked (some recheck) entry approved_by = blocked_by_current_policy recheck entry approved_by

  unfoldable pub process_claimed : QuarantineEntry → M (Unit {0})
  process_claimed entry =
      let approved_by = approver entry in
      if ltb wk.max_replay_attempts entry.attempts then park_exhausted entry approved_by else do
        blocked ← is_blocked wk.recheck entry approved_by
        if blocked then pure tt else start_replay entry approved_by
