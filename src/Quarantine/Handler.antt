-- ===== src/Quarantine/Handler.antt =====
-- The reviewer API of held actions, backend/internal/quarantine/handler.go, as the replies that it
-- writes and the calls that it makes.
pub mod Decisions
pub mod Access
use kite_rail.Prelude.{
  ℕ, Bool, true, false, not, ◌&&◌, ◌||◌, Option, none, some, List, [], ◌∷◌, if◌then◌else◌,
}
use kite_rail.Prelude.Text.{Text, codes, text_eq, trim_prefix, strip_suffix}
use kite_rail.Prelude.Http.{Method, is_get, is_post, query_get}
use kite_rail.Auth.{Role, reviewer, admin, role_eq, Identity}
use kite_rail.Quarantine.Table.{
  Row, Status, pending, approved, replaying, replayed, replay_failed, denied,
}
use kite_rail.Quarantine.Store.{
  Uuid, StoreError, already_resolved, not_found, Result, ok, err, QuarantineEntry, get, list,
  approve, deny,
}
use kite_rail.Quarantine.World.{
  World, Env, M, pure, ◌>>=◌, ◌>>◌, audit_entry, on_store, on_ledger, payload_hash,
}

pub record Handler : Type 0 where
  pub uuid : Uuid
  pub sha256 : Text → Text
  pub has_ledger : Bool

-- What `decoder.Decode` finds in the capped body of a denial: nothing, an error, or a reason, and
-- whether anything follows it.
pub data DenyBody : Type 0 where
  empty malformed : DenyBody
  with_reason : Text → Bool → DenyBody

pub record Request : Type 0 where
  pub method : Method
  pub path : Text
  pub params : List (Text × Text)
  pub identity : Option Identity
  pub body : DenyBody

pub data Reply : Type 0 where
  failure : ℕ → Reply
  listed : List QuarantineEntry → Reply
  shown : QuarantineEntry → Reply
  decided : Status → Text → Reply

-- An error of `Approve` or `Deny`: the store's, or `ErrAuditUnavailable`.
pub data DecisionError : Type 0 where
  store_error : StoreError → DecisionError
  audit_unavailable : DecisionError

pub data Decision : Type 0 where
  done : Decision
  refused : DecisionError → Decision

-- `validStatuses`, with the value that each key stands for.
unfoldable pub parse_status : Text → Option Status
parse_status s =
    if text_eq s (codes "pending")
    then some pending
    else if text_eq s (codes "approved")
    then some approved
    else if text_eq s (codes "replaying")
    then some replaying
    else if text_eq s (codes "replayed")
    then some replayed
    else if text_eq s (codes "replay_failed")
    then some replay_failed
    else if text_eq s (codes "denied")
    then some denied
    else none

-- `writeStoreError`
unfoldable pub store_error_status : StoreError → ℕ
store_error_status not_found = 404
store_error_status already_resolved = 409
store_error_status e = 500

-- `writeDecisionError`
unfoldable pub decision_error_status : DecisionError → ℕ
unfolding store_error_status
decision_error_status audit_unavailable = 503
decision_error_status (store_error e) = store_error_status e

-- `reviewerIdentity`
unfoldable pub reviewer_identity : Option Identity → Option Text
reviewer_identity none = none
reviewer_identity (some identity) =
    if not (role_eq identity.role reviewer) && not (role_eq identity.role admin)
    then none
    else some identity.id

-- The path behind the API's prefix.
unfoldable pub entry_path : Text → Text
entry_path path = trim_prefix (codes "/") (trim_prefix (codes "/api/v1/quarantine") path)

module _ (env : Env) (h : Handler) where
  -- `appendLedger`; the first argument is whether there is a ledger.
  unfoldable pub append_if : Bool → QuarantineEntry → Text → Text → Text → M Decision
  append_if false entry reviewer_id decision rule = pure done
  append_if true entry reviewer_id decision rule = do
    accepted ← on_ledger env (
        audit_entry reviewer_id entry.tool_name decision rule (payload_hash h.sha256 entry.payload)
          entry.id [])
    pure (if accepted then done else refused audit_unavailable)

  unfoldable pub append_ledger : QuarantineEntry → Text → Text → Text → M Decision
  unfolding append_if
  append_ledger = append_if h.has_ledger

  unfoldable pub after_change :
      QuarantineEntry → Text → Text → Text → Result (Unit {0}) → M Decision
  after_change entry reviewer_id decision rule (err e) = pure (refused (store_error e))
  after_change entry reviewer_id decision rule (ok _) =
      append_ledger entry reviewer_id decision rule

  -- The steps behind the read: the change of state, and its audit record.
  unfoldable pub decide :
      (Bool → ℕ → List Row → Result (Unit {0}) × List Row)
      → Text
      → Text
      → Text
      → Result QuarantineEntry
      → M Decision
  decide change reviewer_id decision rule (err e) = pure (refused (store_error e))
  decide change reviewer_id decision rule (ok entry) = do
    changed ← on_store env change
    after_change entry reviewer_id decision rule changed

  unfoldable pub approve_held : Text → Text → M Decision
  unfolding decide after_change
  approve_held id reviewer_id = do
    entry ← on_store env (λ fault now rows. (get h.uuid fault id rows, rows))
    decide (λ fault now rows. approve h.uuid fault now id reviewer_id rows) reviewer_id
        (codes "approved") (codes "hitl_approval") entry

  unfoldable pub deny_held : Text → Text → Text → M Decision
  unfolding decide after_change
  deny_held id reviewer_id reason = do
    entry ← on_store env (λ fault now rows. (get h.uuid fault id rows, rows))
    decide (λ fault now rows. deny h.uuid fault now id reviewer_id reason rows) reviewer_id
        (codes "denied") (codes "hitl_denial") entry

  unfoldable pub list_pending : Request → M Reply
  list_pending r =
      let given = query_get (codes "status") r.params in
      elim (parse_status (if text_eq given [] then codes "pending" else given)) [
        | none ↦ pure (failure 400)
        | some status ↦ do
          entries ← on_store env (λ fault now rows. (list h.uuid fault status rows, rows))
          pure (elim entries [ err e ↦ failure 500 | ok es ↦ listed es ])
      ]

  unfoldable pub get_entry : Text → M Reply
  unfolding store_error_status
  get_entry id = do
    entry ← on_store env (λ fault now rows. (get h.uuid fault id rows, rows))
    pure (elim entry [ err e ↦ failure (store_error_status e) | ok e ↦ shown e ])

  unfoldable pub reply_decision : Status → Text → Decision → Reply
  unfolding decision_error_status
  reply_decision status id done = decided status id
  reply_decision status id (refused e) = failure (decision_error_status e)

  unfoldable pub approve_entry : Option Identity → Text → M Reply
  unfolding reviewer_identity reply_decision
  approve_entry identity id = elim (reviewer_identity identity) [
    | none ↦ pure (failure 403)
    | some reviewer_id ↦ do
      outcome ← approve_held id reviewer_id
      pure (reply_decision approved id outcome)
  ]

  -- The denial behind the checks of the body.
  unfoldable pub deny_with : Text → Text → DenyBody → M Reply
  unfolding reply_decision
  deny_with reviewer_id id malformed = pure (failure 400)
  deny_with reviewer_id id (with_reason reason true) = pure (failure 400)
  deny_with reviewer_id id (with_reason reason false) = do
    outcome ← deny_held id reviewer_id reason
    pure (reply_decision denied id outcome)
  deny_with reviewer_id id empty = do
    outcome ← deny_held id reviewer_id []
    pure (reply_decision denied id outcome)

  unfoldable pub deny_entry : Option Identity → Text → DenyBody → M Reply
  unfolding reviewer_identity deny_with
  deny_entry identity id body = elim (reviewer_identity identity) [
    | none ↦ pure (failure 403)
    | some reviewer_id ↦ deny_with reviewer_id id body
  ]

  unfoldable pub route_post : Request → Text → M Reply
  unfolding approve_entry deny_entry
  route_post r path = elim (strip_suffix (codes "/approve") path) [
    | some id ↦ approve_entry r.identity id
    | none ↦ elim (strip_suffix (codes "/deny") path) [
      | some id ↦ deny_entry r.identity id r.body
      | none ↦ pure (failure 404)
    ]
  ]

  unfoldable pub serve_http : Request → M Reply
  unfolding entry_path route_post list_pending get_entry
  serve_http r =
      let path = entry_path r.path in
      if is_get r.method
      then (if text_eq path [] then list_pending r else get_entry path)
      else if is_post r.method
      then route_post r path
      else pure (failure 404)
