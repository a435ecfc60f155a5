-- ===== src/Quarantine/Store.antt =====
-- backend/internal/quarantine/store.go. `uuid` stands for github.com/google/uuid; a `fault` is an
-- error of the database, upon which a statement changes nothing.
use kite_rail.Prelude.{ℕ, Bool, Option, none, some, List, [], ◌∷◌, map, ◌==◌, if◌then◌else◌}
use kite_rail.Prelude.Text.{Text}
use kite_rail.Prelude.Headers.{Headers}
use kite_rail.Mcp.Headers.{capture_replay_headers}
use kite_rail.Quarantine.Table.{
  Row, Rows, Status, create_quarantine_entry, get_quarantine_entry, list_quarantine_by_status,
  approve_quarantine_entry, deny_quarantine_entry, claim_approved_for_replay, mark_replay_failed,
  mark_replayed, return_to_approved, recover_stuck_replays,
}

-- `uuid.Parse` and `UUID.String`.
pub record Uuid : Type 0 where
  pub parse : Text → Option ℕ
  pub print : ℕ → Text

pub data StoreError : Type 0 where
  already_resolved not_found stale_transition invalid_id no_rows encode_failed db_failure :
      StoreError

pub data Result (A : Type 0) : Type 0 where
  ok : A → Result A
  err : StoreError → Result A

-- `db.QuarantineEntry` (backend/internal/db/compat.go): the row with its id printed and its
-- nullable texts read as possibly empty.
pub record QuarantineEntry : Type 0 where
  pub id : Text
  pub agent_id : Text
  pub tool_name : Text
  pub payload : Text
  pub status : Status
  pub created_at : ℕ
  pub resolved_at : Option ℕ
  pub resolved_by : Text
  pub reason : Text
  pub attempts : ℕ
  pub replayed_at : Option ℕ
  pub request_headers : Text
  pub policy_rule : Text
  pub explanation : Text

-- `sql.NullString`: its string, and the value that is null for the empty text.
abbrev pub string_of : Option Text → Text
string_of none = []
string_of (some s) = s

abbrev pub null_string : Text → Option Text
null_string [] = none
null_string (c ∷ s) = some (c ∷ s)

-- `requireAffected`, on the number of rows.
unfoldable pub require_affected : StoreError → Rows × ℕ → Result (Unit {0}) × Rows
require_affected e (rows, n) = (if n == 0 then err e else ok tt, rows)

-- The answer of a statement, unless the database fails.
unfoldable pub executed : Bool → StoreError → (Rows → Rows × ℕ) → Rows → Result (Unit {0}) × Rows
unfolding require_affected
executed fault e statement rows =
    if fault then (err db_failure, rows) else require_affected e (statement rows)

-- `bad` is the error for a text that is no UUID.
unfoldable pub at_id :
    StoreError → (ℕ → Rows → Result (Unit {0}) × Rows) → Option ℕ → Rows → Result (Unit {0}) × Rows
at_id bad statement none rows = (err bad, rows)
at_id bad statement (some qid) rows = statement qid rows

module _ (uuid : Uuid) where
  unfoldable pub to_quarantine_entry : Row → QuarantineEntry
  to_quarantine_entry m = record {
    id = uuid.print m.id;
    agent_id = m.agent_id;
    tool_name = m.tool_name;
    payload = m.payload;
    status = m.status;
    created_at = m.created_at;
    resolved_at = m.resolved_at;
    resolved_by = string_of m.resolved_by;
    reason = string_of m.reason;
    attempts = m.attempts;
    replayed_at = m.replayed_at;
    request_headers = m.request_headers;
    policy_rule = m.policy_rule;
    explanation = m.explanation;
  }

  -- A statement on the row with a printed id.
  unfoldable pub on_id :
      StoreError → Text → (ℕ → Rows → Result (Unit {0}) × Rows) → Rows → Result (Unit {0}) × Rows
  unfolding at_id
  on_id bad id statement = at_id bad statement (uuid.parse id)

  -- `json_marshal` stands for `json.Marshal` of headers, and `fresh` for the generated UUID.
  unfoldable pub create :
      (Headers → Option Text)
      → Bool
      → ℕ
      → ℕ
      → Text
      → Text
      → Text
      → Headers
      → Text
      → Text
      → Rows
      → Result Text × Rows
  unfolding capture_replay_headers
  create json_marshal fault fresh now agent_id tool_name payload headers rule explanation rows =
      elim (json_marshal (capture_replay_headers headers)) [
        | none ↦ (err encode_failed, rows)
        | some request_headers ↦ if fault then (err db_failure, rows) else (
          ok (uuid.print fresh),
          create_quarantine_entry fresh
              (record {
                agent_id = agent_id;
                tool_name = tool_name;
                payload = payload;
                created_at = now;
                request_headers = request_headers;
                policy_rule = rule;
                explanation = explanation;
              })
              rows,
        )
      ]

  found : StoreError → Option Row → Result QuarantineEntry
  unfolding to_quarantine_entry
  found missing none = err missing
  found missing (some m) = ok (to_quarantine_entry m)

  unfoldable pub get : Bool → Text → Rows → Result QuarantineEntry
  unfolding found
  get fault id rows = elim (uuid.parse id) [
    | none ↦ err not_found
    | some qid ↦ if fault then err db_failure else found not_found (get_quarantine_entry qid rows)
  ]

  unfoldable pub get_for_replay : Bool → Text → Rows → Result QuarantineEntry
  unfolding found
  get_for_replay fault id rows = elim (uuid.parse id) [
    | none ↦ err not_found
    | some qid ↦ if fault then err db_failure else found no_rows (get_quarantine_entry qid rows)
  ]

  unfoldable pub list : Bool → Status → Rows → Result (List QuarantineEntry)
  list fault status rows =
      if fault
      then err db_failure
      else ok (map to_quarantine_entry (list_quarantine_by_status status rows))

  unfoldable pub approve : Bool → ℕ → Text → Text → Rows → Result (Unit {0}) × Rows
  unfolding on_id executed
  approve fault now id approved_by = on_id not_found id λ qid.
      executed fault already_resolved (approve_quarantine_entry now (null_string approved_by) qid)

  unfoldable pub deny : Bool → ℕ → Text → Text → Text → Rows → Result (Unit {0}) × Rows
  unfolding on_id executed
  deny fault now id denied_by reason = on_id not_found id λ qid.
      executed fault already_resolved
        (deny_quarantine_entry now (null_string denied_by) (null_string reason) qid)

  unfoldable pub fail_replay : Bool → Text → Rows → Result (Unit {0}) × Rows
  unfolding on_id executed
  fail_replay fault id =
      on_id invalid_id id λ qid. executed fault stale_transition (mark_replay_failed qid)

  unfoldable pub finish_replay : Bool → ℕ → Text → Rows → Result (Unit {0}) × Rows
  unfolding on_id executed
  finish_replay fault now id =
      on_id invalid_id id λ qid. executed fault stale_transition (mark_replayed now qid)

  unfoldable pub release : Bool → Text → Rows → Result (Unit {0}) × Rows
  unfolding on_id executed
  release fault id =
      on_id invalid_id id λ qid. executed fault stale_transition (return_to_approved qid)

  -- The statement may fail, or its rows may be claimed and the answer be lost.
  unfoldable pub claim_approved :
      Bool → Bool → (ℕ → Bool) → ℕ → Rows → Result (List QuarantineEntry) × Rows
  claim_approved fault lost locked limit rows =
      if fault
      then (err db_failure, rows)
      else let (rows', claimed) = claim_approved_for_replay locked limit rows in
        if lost then (err db_failure, rows') else (ok (map to_quarantine_entry claimed), rows')

unfoldable pub recover : Bool → Rows → Result ℕ × Rows
recover fault rows =
    if fault
    then (err db_failure, rows)
    else let (rows', n) = recover_stuck_replays rows in (ok n, rows')
