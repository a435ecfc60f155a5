-- ===== src/Quarantine/Table.antt =====
-- The quarantine table (backend/internal/db/models.go) and the statements of
-- backend/internal/db/quarantine.sql.go. Times are numbers, ids are UUIDs as numbers, and
-- `attempts` stays below 2^31.
use kite_rail.Prelude.{
  ℕ, ◌+◌, Bool, true, false, not, ◌&&◌, ◌||◌, Option, none, some, List, [], ◌∷◌, ◌++◌, map, filter,
  take, any, ltb, ◌==◌, if◌then◌else◌,
}
use kite_rail.Prelude.Text.{Text}

-- The values of the status column.
pub data Status : Type 0 where
  pending approved replaying replayed replay_failed denied : Status

pub record Row : Type 0 where
  pub id : ℕ
  pub agent_id : Text
  pub tool_name : Text
  pub payload : Text
  pub status : Status
  pub created_at : ℕ
  pub resolved_at : Option ℕ
  pub resolved_by : Option Text
  pub reason : Option Text
  pub attempts : ℕ
  pub replayed_at : Option ℕ
  pub request_headers : Text
  pub policy_rule : Text
  pub explanation : Text

abbrev pub status_eq : Status → Status → Bool
status_eq pending pending = true
status_eq approved approved = true
status_eq replaying replaying = true
status_eq replayed replayed = true
status_eq replay_failed replay_failed = true
status_eq denied denied = true
status_eq _ _ = false

-- `status IN ('pending', 'replay_failed')`
abbrev pub is_open : Status → Bool
is_open pending = true
is_open replay_failed = true
is_open _ = false

abbrev pub Rows : Type 0
Rows = List Row

-- `UPDATE … SET … WHERE …`, with the number of rows it matched.
unfoldable pub update_where : (Row → Bool) → (Row → Row) → Rows → Rows × ℕ
update_where p f [] = ([], 0)
update_where p f (r ∷ rs) =
    let (rs', n) = update_where p f rs in if p r then (f r ∷ rs', n + 1) else (r ∷ rs', n)

-- The parameters of `CreateQuarantineEntry`.
pub record CreateParams : Type 0 where
  pub agent_id : Text
  pub tool_name : Text
  pub payload : Text
  pub created_at : ℕ
  pub request_headers : Text
  pub policy_rule : Text
  pub explanation : Text

-- `id` is the UUID that the database generates.
unfoldable pub create_quarantine_entry : ℕ → CreateParams → Rows → Rows
create_quarantine_entry id p rows =
    rows
    ++ (record {
      id = id;
      agent_id = p.agent_id;
      tool_name = p.tool_name;
      payload = p.payload;
      status = pending;
      created_at = p.created_at;
      resolved_at = none;
      resolved_by = none;
      reason = none;
      attempts = 0;
      replayed_at = none;
      request_headers = p.request_headers;
      policy_rule = p.policy_rule;
      explanation = p.explanation;
    }
        ∷ [])

unfoldable pub get_quarantine_entry : ℕ → Rows → Option Row
get_quarantine_entry id [] = none
get_quarantine_entry id (r ∷ rs) = if r.id == id then some r else get_quarantine_entry id rs

-- `ORDER BY created_at, id`
abbrev pub older : Row → Row → Bool
older r s = ltb r.created_at s.created_at || ((r.created_at == s.created_at) && ltb r.id s.id)

unfoldable pub insert_by_age : Row → Rows → Rows
insert_by_age r [] = r ∷ []
insert_by_age r (s ∷ ss) =
    let rest = insert_by_age r ss in if older s r then s ∷ rest else r ∷ s ∷ ss

unfoldable pub sort_by_age : Rows → Rows
unfolding insert_by_age
sort_by_age [] = []
sort_by_age (r ∷ rs) = insert_by_age r (sort_by_age rs)

unfoldable pub list_quarantine_by_status : Status → Rows → Rows
unfolding sort_by_age
list_quarantine_by_status status rows =
    take 500 (sort_by_age (filter (λ r. status_eq r.status status) rows))

unfoldable pub approve_quarantine_entry : ℕ → Option Text → ℕ → Rows → Rows × ℕ
unfolding update_where
approve_quarantine_entry resolved_at resolved_by id =
    update_where (λ r. r.id == id && is_open r.status)
      λ r. record r {
        status = approved;
        resolved_at = some resolved_at;
        resolved_by = resolved_by;
        attempts = 0;
      }

unfoldable pub deny_quarantine_entry : ℕ → Option Text → Option Text → ℕ → Rows → Rows × ℕ
unfolding update_where
deny_quarantine_entry resolved_at resolved_by reason id =
    update_where (λ r. r.id == id && is_open r.status)
      λ r. record r {
        status = denied;
        resolved_at = some resolved_at;
        resolved_by = resolved_by;
        reason = reason;
      }

-- The rows that the common table expression of `ClaimApprovedForReplay` selects: the oldest approved
-- ones that no other transaction has locked.
unfoldable pub candidates : (ℕ → Bool) → ℕ → Rows → Rows
unfolding sort_by_age
candidates locked limit rows =
    take limit (sort_by_age (filter (λ r. status_eq r.status approved && not (locked r.id)) rows))

-- The `WHERE` of the update.
unfoldable pub is_claimed : Rows → Row → Bool
is_claimed chosen r = any (λ c. r.id == c.id) chosen && status_eq r.status approved

unfoldable pub start_replaying : Row → Row
start_replaying r = record r { status = replaying }

-- The new table, and the rows of `RETURNING`, which come in no particular order: here the table's.
unfoldable pub claim_approved_for_replay : (ℕ → Bool) → ℕ → Rows → Rows × Rows
unfolding candidates is_claimed start_replaying update_where
claim_approved_for_replay locked limit rows =
    let claimed = is_claimed (candidates locked limit rows) in
    ((update_where claimed start_replaying rows).0, map start_replaying (filter claimed rows))

-- `WHERE id = $1::uuid AND status = 'replaying'`
abbrev pub held_by_worker : ℕ → Row → Bool
held_by_worker id r = r.id == id && status_eq r.status replaying

unfoldable pub mark_replay_failed : ℕ → Rows → Rows × ℕ
unfolding update_where
mark_replay_failed id = update_where (held_by_worker id) λ r. record r { status = replay_failed }

unfoldable pub mark_replayed : ℕ → ℕ → Rows → Rows × ℕ
unfolding update_where
mark_replayed now id =
    update_where (held_by_worker id)
      λ r. record r { status = replayed; replayed_at = some now; attempts = r.attempts + 1 }

unfoldable pub return_to_approved : ℕ → Rows → Rows × ℕ
unfolding update_where
return_to_approved id =
    update_where (held_by_worker id) λ r. record r { status = approved; attempts = r.attempts + 1 }

unfoldable pub recover_stuck_replays : Rows → Rows × ℕ
unfolding update_where
recover_stuck_replays =
    update_where (λ r. status_eq r.status replaying)
      λ r. record r { status = approved; attempts = r.attempts + 1 }
