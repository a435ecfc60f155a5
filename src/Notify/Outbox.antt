-- ===== src/Notify/Outbox.antt =====
-- The table notification_outbox (backend/internal/db/models.go) and the statements of
-- backend/internal/db/notify.sql.go. Times are in nanoseconds, `attempts` stays below 2^31.
pub mod Keys
pub mod Enqueue
pub mod Updates
pub mod Claims
use kite_rail.Prelude.{
  ℕ, ◌+◌, ◌*◌, Bool, true, false, not, ◌&&◌, Option, none, some, List, [], ◌∷◌, ◌++◌, map, filter,
  take, any, ltb, leb, ◌==◌, if◌then◌else◌,
}
use kite_rail.Prelude.Text.{Text, text_eq}
use kite_rail.Quarantine.Table
use kite_rail.Quarantine.Table.{pending, status_eq}

pub record Row : Type 0 where
  pub quarantine_id : ℕ
  pub channel : Text
  pub created_at : ℕ
  pub attempts : ℕ
  pub next_attempt_at : ℕ
  pub delivered_at : Option ℕ
  pub last_error : Text

abbrev pub Rows : Type 0
Rows = List Row

-- `quarantine_id = $1 AND channel = $2`, the primary key.
unfoldable pub has_key : ℕ → Text → Row → Bool
has_key id channel r = r.quarantine_id == id && text_eq r.channel channel

abbrev pub new_row : ℕ → ℕ → Text → Row
new_row now id channel = record {
  quarantine_id = id;
  channel = channel;
  created_at = now;
  attempts = 0;
  next_attempt_at = now;
  delivered_at = none;
  last_error = [];
}

-- `INSERT … ON CONFLICT DO NOTHING`
unfoldable pub insert_row : ℕ → ℕ → Text → Rows → Rows
insert_row now id channel rows =
    if any (has_key id channel) rows then rows else rows ++ (new_row now id channel ∷ [])

unfoldable pub insert_channels : ℕ → ℕ → List Text → Rows → Rows
insert_channels now id [] rows = rows
insert_channels now id (channel ∷ channels) rows =
    insert_channels now id channels (insert_row now id channel rows)

-- `EnqueueHeldNotifications`, over the rows of the quarantine table.
unfoldable pub enqueue_held_notifications : ℕ → List Text → Table.Rows → Rows → Rows
enqueue_held_notifications now channels [] rows = rows
enqueue_held_notifications now channels (q ∷ qs) rows =
    enqueue_held_notifications now channels qs
      (if status_eq q.status pending then insert_channels now q.id channels rows else rows)

unfoldable pub is_undelivered : Row → Bool
is_undelivered r = elim r.delivered_at [ none ↦ true | some at ↦ false ]

-- The `WHERE` of the subquery; rows that others have locked are skipped.
unfoldable pub is_due : (Row → Bool) → ℕ → ℕ → Row → Bool
is_due locked max_attempts now r =
    is_undelivered r && ltb r.attempts max_attempts && leb r.next_attempt_at now && not (locked r)

-- `ORDER BY created_at`
unfoldable pub insert_by_age : Row → Rows → Rows
insert_by_age r [] = r ∷ []
insert_by_age r (s ∷ rows) =
    let later = insert_by_age r rows in
    if leb r.created_at s.created_at then r ∷ s ∷ rows else s ∷ later

unfoldable pub oldest_first : Rows → Rows
oldest_first [] = []
oldest_first (r ∷ rows) = insert_by_age r (oldest_first rows)

-- The rows of the subquery.
unfoldable pub due_rows : (Row → Bool) → ℕ → ℕ → ℕ → Rows → Rows
due_rows locked max_attempts batch_size now rows =
    take batch_size (oldest_first (filter (is_due locked max_attempts now) rows))

-- The join of the update with them.
unfoldable pub is_claimed : Rows → Row → Bool
is_claimed due r = any (has_key r.quarantine_id r.channel) due

-- Two minutes.
abbrev pub lease_time : ℕ
lease_time = 120 * 1000000000

unfoldable pub lease : ℕ → Row → Row
lease now r = record r { attempts = r.attempts + 1; next_attempt_at = now + lease_time }

-- `UPDATE … SET … WHERE …`
unfoldable pub update_where : (Row → Bool) → (Row → Row) → Rows → Rows
update_where p f rows = map (λ r. if p r then f r else r) rows

-- `ClaimDueNotifications`: the new table, and the rows of `RETURNING`.
unfoldable pub claim_due_notifications : (Row → Bool) → ℕ → ℕ → ℕ → Rows → Rows × Rows
claim_due_notifications locked max_attempts batch_size now rows =
    let claimed = is_claimed (due_rows locked max_attempts batch_size now rows) in
    (update_where claimed (lease now) rows, map (lease now) (filter claimed rows))

unfoldable pub mark_notification_delivered : ℕ → ℕ → Text → Rows → Rows
mark_notification_delivered now id channel rows =
    update_where (has_key id channel) (λ r. record r { delivered_at = some now; last_error = [] })
      rows

unfoldable pub mark_notification_failed : ℕ → Text → ℕ → Text → Rows → Rows
mark_notification_failed next_attempt_at last_error id channel rows =
    update_where (has_key id channel)
      (λ r. record r { next_attempt_at = next_attempt_at; last_error = last_error }) rows
