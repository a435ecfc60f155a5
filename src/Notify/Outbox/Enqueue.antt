-- ===== src/Notify/Outbox/Enqueue.antt =====
-- Enqueueing adds rows with new keys and no attempts.
use kite_rail.Prelude.{
  ℕ, ◌≡◌, refl, ◌∙◌, Bool, true, false, ◌||◌, List, [], ◌∷◌, ◌++◌, any, All-append, Bool-cases, inl,
  inr, arith, if◌then◌else◌,
}
use kite_rail.Prelude.Text.{Text}
use kite_rail.Quarantine.Table
use kite_rail.Quarantine.Table.{pending, status_eq}
use kite_rail.Notify.Outbox.{
  Row, Rows, has_key, new_row, insert_row, insert_channels, enqueue_held_notifications,
}
use kite_rail.Notify.Outbox.Keys.{attempts_of, attempts_of-append, Distinct, Sound, has_key-swap}

any-append-key :
    (id : ℕ) (channel : Text) (rows more : Rows)
    → any (has_key id channel) (rows ++ more)
      ≡ (any (has_key id channel) rows || any (has_key id channel) more)
any-append-key id channel [] more = refl
any-append-key id channel (r ∷ rows) more = ground (arith, any-append-key id channel rows more)

Distinct-snoc :
    (rows : Rows) (r : Row)
    → Distinct rows
    → any (has_key r.quarantine_id r.channel) rows ≡ false
    → Distinct (rows ++ (r ∷ []))
Distinct-snoc [] r d new = (refl, tt)
Distinct-snoc (s ∷ rows) r d new = (
  ground (arith, any-append-key s.quarantine_id s.channel rows (r ∷ []), has_key-swap s r),
  Distinct-snoc rows r d.1 (ground arith),
)

insert_row-Sound :
    (n now id : ℕ) (channel : Text) (rows : Rows)
    → Sound n rows
    → Sound n (insert_row now id channel rows)
unfolding insert_row
insert_row-Sound n now id channel rows s = elim (Bool-cases (any (has_key id channel) rows)) [
  | inl old ↦ rw old s
  | inr new ↦ rw new (
    Distinct-snoc rows (new_row now id channel) s.0 new,
    All-append _ rows _ s.1 (omega arith, tt),
  )
]

insert_channels-Sound :
    (n now id : ℕ) (channels : List Text) (rows : Rows)
    → Sound n rows
    → Sound n (insert_channels now id channels rows)
unfolding insert_channels
insert_channels-Sound n now id [] rows s = s
insert_channels-Sound n now id (c ∷ channels) rows s =
    insert_channels-Sound n now id channels _ (insert_row-Sound n now id c rows s)

pub enqueue-Sound :
    (n now : ℕ) (channels : List Text) (qs : Table.Rows) (rows : Rows)
    → Sound n rows
    → Sound n (enqueue_held_notifications now channels qs rows)
unfolding enqueue_held_notifications
enqueue-Sound n now channels [] rows s = s
enqueue-Sound n now channels (q ∷ qs) rows s =
    enqueue-Sound n now channels qs _ (by_status (status_eq q.status pending))
  where
    by_status : (b : Bool) → Sound n (if b then insert_channels now q.id channels rows else rows)
    by_status true = insert_channels-Sound n now q.id channels rows s
    by_status false = s

insert_row-attempts :
    (i : ℕ) (ch : Text) (now id : ℕ) (channel : Text) (rows : Rows)
    → attempts_of i ch (insert_row now id channel rows) ≡ attempts_of i ch rows
unfolding insert_row attempts_of
insert_row-attempts i ch now id channel rows = elim (Bool-cases (any (has_key id channel) rows)) [
  | inl old ↦ rw old refl
  | inr new ↦ rw new (ground (arith, attempts_of-append i ch rows (new_row now id channel ∷ [])))
]

insert_channels-attempts :
    (i : ℕ) (ch : Text) (now id : ℕ) (channels : List Text) (rows : Rows)
    → attempts_of i ch (insert_channels now id channels rows) ≡ attempts_of i ch rows
unfolding insert_channels
insert_channels-attempts i ch now id [] rows = refl
insert_channels-attempts i ch now id (c ∷ channels) rows =
    insert_channels-attempts i ch now id channels _ ∙ insert_row-attempts i ch now id c rows

pub enqueue-attempts :
    (i : ℕ) (ch : Text) (now : ℕ) (channels : List Text) (qs : Table.Rows) (rows : Rows)
    → attempts_of i ch (enqueue_held_notifications now channels qs rows) ≡ attempts_of i ch rows
unfolding enqueue_held_notifications
enqueue-attempts i ch now channels [] rows = refl
enqueue-attempts i ch now channels (q ∷ qs) rows =
    enqueue-attempts i ch now channels qs _ ∙ by_status (status_eq q.status pending)
  where
    by_status :
        (b : Bool)
        → attempts_of i ch (if b then insert_channels now q.id channels rows else rows)
          ≡ attempts_of i ch rows
    by_status true = insert_channels-attempts i ch now q.id channels rows
    by_status false = refl
