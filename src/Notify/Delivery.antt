-- ===== src/Notify/Delivery.antt =====
-- The worker of backend/internal/notify/notify.go. What a channel does with a notification, the clock,
-- the faults of the database and the quarantine table, which others change, are decided call by
-- call by the environment. Logging, metrics and the text of a database's error are left out.
pub mod Pending
pub mod Bounded
mod Tests
use kite_rail.Prelude.{
  ℕ, zero, suc, ◌+◌, ◌-◌, Bool, true, false, Option, none, some, List, [], ◌∷◌, ◌++◌, any,
  if◌then◌else◌,
}
use kite_rail.Prelude.Text.{Text, codes, text_eq}
use kite_rail.Prelude.Numbers.{Signed, nonneg, negative}
use kite_rail.Quarantine.Table
use kite_rail.Quarantine.Table.{pending, status_eq, get_quarantine_entry}
use kite_rail.Notify.{backoff, truncate, max_attempts}
use kite_rail.Notify.Outbox.{
  Row, Rows, enqueue_held_notifications, claim_due_notifications, mark_notification_delivered,
  mark_notification_failed,
}

pub record HeldAction : Type 0 where
  pub id : ℕ
  pub agent : Text
  pub tool : Text
  pub rule : Text
  pub explanation : Text
  pub held_at : ℕ
  pub review_url : Text

-- A call of `channel.Send`, whatever came of it.
pub record Sent : Type 0 where
  pub channel : Text
  pub action : HeldAction

pub record World : Type 0 where
  pub outbox : Rows
  pub sent : List Sent
  pub calls : ℕ

pub record Env : Type 0 where
  pub fails : ℕ → Bool
  pub now : ℕ → ℕ
  pub quarantine : ℕ → Table.Rows
  pub locked : ℕ → Row → Bool
  -- The error of `channel.Send`, if any.
  pub send_error : ℕ → Option Text

-- The names of the channels, and the address of the console, as `NewWorker` keeps them.
pub record Worker : Type 0 where
  pub names : List Text
  pub console_url : Text

abbrev pub batch_size : ℕ
batch_size = 25

unfoldable pub review_url : Text → Text
review_url [] = []
review_url (c ∷ url) = (c ∷ url) ++ codes "/#inbox"

unfoldable pub describe : Text → Table.Row → HeldAction
unfolding review_url
describe console_url q = record {
  id = q.id;
  agent = q.agent_id;
  tool = q.tool_name;
  rule = q.policy_rule;
  explanation = q.explanation;
  held_at = q.created_at;
  review_url = review_url console_url;
}

-- A time and a duration, which may be negative.
unfoldable pub add_time : ℕ → Signed → ℕ
add_time t (nonneg d) = t + d
add_time t (negative d) = t - (d + 1)

abbrev pub tick : World → World
tick w = record w { calls = w.calls + 1 }

module _ (env : Env) (wk : Worker) where
  -- A statement on the outbox, unless the database fails.
  abbrev pub statement : (ℕ → Rows → Rows) → World → World
  statement f w =
      if env.fails w.calls
      then tick w
      else tick (record w { outbox = f (env.now w.calls) w.outbox })

  -- `markDelivered`; an error is only logged.
  unfoldable pub mark_delivered : Row → World → World
  mark_delivered row w =
      statement (λ now rows. mark_notification_delivered now row.quarantine_id row.channel rows) w

  -- `fail`, with the text of the cause.
  unfoldable pub fail : Row → Text → World → World
  fail row cause w =
      statement
        (λ now rows.
          mark_notification_failed (add_time now (backoff row.attempts)) (truncate cause 500)
            row.quarantine_id row.channel rows)
        w

  -- What follows `channel.Send`.
  unfoldable pub after_send : Row → Option Text → World → World
  unfolding mark_delivered fail
  after_send row none w = mark_delivered row w
  after_send row (some cause) w = fail row cause w

  unfoldable pub send : Row → HeldAction → World → World
  unfolding after_send
  send row action w =
      after_send row (env.send_error w.calls)
        (tick (record w { sent = record { channel = row.channel; action = action } ∷ w.sent }))

  -- An action that was reviewed in the meantime is not sent.
  unfoldable pub after_status : Row → Table.Row → Bool → World → World
  unfolding mark_delivered send
  after_status row q false w = mark_delivered row w
  after_status row q true w = send row (describe wk.console_url q) w

  -- What follows `GetQuarantineEntry`; `none` is an error or a missing row.
  unfoldable pub after_get : Row → Option Table.Row → World → World
  unfolding fail after_status
  after_get row none w = fail row (codes "read held action") w
  after_get row (some q) w = after_status row q (status_eq q.status pending) w

  abbrev pub read_action : ℕ → ℕ → Option Table.Row
  read_action n id = if env.fails n then none else get_quarantine_entry id (env.quarantine n)

  -- A channel that is no longer configured is skipped.
  unfoldable pub deliver : Row → World → World
  unfolding mark_delivered after_get
  deliver row w =
      if any (text_eq row.channel) wk.names
      then after_get row (read_action w.calls row.quarantine_id) (tick w)
      else mark_delivered row w

  unfoldable pub deliver_all : List Row → World → World
  unfolding deliver
  deliver_all [] w = w
  deliver_all (row ∷ due) w = deliver_all due (deliver row w)

  -- The claim, and the loop over what it returns.
  unfoldable pub claim_and_deliver : World → World
  unfolding deliver_all
  claim_and_deliver w =
      let (rows, due) =
        claim_due_notifications (env.locked w.calls) max_attempts batch_size (env.now w.calls)
          w.outbox in
      if env.fails w.calls then tick w else deliver_all due (tick (record w { outbox = rows }))

  -- `ProcessOnce`
  unfoldable pub process_once : World → World
  unfolding claim_and_deliver
  process_once w = elim wk.names [
    | [] ↦ w
    | _ ∷ _ ↦
        if env.fails w.calls
        then tick w
        else claim_and_deliver (
            tick (record w {
              outbox =
                  enqueue_held_notifications (env.now w.calls) wk.names (env.quarantine w.calls)
                    w.outbox;
            }))
  ]

  -- `Run`, for so many ticks before it is cancelled.
  unfoldable pub run : ℕ → World → World
  unfolding process_once
  run zero w = w
  run (suc ticks) w = run ticks (process_once w)
