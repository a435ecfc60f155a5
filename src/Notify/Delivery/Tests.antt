-- ===== src/Notify/Delivery/Tests.antt =====
-- One held action, one channel, and a webhook that always fails.
use kite_rail.Prelude.{◌*◌, ◌≤◌, ◌≡◌, ◌⊎◌, refl, false, none, some, [], ◌∷◌}
use kite_rail.Prelude.Text.{Text, codes, text_eq}
use kite_rail.Quarantine.Table
use kite_rail.Quarantine.Table.{pending}
use kite_rail.Notify.Outbox
use kite_rail.Notify.Outbox.{new_row}
use kite_rail.Notify.Delivery.{Sent, World, Env, Worker, deliver, run}
use kite_rail.Notify.Delivery.Pending.{SentPending, deliver-SentPending}
use kite_rail.Notify.Delivery.Bounded.{sends_of, run-bounded}

abbrev action : Table.Row
action = record {
  id = 5;
  agent_id = codes "a";
  tool_name = codes "pay";
  payload = [];
  status = pending;
  created_at = 0;
  resolved_at = none;
  resolved_by = none;
  reason = none;
  attempts = 0;
  replayed_at = none;
  request_headers = [];
  policy_rule = codes "r";
  explanation = [];
}

abbrev slack : Text
slack = codes "slack"

-- An hour passes between two calls.
abbrev failing : Env
failing = record {
  fails = λ n. false;
  now = λ n. n * 3600000000000;
  quarantine = λ n. action ∷ [];
  locked = λ n r. false;
  send_error = λ n. some (codes "timeout");
}

abbrev worker : Worker
worker = record { names = slack ∷ []; console_url = codes "https://c" }

abbrev start : World
start = record { outbox = []; sent = []; calls = 0 }

-- Each of the first two passes announces the action.
announced_twice : sends_of 5 slack (run failing worker 2 start).sent ≡ 2
unfolding sends_of run Outbox.claim_due_notifications Outbox.enqueue_held_notifications
    Outbox.insert_channels Outbox.insert_row Outbox.is_claimed Outbox.due_rows Outbox.oldest_first
    Outbox.is_due Outbox.is_undelivered Outbox.insert_by_age Outbox.has_key text_eq Outbox.lease
    Table.get_quarantine_entry Outbox.mark_notification_failed Outbox.update_where
    kite_rail.Notify.Delivery.add_time kite_rail.Notify.backoff kite_rail.Notify.truncate
    kite_rail.Notify.Delivery.describe
announced_twice = refl

run-bounded_example : sends_of 5 slack (run failing worker 10 start).sent ≤ 8
run-bounded_example = run-bounded failing worker 5 slack 10 0

deliver-SentPending_example :
    ((deliver failing worker (new_row 0 5 slack) start).sent ≡ [])
    ⊎ SentPending failing worker
        (new_row 0 5 slack)
        start
        (deliver failing worker (new_row 0 5 slack) start)
deliver-SentPending_example = deliver-SentPending failing worker (new_row 0 5 slack) start
