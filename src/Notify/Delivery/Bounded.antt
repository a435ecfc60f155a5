-- ===== src/Notify/Delivery/Bounded.antt =====
-- How often a held action is announced on a channel.
use kite_rail.Prelude.{
  ℕ, zero, suc, ◌+◌, ◌≤◌, ◌≡◌, refl, inl, inr, ◌&&◌, ◌==◌, any, Option, none, some, List, [], ◌∷◌,
  Bool-cases, arith, if◌then◌else◌,
}
use kite_rail.Prelude.Text.{Text, text_eq}
use kite_rail.Quarantine.Table
use kite_rail.Quarantine.Table.{get_quarantine_entry, status_eq, pending}
use kite_rail.Notify.{max_attempts}
use kite_rail.Notify.Outbox.{Row, enqueue_held_notifications, has_key, claim_due_notifications}
use kite_rail.Notify.Outbox.Keys.{attempts_of, count_key, Sound}
use kite_rail.Notify.Outbox.Enqueue.{enqueue-Sound, enqueue-attempts}
use kite_rail.Notify.Outbox.Updates.{Counts, delivered-Counts, failed-Counts}
use kite_rail.Notify.Outbox.Claims.{claim-Sound, claim-counts, attempts_of-le}
use kite_rail.Notify.Delivery.{
  Sent, World, Env, Worker, describe, batch_size, after_send, send, after_status, after_get, tick,
  mark_delivered, fail, deliver, deliver_all, claim_and_deliver, process_once, run,
}
use kite_rail.Notify.Delivery.Pending.{deliver-SentPending}

-- The number of notifications about an action on a channel.
unfoldable pub sends_of : ℕ → Text → List Sent → ℕ
sends_of id channel [] = 0
sends_of id channel (s ∷ sent) =
    (if (s.action.id == id) && text_eq s.channel channel then 1 else 0) + sends_of id channel sent

get_quarantine_entry-id :
    (id : ℕ) (rows : Table.Rows) (q : Table.Row) → get_quarantine_entry id rows ≡ some q → q.id ≡ id
unfolding get_quarantine_entry
get_quarantine_entry-id id [] q h = cc
get_quarantine_entry-id id (r ∷ rows) q h = ground (arith, get_quarantine_entry-id id rows q)

module _ (env : Env) (wk : Worker) (id : ℕ) (channel : Text) where
  -- Each notification, and each of `more` to come, has been counted as an attempt, and the table is
  -- sound.
  abbrev Fits : ℕ → World → Type 0
  Fits more w =
      (sends_of id channel w.sent + more ≤ attempts_of id channel w.outbox)
      × Sound max_attempts w.outbox

  abbrev SameCounts : World → World → Type 0
  SameCounts w w' = Counts id channel max_attempts w.outbox w'.outbox

  mark_delivered-SameCounts : (row : Row) (w : World) → SameCounts w (mark_delivered env wk row w)
  unfolding mark_delivered
  mark_delivered-SameCounts row w = elim (Bool-cases (env.fails w.calls)) [
    | inl failing ↦ rw failing (refl, λ s. s)
    | inr working ↦ rw working (
        delivered-Counts id channel max_attempts row.quarantine_id row.channel w.outbox
          (env.now w.calls))
  ]

  fail-SameCounts : (row : Row) (cause : Text) (w : World) → SameCounts w (fail env wk row cause w)
  unfolding fail
  fail-SameCounts row cause w = elim (Bool-cases (env.fails w.calls)) [
    | inl failing ↦ rw failing (refl, λ s. s)
    | inr working ↦
        rw working
          (failed-Counts id channel max_attempts row.quarantine_id row.channel w.outbox _ _)
  ]

  after_send-SameCounts :
      (row : Row) (o : Option Text) (w : World) → SameCounts w (after_send env wk row o w)
  unfolding after_send
  after_send-SameCounts row none w = mark_delivered-SameCounts row w
  after_send-SameCounts row (some cause) w = fail-SameCounts row cause w

  after_get-SameCounts :
      (row : Row) (o : Option Table.Row) (w : World) → SameCounts w (after_get env wk row o w)
  unfolding after_get after_status send
  after_get-SameCounts row none w = fail-SameCounts row _ w
  after_get-SameCounts row (some q) w = elim (Bool-cases (status_eq q.status pending)) [
    | inl open_action ↦ rw open_action (after_send-SameCounts row _ _)
    | inr reviewed ↦ rw reviewed (mark_delivered-SameCounts row w)
  ]

  deliver-SameCounts : (row : Row) (w : World) → SameCounts w (deliver env wk row w)
  unfolding deliver
  deliver-SameCounts row w = elim (Bool-cases (any (text_eq row.channel) wk.names)) [
    | inl configured ↦ rw configured (after_get-SameCounts row _ (tick w))
    | inr removed ↦ rw removed (mark_delivered-SameCounts row w)
  ]

  -- A delivery sends at most one notification, about its own key.
  deliver-sends :
      (row : Row) (w : World)
      → sends_of id channel (deliver env wk row w).sent
        ≤ (if has_key id channel row then 1 else 0) + sends_of id channel w.sent
  unfolding sends_of has_key describe
  deliver-sends row w = elim (deliver-SentPending env wk row w) [
    | inl quiet ↦ rw quiet (ground arith)
    | inr sent ↦
        rw sent.one (ground (arith, get_quarantine_entry-id row.quarantine_id _ sent.q sent.found))
  ]

  deliver-Fits :
      (row : Row) (more : ℕ) (w : World)
      → Fits ((if has_key id channel row then 1 else 0) + more) w
      → Fits more (deliver env wk row w)
  deliver-Fits row more w fits =
      let (same, sound) = deliver-SameCounts row w in
      (omega (arith, deliver-sends row w, same, fits.0), sound fits.1)

  deliver_all-Fits :
      (due : List Row) (w : World)
      → Fits (count_key id channel due) w
      → Fits 0 (deliver_all env wk due w)
  unfolding deliver_all count_key
  deliver_all-Fits [] w fits = fits
  deliver_all-Fits (row ∷ due) w fits =
      deliver_all-Fits due (deliver env wk row w) (deliver-Fits row _ w fits)

  claim_and_deliver-Fits : (w : World) → Fits 0 w → Fits 0 (claim_and_deliver env wk w)
  unfolding claim_and_deliver
  claim_and_deliver-Fits w fits =
      let claim =
        claim_due_notifications (env.locked w.calls) max_attempts batch_size (env.now w.calls)
          w.outbox in
      elim (Bool-cases (env.fails w.calls)) [
        | inl failing ↦ rw failing fits
        | inr working ↦ rw working (
            deliver_all-Fits claim.1 (tick (record w { outbox = claim.0 })) (
              ground (
                arith,
                claim-counts (env.locked w.calls) max_attempts batch_size (env.now w.calls) w.outbox
                    id channel,
              ),
              claim-Sound (env.locked w.calls) max_attempts batch_size (env.now w.calls) w.outbox
                  fits.1,
            ))
      ]

  process_once-Fits : (w : World) → Fits 0 w → Fits 0 (process_once env wk w)
  unfolding process_once
  process_once-Fits w fits = by_names wk.names
    where
      by_names :
          (names : List Text)
          → Fits 0 (elim names as (λ _. World) [
            | [] ↦ w
            | _ ∷ _ ↦
                if env.fails w.calls
                then tick w
                else claim_and_deliver env wk (
                    tick (record w {
                      outbox =
                          enqueue_held_notifications
                            (env.now w.calls)
                            wk.names
                            (env.quarantine w.calls)
                            w.outbox;
                    }))
          ])
      by_names [] = fits
      by_names (c ∷ names) = elim (Bool-cases (env.fails w.calls)) [
        | inl failing ↦ rw failing fits
        | inr working ↦ rw working (
            claim_and_deliver-Fits _ (
              omega (
                arith,
                enqueue-attempts id channel (env.now w.calls) wk.names (env.quarantine w.calls)
                    w.outbox,
                fits.0,
              ),
              enqueue-Sound max_attempts (env.now w.calls) wk.names (env.quarantine w.calls)
                  w.outbox fits.1,
            ))
      ]

  run-Fits : (ticks : ℕ) (w : World) → Fits 0 w → Fits 0 (run env wk ticks w)
  unfolding run
  run-Fits zero w fits = fits
  run-Fits (suc ticks) w fits = run-Fits ticks _ (process_once-Fits w fits)

-- However many passes the worker makes from an empty outbox, and whatever fails on the way, an action
-- is announced at most eight times on a channel, also when every announcement fails or is not recorded.
pub run-bounded :
    (env : Env) (wk : Worker) (id : ℕ) (channel : Text) (ticks calls : ℕ)
    → sends_of id channel (run env wk ticks (record { outbox = []; sent = []; calls = calls })).sent
      ≤ 8
unfolding sends_of attempts_of
run-bounded env wk id channel ticks calls =
    let fits =
      run-Fits env wk id channel ticks (record { outbox = []; sent = []; calls = calls })
        (omega arith, (tt, tt)) in
    omega (arith, fits.0, attempts_of-le max_attempts id channel _ fits.1)
