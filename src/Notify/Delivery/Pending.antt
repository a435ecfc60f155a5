-- ===== src/Notify/Delivery/Pending.antt =====
-- What the delivery of one row sends.
use kite_rail.Prelude.{
  ◌≡◌, ◌⊎◌, refl, inl, inr, ap, ◌∙◌, true, Option, none, some, ◌∷◌, any, Bool-cases, arith,
}
use kite_rail.Prelude.Text.{Text, text_eq}
use kite_rail.Quarantine.Table
use kite_rail.Quarantine.Table.{
  Status, pending, approved, replaying, replayed, replay_failed, denied, status_eq,
  get_quarantine_entry,
}
use kite_rail.Notify.Outbox.{Row}
use kite_rail.Notify.Delivery.{
  World, Env, Worker, describe, mark_delivered, fail, after_send, send, after_status, after_get,
  read_action, deliver,
}

status_eq-pending : (s : Status) → status_eq s pending ≡ true → s ≡ pending
status_eq-pending pending h = refl
status_eq-pending approved h = cc
status_eq-pending replaying h = cc
status_eq-pending replayed h = cc
status_eq-pending replay_failed h = cc
status_eq-pending denied h = cc

module _ (env : Env) (wk : Worker) where
  -- The one notification that went out describes the action with the row's id as the quarantine table
  -- has it at this call, where it is pending, and its channel is configured.
  pub record SentPending (row : Row) (w w' : World) : Type 0 where
    pub q : Table.Row
    pub found : get_quarantine_entry row.quarantine_id (env.quarantine w.calls) ≡ some q
    pub held : q.status ≡ pending
    pub configured : any (text_eq row.channel) wk.names ≡ true
    pub one :
        w'.sent ≡ record { channel = row.channel; action = describe wk.console_url q } ∷ w.sent

  mark_delivered-sent : (row : Row) (w : World) → (mark_delivered env wk row w).sent ≡ w.sent
  unfolding mark_delivered
  mark_delivered-sent row w = ground arith

  fail-sent : (row : Row) (cause : Text) (w : World) → (fail env wk row cause w).sent ≡ w.sent
  unfolding fail
  fail-sent row cause w = ground arith

  after_send-sent :
      (row : Row) (o : Option Text) (w : World) → (after_send env wk row o w).sent ≡ w.sent
  unfolding after_send
  after_send-sent row none w = mark_delivered-sent row w
  after_send-sent row (some cause) w = fail-sent row cause w

  after_get-SentPending :
      (row : Row) (o : Option Table.Row) (w v : World)
      → read_action env wk w.calls row.quarantine_id ≡ o
      → any (text_eq row.channel) wk.names ≡ true
      → v.sent ≡ w.sent
      → ((after_get env wk row o v).sent ≡ w.sent) ⊎ SentPending row w (after_get env wk row o v)
  unfolding after_get after_status send
  after_get-SentPending row none w v read configured same = inl (fail-sent row _ v ∙ same)
  after_get-SentPending row (some q) w v read configured same =
      elim (Bool-cases (status_eq q.status pending)) [
        | inr reviewed ↦ rw reviewed (inl (mark_delivered-sent row v ∙ same))
        | inl open_action ↦ rw open_action (
            inr (record {
              q = q;
              found = ground arith;
              held = status_eq-pending q.status open_action;
              configured = configured;
              one =
                  after_send-sent row _ _
                  ∙ ap
                      (λ past.
                        record { channel = row.channel; action = describe wk.console_url q } ∷ past)
                      same;
            }))
      ]

  -- The delivery of a claimed row sends nothing, or it sends one notification, to the channel of the
  -- row, which is configured, about the action of the row as it stands in the quarantine table, which is
  -- pending at that moment: an action that has been reviewed is not announced any more.
  pub deliver-SentPending :
      (row : Row) (w : World)
      → ((deliver env wk row w).sent ≡ w.sent) ⊎ SentPending row w (deliver env wk row w)
  unfolding deliver
  deliver-SentPending row w = elim (Bool-cases (any (text_eq row.channel) wk.names)) [
    | inl configured ↦ rw configured (after_get-SentPending row _ w _ refl configured refl)
    | inr removed ↦ rw removed (inl (mark_delivered-sent row w))
  ]
