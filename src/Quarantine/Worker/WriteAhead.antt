-- ===== src/Quarantine/Worker/WriteAhead.antt =====
-- No replay is sent before the ledger has accepted the entry that announces it.
pub mod Claim
use kite_rail.Prelude.{
  ℕ, ◌≡◌, refl, inl, inr, Bool, true, false, leb, ltb, Option, none, some, List, [], ◌∷◌, arith,
  if◌then◌else◌, Bool-cases,
}
use kite_rail.Prelude.Text.{Text, codes}
use kite_rail.Prelude.Headers.{Headers}
use kite_rail.Policy.{Action, allow, deny, quarantine, other, ProxyDecision}
use kite_rail.Ledger.Entry.{LedgerEntry}
use kite_rail.Quarantine.Table.{Rows}
use kite_rail.Quarantine.Store.{Result, ok, err, QuarantineEntry}
use kite_rail.Quarantine.World.{
  World, Effect, appended, posted, Env, M, on_store, on_ledger, send, pure, ◌>>=◌, audit_entry,
  payload_hash,
}
use kite_rail.Quarantine.Worker.{
  Worker, Outcome, append_ledger, record_ledger, try_release, try_fail, send_replay, do_replay,
  settle, start_replay, park_exhausted, current_decision, block, blocked_by_current_policy,
  is_blocked, process_claimed, approver, failed, replayed_ok,
}

-- The newest effect announces a replay of the held action with this id.
abbrev pub Announces : Text → List Effect → Type 0
Announces id [] = ⊥
Announces id (posted p ∷ older) = ⊥
Announces id (appended e ∷ older) = (e.decision ≡ codes "replay_started") × (e.request_id ≡ id)

-- Directly before every request the ledger accepted its announcement.
abbrev pub WriteAhead : List Effect → Type 0
WriteAhead [] = Unit {0}
WriteAhead (appended e ∷ older) = WriteAhead older
WriteAhead (posted p ∷ older) = Announces p.entry_id older × WriteAhead older

-- An action that keeps the property, from every world.
abbrev pub Keeps : {A : Type 0} → M A → Type 0
Keeps m = (w : World) → WriteAhead w.history → WriteAhead (m w).1.history

module _ (env : Env) where
  pub on_store-Keeps : {A : Type 0} (f : Bool → ℕ → Rows → Result A × Rows) → Keeps (on_store env f)
  unfolding on_store
  on_store-Keeps f w h = h

  pub on_ledger-Keeps : (e : LedgerEntry) → Keeps (on_ledger env e)
  unfolding on_ledger
  on_ledger-Keeps e w h = ground arith

  module _ (wk : Worker) where
    append_ledger-Keeps :
        (entry : QuarantineEntry) (by decision : Text)
        → Keeps (append_ledger env wk entry by decision)
    unfolding append_ledger
    append_ledger-Keeps entry by decision w h = elim (Bool-cases wk.has_ledger) [
      | inl has ↦ rw has (on_ledger-Keeps _ w h)
      | inr no_ledger ↦ rw no_ledger h
    ]

    record_ledger-Keeps :
        (entry : QuarantineEntry) (by decision : Text)
        → Keeps (record_ledger env wk entry by decision)
    unfolding record_ledger
    record_ledger-Keeps entry by decision w h = append_ledger-Keeps entry by decision w h

    try_release-Keeps : (id : Text) → Keeps (try_release env wk id)
    unfolding try_release
    try_release-Keeps id w h = on_store-Keeps _ w h

    try_fail-Keeps : (id : Text) → Keeps (try_fail env wk id)
    unfolding try_fail
    try_fail-Keeps id w h = on_store-Keeps _ w h

    settle-Keeps :
        (entry : QuarantineEntry) (by : Text) (outcome : Outcome)
        → Keeps (settle env wk entry by outcome)
    unfolding settle
    settle-Keeps entry by replayed_ok w h = after (on_store env _ w).0 _ (on_store-Keeps _ w h)
      where
        after :
            (r : Result (Unit {0})) (v : World)
            → WriteAhead v.history
            → WriteAhead
                ((elim r as (λ _. M (Unit {0})) [
                  | err e ↦ pure tt
                  | ok _ ↦ record_ledger env wk entry by (codes "approved_replayed")
                ])
                  v).1.history
        after (ok a) v k = record_ledger-Keeps entry by (codes "approved_replayed") v k
        after (err e) v k = k
    settle-Keeps entry by (failed outcome) w h =
        let v = (record_ledger env wk entry by outcome w).1 in
        let k = record_ledger-Keeps entry by outcome w h in
        elim (Bool-cases (leb wk.max_replay_attempts entry.attempts)) [
          | inl last ↦ rw last (try_fail-Keeps entry.id v k)
          | inr more ↦ rw more (try_release-Keeps entry.id v k)
        ]

    pub park_exhausted-Keeps :
        (entry : QuarantineEntry) (by : Text) → Keeps (park_exhausted env wk entry by)
    unfolding park_exhausted
    park_exhausted-Keeps entry by w h = after (on_store env _ w).0 _ (on_store-Keeps _ w h)
      where
        after :
            (r : Result (Unit {0})) (v : World)
            → WriteAhead v.history
            → WriteAhead
                ((elim r as (λ _. M (Unit {0})) [
                  | err e ↦ pure tt
                  | ok _ ↦ record_ledger env wk entry by (codes "replay_exhausted")
                ])
                  v).1.history
        after (ok a) v k = record_ledger-Keeps entry by (codes "replay_exhausted") v k
        after (err e) v k = k

    send_replay-Keeps :
        (entry : QuarantineEntry) (by : Text) (stored : Option Headers) (w : World)
        → Announces entry.id w.history
        → WriteAhead w.history
        → WriteAhead (send_replay env wk entry by stored w).1.history
    unfolding send_replay send
    send_replay-Keeps entry by none w a h = h
    send_replay-Keeps entry by (some stored) w a h = (a, h)

    do_replay-Keeps :
        (entry : QuarantineEntry) (by : Text) (w : World)
        → Announces entry.id w.history
        → WriteAhead w.history
        → WriteAhead (do_replay env wk entry by w).1.history
    unfolding do_replay send_replay
    do_replay-Keeps entry by w a h = elim (Bool-cases wk.target_ok) [
      | inl target ↦ simp target (send_replay-Keeps entry by _ w a h)
      | inr no_target ↦ simp no_target h
    ]

    -- With a ledger, an accepted announcement is the newest effect.
    append_ledger-Announces :
        (entry : QuarantineEntry) (by : Text) (w : World)
        → wk.has_ledger ≡ true
        → let r = append_ledger env wk entry by (codes "replay_started") w in
          r.0 ≡ true → Announces entry.id r.1.history
    unfolding append_ledger on_ledger
    append_ledger-Announces entry by w has accepted = ground arith

    pub start_replay-Keeps :
        wk.has_ledger ≡ true
        → (entry : QuarantineEntry) (by : Text) → Keeps (start_replay env wk entry by)
    unfolding start_replay
    start_replay-Keeps has entry by w h =
        after (append_ledger env wk entry by (codes "replay_started") w).0 _
          (append_ledger-Announces entry by w has)
          (append_ledger-Keeps entry by (codes "replay_started") w h)
      where
        after :
            (started : Bool) (v : World)
            → (started ≡ true → Announces entry.id v.history)
            → WriteAhead v.history
            → WriteAhead
                ((elim started as (λ _. M (Unit {0})) [
                  | false ↦ try_release env wk entry.id
                  | true ↦ do_replay env wk entry by >>= settle env wk entry by
                ])
                  v).1.history
        after true v a k = settle-Keeps entry by _ _ (do_replay-Keeps entry by v (a refl) k)
        after false v a k = try_release-Keeps entry.id v k
