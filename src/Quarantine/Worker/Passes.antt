-- ===== src/Quarantine/Worker/Passes.antt =====
-- The write-ahead rule over whole passes of the worker.
use kite_rail.Prelude.{ℕ, ◌≡◌, inl, inr, true, List, [], ◌∷◌, Bool-cases}
use kite_rail.Quarantine.Store.{Result, ok, err, QuarantineEntry}
use kite_rail.Quarantine.World.{
  World, Env, Lock, begin_failed, query_failed, busy, granted, on_store,
}
use kite_rail.Quarantine.Worker.{Worker}
use kite_rail.Quarantine.Drain.{
  Pass, recover_failed, ran, process_all, drain_once, replay_pass, under_lock, with_replay_lock,
  process_once, run,
}
use kite_rail.Quarantine.Worker.WriteAhead.{WriteAhead, Keeps, on_store-Keeps}
use kite_rail.Quarantine.Worker.WriteAhead.Claim.{process_claimed-Keeps}

module _ (env : Env) (wk : Worker) (has : wk.has_ledger ≡ true) where
  process_all-Keeps : (es : List QuarantineEntry) → Keeps (process_all env wk es)
  unfolding process_all
  process_all-Keeps [] w h = h
  process_all-Keeps (e ∷ es) w h = elim (Bool-cases (env.cancelled w.calls)) [
    | inl stop ↦ rw stop h
    | inr on ↦ rw on (process_all-Keeps es _ (process_claimed-Keeps env wk has e w h))
  ]

  drain_once-Keeps : Keeps (drain_once env wk)
  unfolding drain_once
  drain_once-Keeps w h = after (on_store env _ w).0 _ (on_store-Keeps env _ w h)
    where
      after :
          (r : Result (List QuarantineEntry)) (v : World)
          → WriteAhead v.history
          → WriteAhead
              (elim r as (λ _. Unit {0} × World) [
                | err e ↦ (tt, v)
                | ok entries ↦ process_all env wk entries v
              ]).1.history
      after (ok es) v k = process_all-Keeps es v k
      after (err e) v k = k

  replay_pass-Keeps : Keeps (replay_pass env wk)
  unfolding replay_pass
  replay_pass-Keeps w h = after (on_store env _ w).0 _ (on_store-Keeps env _ w h)
    where
      after :
          (r : Result ℕ) (v : World)
          → WriteAhead v.history
          → WriteAhead
              (elim r as (λ _. Pass × World) [
                | err e ↦ (recover_failed, v)
                | ok n ↦ (ran, (drain_once env wk v).1)
              ]).1.history
      after (ok n) v k = drain_once-Keeps v k
      after (err e) v k = k

  under_lock-Keeps : (l : Lock) → Keeps (under_lock l (replay_pass env wk))
  unfolding under_lock
  under_lock-Keeps begin_failed w h = h
  under_lock-Keeps query_failed w h = h
  under_lock-Keeps busy w h = h
  under_lock-Keeps granted w h = replay_pass-Keeps w h

  with_replay_lock-Keeps : Keeps (with_replay_lock env wk (replay_pass env wk))
  unfolding with_replay_lock
  with_replay_lock-Keeps w h = elim (Bool-cases (env.cancelled w.calls)) [
    | inl stop ↦ rw stop h
    | inr on ↦ rw on (under_lock-Keeps (env.lock w.calls) w h)
  ]

  process_once-Keeps :
      (w : World) → WriteAhead w.history → WriteAhead (process_once env wk w).history
  unfolding process_once
  process_once-Keeps w h = with_replay_lock-Keeps w h

  -- With a ledger configured, the loop of the worker keeps the write-ahead rule for any number of
  -- ticks and whatever fails: directly before each request that is handed to the HTTP client, the
  -- ledger has accepted the entry `replay_started` for that held action.
  pub run-WriteAhead :
      (ticks : List (Unit {0})) (w : World)
      → WriteAhead w.history
      → WriteAhead (run env wk ticks w).history
  unfolding run
  run-WriteAhead [] w h = process_once-Keeps w h
  run-WriteAhead (t ∷ ticks) w h =
      let v = process_once env wk w in
      elim (Bool-cases (env.cancelled v.calls)) [
        | inl stop ↦ rw stop (process_once-Keeps w h)
        | inr on ↦ rw on (run-WriteAhead ticks v (process_once-Keeps w h))
      ]
