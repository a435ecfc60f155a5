-- ===== src/Quarantine/Drain.antt =====
-- The passes of the replay worker: `ProcessOnce`, `drainOnce` and the loop of `Run`
-- (backend/internal/quarantine/worker.go), and `WithReplayLock` (store.go), whose lock is held until
-- the pass returns.
use kite_rail.Prelude.{List, [], ◌∷◌, if◌then◌else◌}
use kite_rail.Quarantine.Store.{ok, err, QuarantineEntry, claim_approved, recover}
use kite_rail.Quarantine.World.{
  World, Env, Lock, begin_failed, query_failed, busy, granted, M, on_store,
}
use kite_rail.Quarantine.Worker.{Worker, process_claimed}

-- The results of `WithReplayLock`: an error, or whether the lock was acquired, with that of the pass.
pub data Pass : Type 0 where
  cancelled_pass lock_failed not_acquired recover_failed ran : Pass

-- The pass runs only if the lock was granted.
unfoldable pub under_lock : Lock → M Pass → M Pass
under_lock begin_failed replay w = (lock_failed, w)
under_lock query_failed replay w = (lock_failed, w)
under_lock busy replay w = (not_acquired, w)
under_lock granted replay w = replay w

module _ (env : Env) (wk : Worker) where
  -- The loop over the claimed entries; a cancelled context ends it.
  unfoldable pub process_all : List QuarantineEntry → M (Unit {0})
  process_all [] w = (tt, w)
  process_all (e ∷ es) w =
      let rest = process_all es (process_claimed env wk e w).1 in
      if env.cancelled w.calls then (tt, w) else rest

  unfoldable pub drain_once : M (Unit {0})
  unfolding process_all
  drain_once w =
      let answer =
        on_store env
          (λ fault now rows.
            claim_approved wk.uuid fault (env.answer_lost w.calls) (env.locked_rows w.calls)
              wk.batch_size rows)
          w in
      elim answer.0 [ err e ↦ (tt, answer.1) | ok entries ↦ process_all entries answer.1 ]

  -- The callback under the lock.
  unfoldable pub replay_pass : M Pass
  unfolding drain_once
  replay_pass w =
      let answer = on_store env (λ fault now rows. recover fault rows) w in
      elim answer.0 [
        | err e ↦ (recover_failed, answer.1)
        | ok recovered ↦ (ran, (drain_once answer.1).1)
      ]

  unfoldable pub with_replay_lock : M Pass → M Pass
  unfolding under_lock
  with_replay_lock replay w =
      if env.cancelled w.calls then (cancelled_pass, w) else under_lock (env.lock w.calls) replay w

  unfoldable pub process_once : World → World
  unfolding with_replay_lock replay_pass
  process_once w = (with_replay_lock replay_pass w).1

  -- `Run` for the given number of ticks; a context that is done ends it.
  unfoldable pub run : List (Unit {0}) → World → World
  run [] w = process_once w
  run (tick ∷ ticks) w =
      let w' = process_once w in
      let rest = run ticks w' in if env.cancelled w'.calls then w' else rest
