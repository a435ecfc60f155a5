-- ===== src/Quarantine/Worker/WriteAhead/Claim.antt =====
-- The write-ahead rule for one claimed entry.
use kite_rail.Prelude.{
  ℕ, ◌≡◌, inl, inr, Bool, true, false, ltb, Option, none, some, arith, if◌then◌else◌, Bool-cases,
}
use kite_rail.Prelude.Text.{Text, codes}
use kite_rail.Prelude.Headers.{Headers}
use kite_rail.Policy.{Action, allow, deny, quarantine, other, ProxyDecision}
use kite_rail.Ledger.Entry.{LedgerEntry}
use kite_rail.Quarantine.Store.{Result, ok, err, QuarantineEntry}
use kite_rail.Quarantine.World.{
  World, Env, M, on_store, on_ledger, pure, ◌>>=◌, audit_entry, payload_hash,
}
use kite_rail.Quarantine.Worker.{
  Worker, start_replay, current_decision, block, blocked_by_current_policy, is_blocked,
  process_claimed, approver,
}
use kite_rail.Quarantine.Worker.WriteAhead.{
  WriteAhead, Keeps, on_store-Keeps, on_ledger-Keeps, park_exhausted-Keeps, start_replay-Keeps,
}

module _ (env : Env) (wk : Worker) where
  block-Keeps :
      (entry : QuarantineEntry) (by : Text) (d : ProxyDecision) → Keeps (block env wk entry by d)
  unfolding block
  block-Keeps entry by d w h = after (on_store env _ w).0 _ (on_store-Keeps env _ w h)
    where
      noted : LedgerEntry
      noted =
          audit_entry by entry.tool_name (codes "replay_blocked_by_policy") d.rule
            (payload_hash wk.sha256 entry.payload) entry.id d.policy_version

      after :
          (r : Result (Unit {0})) (v : World)
          → WriteAhead v.history
          → WriteAhead
              ((elim r as (λ _. M Bool) [
                | err e ↦ pure true
                | ok _ ↦
                    if wk.has_ledger then (on_ledger env noted >>= λ a. pure true) else pure true
              ])
                v).1.history
      after (ok a) v k = elim (Bool-cases wk.has_ledger) [
        | inl has ↦ simp has (on_ledger-Keeps env noted v k)
        | inr no_ledger ↦ simp no_ledger k
      ]
      after (err e) v k = k

  pub current_decision-history :
      (recheck : ℕ → Text → Text → Headers → Option ProxyDecision) (entry : QuarantineEntry)
      (w : World)
      → (current_decision env wk recheck entry w).1.history ≡ w.history
  unfolding current_decision
  current_decision-history recheck entry w = ground arith

  blocked_by-Keeps :
      (recheck : ℕ → Text → Text → Headers → Option ProxyDecision) (entry : QuarantineEntry)
      (by : Text)
      → Keeps (blocked_by_current_policy env wk recheck entry by)
  unfolding blocked_by_current_policy
  blocked_by-Keeps recheck entry by w h =
      after (current_decision env wk recheck entry w).0 _
        (rw (current_decision-history recheck entry w) h)
    where
      by_action :
          (a : Action) (d : ProxyDecision) (v : World)
          → WriteAhead v.history
          → WriteAhead
              ((elim a as (λ _. M Bool) [ deny ↦ block env wk entry by d | _ ↦ pure false ])
                v).1.history
      by_action deny d v k = block-Keeps entry by d v k
      by_action allow d v k = k
      by_action quarantine d v k = k
      by_action (other s) d v k = k

      after :
          (d : ProxyDecision) (v : World)
          → WriteAhead v.history
          → WriteAhead
              ((elim d.action as (λ _. M Bool) [ deny ↦ block env wk entry by d | _ ↦ pure false ])
                v).1.history
      after d v k = by_action d.action d v k

  is_blocked-Keeps :
      (recheck : Option (ℕ → Text → Text → Headers → Option ProxyDecision))
      (entry : QuarantineEntry) (by : Text)
      → Keeps (is_blocked env wk recheck entry by)
  unfolding is_blocked
  is_blocked-Keeps none entry by w h = h
  is_blocked-Keeps (some recheck) entry by w h = blocked_by-Keeps recheck entry by w h

  pub process_claimed-Keeps :
      wk.has_ledger ≡ true → (entry : QuarantineEntry) → Keeps (process_claimed env wk entry)
  unfolding process_claimed
  process_claimed-Keeps has entry w h =
      elim (Bool-cases (ltb wk.max_replay_attempts entry.attempts)) [
        | inl exhausted ↦ rw exhausted (park_exhausted-Keeps env wk entry (approver entry) w h)
        | inr left ↦ rw left (
            go (is_blocked env wk wk.recheck entry (approver entry) w).0 _
              (is_blocked-Keeps wk.recheck entry (approver entry) w h))
      ]
    where
      go :
          (blocked : Bool) (v : World)
          → WriteAhead v.history
          → WriteAhead
              ((if blocked then pure tt else start_replay env wk entry (approver entry))
                v).1.history
      go true v k = k
      go false v k = start_replay-Keeps env wk has entry (approver entry) v k
