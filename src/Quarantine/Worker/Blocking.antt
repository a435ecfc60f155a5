-- ===== src/Quarantine/Worker/Blocking.antt =====
-- A replay that the policy now in force denies is not sent.
use kite_rail.Prelude.{
  ℕ, ◌≡◌, refl, ◌∙◌, ap, sym, subst, inl, inr, Bool, true, false, ltb, Option, some, List, [], ◌∷◌,
  arith, if◌then◌else◌, Bool-cases,
}
use kite_rail.Prelude.Text.{Text, codes}
use kite_rail.Prelude.Headers.{Headers}
use kite_rail.Policy.{Action, deny, ProxyDecision}
use kite_rail.Ledger.Entry.{LedgerEntry}
use kite_rail.Quarantine.Table.{Rows}
use kite_rail.Quarantine.Store.{Result, ok, err, QuarantineEntry}
use kite_rail.Quarantine.World.{
  World, Effect, appended, posted, Post, Env, M, on_store, on_ledger, pure, ◌>>=◌, audit_entry,
  payload_hash,
}
use kite_rail.Quarantine.Worker.{
  Worker, append_ledger, record_ledger, start_replay, park_exhausted, current_decision, block,
  blocked_by_current_policy, is_blocked, process_claimed, approver,
}
use kite_rail.Quarantine.Worker.WriteAhead.Claim.{current_decision-history}

-- The requests in a history.
unfoldable pub posts : List Effect → List Post
posts [] = []
posts (posted p ∷ older) = p ∷ posts older
posts (appended e ∷ older) = posts older

-- An action that sends nothing, from a world.
abbrev pub SendsNothing : {A : Type 0} → M A → World → Type 0
SendsNothing m w = posts (m w).1.history ≡ posts w.history

module _ (env : Env) (wk : Worker) where
  pub on_store-SendsNothing :
      {A : Type 0} (f : Bool → ℕ → Rows → Result A × Rows) (w : World)
      → SendsNothing (on_store env f) w
  unfolding on_store
  on_store-SendsNothing f w = refl

  pub on_ledger-SendsNothing : (e : LedgerEntry) (w : World) → SendsNothing (on_ledger env e) w
  unfolding on_ledger posts
  on_ledger-SendsNothing e w = ground arith

  pub record_ledger-SendsNothing :
      (entry : QuarantineEntry) (by decision : Text) (w : World)
      → SendsNothing (record_ledger env wk entry by decision) w
  unfolding record_ledger append_ledger
  record_ledger-SendsNothing entry by decision w = elim (Bool-cases wk.has_ledger) [
    | inl has ↦ rw has (on_ledger-SendsNothing _ w)
    | inr no_ledger ↦ rw no_ledger refl
  ]

  pub park_exhausted-SendsNothing :
      (entry : QuarantineEntry) (by : Text) (w : World)
      → SendsNothing (park_exhausted env wk entry by) w
  unfolding park_exhausted
  park_exhausted-SendsNothing entry by w = after (on_store env _ w).0 _ (on_store-SendsNothing _ w)
    where
      after :
          (r : Result (Unit {0})) (v : World)
          → posts v.history ≡ posts w.history
          → posts
              ((elim r as (λ _. M (Unit {0})) [
                | err e ↦ pure tt
                | ok _ ↦ record_ledger env wk entry by (codes "replay_exhausted")
              ])
                v).1.history
            ≡ posts w.history
      after (ok a) v same = record_ledger-SendsNothing entry by (codes "replay_exhausted") v ∙ same
      after (err e) v same = same

  -- The entry is blocked, and nothing has been sent.
  pub block-SendsNothing :
      (entry : QuarantineEntry) (by : Text) (d : ProxyDecision) (w : World)
      → ((block env wk entry by d w).0 ≡ true) × SendsNothing (block env wk entry by d) w
  unfolding block
  block-SendsNothing entry by d w = after (on_store env _ w).0 _ (on_store-SendsNothing _ w)
    where
      noted : LedgerEntry
      noted =
          audit_entry by entry.tool_name (codes "replay_blocked_by_policy") d.rule
            (payload_hash wk.sha256 entry.payload) entry.id d.policy_version

      rest : Result (Unit {0}) → M Bool
      rest r = elim r [
        | err e ↦ pure true
        | ok _ ↦ if wk.has_ledger then (on_ledger env noted >>= λ a. pure true) else pure true
      ]

      after :
          (r : Result (Unit {0})) (v : World)
          → posts v.history ≡ posts w.history
          → ((rest r v).0 ≡ true) × (posts (rest r v).1.history ≡ posts w.history)
      after (ok a) v same = elim (Bool-cases wk.has_ledger) [
        | inl has ↦ simp has (refl, on_ledger-SendsNothing noted v ∙ same)
        | inr no_ledger ↦ simp no_ledger (refl, same)
      ]
      after (err e) v same = (refl, same)

  blocked_by-SendsNothing :
      (recheck : ℕ → Text → Text → Headers → Option ProxyDecision) (entry : QuarantineEntry)
      (by : Text) (w : World)
      → (current_decision env wk recheck entry w).0.action ≡ deny
      → ((blocked_by_current_policy env wk recheck entry by w).0 ≡ true)
        × SendsNothing (blocked_by_current_policy env wk recheck entry by) w
  unfolding blocked_by_current_policy
  blocked_by-SendsNothing recheck entry by w denied =
      let d = (current_decision env wk recheck entry w).0 in
      let v = (current_decision env wk recheck entry w).1 in
      let (stops, quiet) = block-SendsNothing entry by d v in
      subst (λ a. ((choice d a v).0 ≡ true) × (posts (choice d a v).1.history ≡ posts w.history))
        (sym denied) (stops, quiet ∙ ap posts (current_decision-history env wk recheck entry w))
    where
      choice : ProxyDecision → Action → M Bool
      choice d a = elim a [ deny ↦ block env wk entry by d | _ ↦ pure false ]

  -- If a re-check is configured and denies the held request now, be it by the policy's answer, since
  -- the re-check fails, or since the stored headers do not decode, then the worker sends nothing for
  -- the claimed entry, whatever its attempts are and whatever fails.
  pub denied_replay-SendsNothing :
      (recheck : ℕ → Text → Text → Headers → Option ProxyDecision) (entry : QuarantineEntry)
      (w : World)
      → wk.recheck ≡ some recheck
      → (current_decision env wk recheck entry w).0.action ≡ deny
      → SendsNothing (process_claimed env wk entry) w
  unfolding process_claimed is_blocked
  denied_replay-SendsNothing recheck entry w configured denied =
      elim (Bool-cases (ltb wk.max_replay_attempts entry.attempts)) [
        | inl exhausted ↦ rw exhausted (park_exhausted-SendsNothing entry (approver entry) w)
        | inr left ↦
            let (stops, quiet) = blocked_by-SendsNothing recheck entry (approver entry) w denied in
            let v = (blocked_by_current_policy env wk recheck entry (approver entry) w).1 in
            rw left (
              subst
                (λ o.
                  posts (finish (is_blocked env wk o entry (approver entry) w)).1.history
                  ≡ posts w.history)
                (sym configured)
                (subst (λ b. posts (finish (b, v)).1.history ≡ posts w.history) (sym stops) quiet))
      ]
    where
      finish : Bool × World → Unit {0} × World
      finish (b, v) = (if b then pure tt else start_replay env wk entry (approver entry)) v
