-- ===== src/Ledger/Append/Liveness.antt =====
-- `Append` gets through once an attempt within its eight meets no fault.
use kite_rail.Prelude.{
  ℕ, zero, suc, ◌+◌, ◌-◌, ◌≤◌, ◌<◌, ◌≡◌, refl, ◌∙◌, true, false, none, List, arith, ltb, subst,
}
use kite_rail.Prelude.Text.{Text}
use kite_rail.Ledger.Entry.{LedgerEntry}
use kite_rail.Ledger.Append.{
  AppendError, Faults, ok, err, append_once, commit, after_attempt, is_serialization_failure,
  max_retries, Attempts, retry, append,
}
use kite_rail.Ledger.Append.Extends.{extended, insert-seal}

-- No statement of the attempt fails.
pub record IsClean (f : Faults) : Type 0 where
  pub begins : f.begins ≡ none
  pub locks : f.locks ≡ none
  pub reads_tip : f.reads_tip ≡ none
  pub inserts : f.inserts ≡ none
  pub commits : f.commits ≡ none

module _ (sha256 : Text → Text) (env : Attempts) (entry : LedgerEntry)
    (rows : List LedgerEntry) where
  -- The attempt fails with SQLSTATE 40001, and the pause behind it is not cut short.
  abbrev pub Conflicts : ℕ → Type 0
  Conflicts j =
      (e : AppendError) × (append_once sha256 (env.faults j) (env.now j) entry rows ≡ (err e, rows))
      × (is_serialization_failure e ≡ true)
      × (env.cancelled j ≡ false)

  append_once-clean :
      (j : ℕ)
      → IsClean (env.faults j)
      → append_once sha256 (env.faults j) (env.now j) entry rows
        ≡ (ok, extended sha256 (env.now j) entry rows)
  unfolding append_once commit
  append_once-clean j c = rw (
    c.begins,
    c.locks,
    c.reads_tip,
    c.inserts,
    c.commits,
    insert-seal sha256 (env.now j) entry rows,
  )

  retry-conflict :
      (left attempt : ℕ)
      → attempt < max_retries - 1
      → Conflicts attempt
      → retry sha256 env (suc left) attempt entry rows
        ≡ retry sha256 env left (attempt + 1) entry rows
  unfolding retry after_attempt
  retry-conflict left attempt h (e, fails, serial, goes_on) =
      let more : ltb attempt (max_retries - 1) ≡ true = ground arith in
      rw (fails, serial, goes_on, more)

  retry_succeeds :
      (skip left attempt k : ℕ)
      → attempt + skip ≡ k
      → skip < left
      → left + attempt ≡ max_retries
      → ((j : ℕ) → attempt ≤ j → j < k → Conflicts j)
      → IsClean (env.faults k)
      → retry sha256 env left attempt entry rows ≡ (ok, extended sha256 (env.now k) entry rows)
  unfolding retry after_attempt
  retry_succeeds zero (suc left) attempt k e h b conflicts clean =
      let same : k ≡ attempt = omega arith in
      rw same (rw (append_once-clean attempt (subst (λ i. IsClean (env.faults i)) same clean)))
  retry_succeeds zero zero attempt k e h b conflicts clean = absurd (omega arith)
  retry_succeeds (suc skip) zero attempt k e h b conflicts clean = absurd (omega arith)
  retry_succeeds (suc skip) (suc left) attempt k e h b conflicts clean =
      retry-conflict left attempt (omega arith) (conflicts attempt (omega arith) (omega arith))
      ∙ retry_succeeds skip left (attempt + 1) k (omega arith) (omega arith) (omega arith)
          (λ j low high. conflicts j (omega arith) high) clean

  -- If attempt `k`, one of the eight, meets no fault, and every attempt before it fails with
  -- SQLSTATE 40001 in a context that is not cancelled, then the entry is appended at that attempt.
  pub append_succeeds :
      (k : ℕ)
      → k < max_retries
      → ((j : ℕ) → j < k → Conflicts j)
      → IsClean (env.faults k)
      → append sha256 env entry rows ≡ (ok, extended sha256 (env.now k) entry rows)
  unfolding append
  append_succeeds k h conflicts clean =
      retry_succeeds k max_retries 0 k (omega arith) h refl (λ j low high. conflicts j high) clean
