-- ===== src/Ledger/Append/Extends.antt =====
-- `Append` adds one sealed entry or nothing, and what it builds always verifies.
use kite_rail.Prelude.{
  ℕ, zero, suc, ◌+◌, ◌-◌, ◌<◌, ◌≡◌, ◌≢◌, inl, inr, refl, ap, Bool, true, ◌&&◌, Option, none, some,
  List, [], ◌∷◌, arith, ltb, Bool-cases, All,
}
use kite_rail.Prelude.Text.{Text}
use kite_rail.Ledger.Timestamp.{Time}
use kite_rail.Ledger.Entry.{LedgerEntry, hashed_fields, calculate_hash}
use kite_rail.Ledger.Chain.{head_hash, IsChain}
use kite_rail.Ledger.Append.{
  DbError, AppendError, exhausted, Faults, Result, ok, err, get_latest_ledger_entry,
  insert_ledger_entry, seal_entry, after_attempt, append_once, is_serialization_failure,
  max_retries, Attempts, retry, append,
}
use kite_rail.Ledger.Verify.{verify}
use kite_rail.Ledger.Verify.Sound.{Agrees}
use kite_rail.Ledger.Verify.Accepts.{verify_chain_exact}

module _ (sha256 : Text → Text) where
  -- The table with the entry that one attempt at time `now` would add.
  abbrev pub extended : Time → LedgerEntry → List LedgerEntry → List LedgerEntry
  extended now entry rows = seal_entry sha256 now (get_latest_ledger_entry rows) entry ∷ rows

  pub insert-seal :
      (now : Time) (entry : LedgerEntry) (rows : List LedgerEntry)
      → insert_ledger_entry (seal_entry sha256 now (get_latest_ledger_entry rows) entry) rows
        ≡ some (extended now entry rows)
  unfolding insert_ledger_entry seal_entry get_latest_ledger_entry
  insert-seal now entry [] = refl
  insert-seal now entry (e ∷ es) = ground arith

  extended-IsChain :
      (now : Time) (entry : LedgerEntry) (rows : List LedgerEntry)
      → IsChain sha256 rows
      → IsChain sha256 (extended now entry rows)
  unfolding seal_entry get_latest_ledger_entry head_hash calculate_hash hashed_fields
  extended-IsChain now entry [] h = (refl, refl, tt)
  extended-IsChain now entry (e ∷ es) h = (refl, refl, h)

  -- What a call that began at `rows` has done.
  abbrev pub Appended :
      (Time → Type 0)
      → LedgerEntry
      → List LedgerEntry
      → Result AppendError × List LedgerEntry
      → Type 0
  Appended At entry rows (ok, rows') = (now : Time) × At now × (rows' ≡ extended now entry rows)
  Appended At entry rows (err e, rows') = (rows' ≡ rows) × (e ≢ exhausted)

  -- The statements of an attempt in order: the first that fails ends it.
  attempt-Appended :
      (b l t i c : Option DbError) (now : Time) (entry : LedgerEntry) (rows : List LedgerEntry)
      → Appended
          (λ t. t ≡ now)
          entry
          rows
          (append_once sha256
            (record { begins = b; locks = l; reads_tip = t; inserts = i; commits = c })
            now
            entry
            rows)
  unfolding append_once
  attempt-Appended (some e) l t i c now entry rows = (refl, λ p. cc)
  attempt-Appended none (some e) t i c now entry rows = (refl, λ p. cc)
  attempt-Appended none none (some e) i c now entry rows = (refl, λ p. cc)
  attempt-Appended none none none (some e) c now entry rows = (refl, λ p. cc)
  attempt-Appended none none none none (some e) now entry rows =
      rw (insert-seal now entry rows) (refl, λ p. cc)
  attempt-Appended none none none none none now entry rows =
      rw (insert-seal now entry rows) (now, refl, refl)

  append_once-Appended :
      (f : Faults) (now : Time) (entry : LedgerEntry) (rows : List LedgerEntry)
      → Appended (λ t. t ≡ now) entry rows (append_once sha256 f now entry rows)
  append_once-Appended f now entry rows =
      attempt-Appended f.begins f.locks f.reads_tip f.inserts f.commits now entry rows

  -- A round ends in a result, or goes on from the table it found.
  after_attempt-Appended :
      (At : Time → Type 0) (attempt : ℕ) (cancelled : Bool)
      (again : List LedgerEntry → Result AppendError × List LedgerEntry) (entry : LedgerEntry)
      (rows : List LedgerEntry) (r : Result AppendError × List LedgerEntry)
      → Appended At entry rows r
      → (attempt < max_retries - 1 → Appended At entry rows (again rows))
      → Appended At entry rows (after_attempt attempt cancelled again r)
  unfolding after_attempt
  after_attempt-Appended At attempt cancelled again entry rows (ok, rows') h next = h
  after_attempt-Appended At attempt cancelled again entry rows (err e, rows') h next =
      elim (Bool-cases (is_serialization_failure e && ltb attempt (max_retries - 1))) [
        | inr final ↦ rw final h
        | inl more ↦ elim (Bool-cases cancelled) [
          | inl stop ↦ rw (more, stop) (h.0, λ q. cc)
          | inr on ↦ rw (more, on, h.0) (next (ground arith))
        ]
      ]

  module _ (env : Attempts) where
    -- The time is that of one of the attempts.
    abbrev pub AtAttempt : Time → Type 0
    AtAttempt t = (k : ℕ) × (k < max_retries) × (t ≡ env.now k)

    retry-Appended :
        (left attempt : ℕ) (entry : LedgerEntry) (rows : List LedgerEntry)
        → left + attempt ≡ max_retries
        → 0 < left
        → Appended AtAttempt entry rows (retry sha256 env left attempt entry rows)
    unfolding retry
    retry-Appended zero attempt entry rows e pos = absurd (omega arith)
    retry-Appended (suc left) attempt entry rows e pos =
        after_attempt-Appended AtAttempt attempt (env.cancelled attempt) _ entry rows _
          (weaken _ (append_once-Appended (env.faults attempt) (env.now attempt) entry rows))
          (λ more. retry-Appended left (attempt + 1) entry rows (omega arith) (omega arith))
      where
        weaken :
            (r : Result AppendError × List LedgerEntry)
            → Appended (λ t. t ≡ env.now attempt) entry rows r
            → Appended AtAttempt entry rows r
        weaken (ok, rows') h = (h.0, (attempt, omega arith, h.1), h.2)
        weaken (err x, rows') h = h

    Appended-IsChain :
        (entry : LedgerEntry) (rows : List LedgerEntry) (r : Result AppendError × List LedgerEntry)
        → Appended AtAttempt entry rows r
        → IsChain sha256 rows
        → IsChain sha256 r.1
    Appended-IsChain entry rows (ok, rows') h chain = rw h.2 (extended-IsChain h.0 entry rows chain)
    Appended-IsChain entry rows (err e, rows') h chain = rw h.0 chain

    -- `Append` on a chain leaves a chain: it succeeds and has put the entry, linked to the last one
    -- and hashed at the time of one of its eight attempts, on top of the table, or it reports an
    -- error, never that the attempts ran out, and has changed nothing.
    pub append_extends :
        (entry : LedgerEntry) (rows : List LedgerEntry)
        → IsChain sha256 rows
        → IsChain sha256 (append sha256 env entry rows).1
          × Appended AtAttempt entry rows (append sha256 env entry rows)
    unfolding append
    append_extends entry rows chain =
        let outcome = retry-Appended max_retries 0 entry rows refl (omega arith) in
        (Appended-IsChain entry rows _ outcome chain, outcome)

  -- Any number of calls of `Append`, each with what it meets.
  unfoldable pub append_all : List (Attempts × LedgerEntry) → List LedgerEntry → List LedgerEntry
  append_all [] rows = rows
  append_all ((env, entry) ∷ calls) rows = append_all calls (append sha256 env entry rows).1

  append_all-IsChain :
      (calls : List (Attempts × LedgerEntry)) (rows : List LedgerEntry)
      → IsChain sha256 rows
      → IsChain sha256 (append_all calls rows)
  unfolding append_all
  append_all-IsChain [] rows h = h
  append_all-IsChain ((env, entry) ∷ calls) rows h =
      append_all-IsChain calls _ (append_extends env entry rows h).0

  -- A ledger that was built by any calls of `Append`, whatever the database refused, passes
  -- `Verify` when no read fails.
  pub append_all-verify :
      (calls : List (Attempts × LedgerEntry)) → verify sha256 none (append_all calls []) ≡ some true
  unfolding verify
  append_all-verify calls =
      let rows = append_all calls [] in
      let (r, ran, exact, count) = verify_chain_exact sha256 none rows in
      let valid = exact.1 (append_all-IsChain calls [] tt, anything rows, tt) in
      rw ran (ap some valid)
    where
      anything : (rows : List LedgerEntry) → All (Agrees none) rows
      anything [] = tt
      anything (e ∷ es) = (tt, anything es)
