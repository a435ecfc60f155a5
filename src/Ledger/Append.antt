-- ===== src/Ledger/Append.antt =====
-- `Append` of backend/internal/ledger/ledger.go, with the statements of
-- backend/internal/db/ledger.sql.go that it runs. The table is a list of rows by descending
-- `seq_num`. Whether a statement fails is decided by the environment; sequence numbers stay below
-- 2^63. A commit that fails has changed nothing. Metrics and the length of the pauses are left out.
pub mod Extends
pub mod Liveness
use kite_rail.Prelude.{
  ℕ, zero, suc, ◌+◌, ◌-◌, Bool, true, false, ◌&&◌, Option, none, some, List, [], ◌∷◌, ltb, ◌==◌,
  if◌then◌else◌,
}
use kite_rail.Prelude.Text.{Text}
use kite_rail.Ledger.Timestamp.{Time, is_zero, normalize_timestamp}
use kite_rail.Ledger.Entry.{LedgerEntry, calculate_hash}

-- An error of the database: SQLSTATE 40001, or any other.
pub data DbError : Type 0 where
  serialization_failure other_failure : DbError

-- The errors of `Append`, by where they arise.
pub data AppendError : Type 0 where
  begin_failed lock_failed tip_failed insert_failed commit_failed : DbError → AppendError
  canceled exhausted : AppendError

-- What the database answers to each statement of one attempt.
pub record Faults : Type 0 where
  pub begins : Option DbError
  pub locks : Option DbError
  pub reads_tip : Option DbError
  pub inserts : Option DbError
  pub commits : Option DbError

pub data Result (E : Type 0) : Type 0 where
  ok : Result E
  err : E → Result E

-- `GetLatestLedgerEntry`; no row leaves the zero value.
unfoldable pub get_latest_ledger_entry : List LedgerEntry → ℕ × Text
get_latest_ledger_entry [] = (0, [])
get_latest_ledger_entry (e ∷ es) = (e.seq_num, e.hash)

-- `InsertLedgerEntry`; `none` is a violation of the primary key.
unfoldable pub insert_ledger_entry : LedgerEntry → List LedgerEntry → Option (List LedgerEntry)
insert_ledger_entry e [] = some (e ∷ [])
insert_ledger_entry e (x ∷ xs) =
    let rest = insert_ledger_entry e xs in
    if ltb x.seq_num e.seq_num
    then some (e ∷ x ∷ xs)
    else if x.seq_num == e.seq_num
    then none
    else elim rest [ none ↦ none | some ys ↦ some (x ∷ ys) ]

-- The end of an attempt: the answer of the insert, and then the commit.
unfoldable pub commit :
    Option DbError
    → List LedgerEntry
    → Option (List LedgerEntry)
    → Result AppendError × List LedgerEntry
commit commits rows none = (err (insert_failed other_failure), rows)
commit (some e) rows (some rows') = (err (commit_failed e), rows)
commit none rows (some rows') = (ok, rows')

module _ (sha256 : Text → Text) where
  -- The entry as `appendOnce` completes it before the insert.
  unfoldable pub seal_entry : Time → ℕ × Text → LedgerEntry → LedgerEntry
  seal_entry now (seq, hash) entry =
      let linked = record entry {
        prev_hash = hash;
        seq_num = seq + 1;
        timestamp = normalize_timestamp (if is_zero entry.timestamp then now else entry.timestamp);
      } in
      record linked { hash = calculate_hash sha256 linked }

  unfoldable pub append_once :
      Faults → Time → LedgerEntry → List LedgerEntry → Result AppendError × List LedgerEntry
  unfolding commit
  append_once f now entry rows = elim f.begins [
    | some e ↦ (err (begin_failed e), rows)
    | none ↦ elim f.locks [
      | some e ↦ (err (lock_failed e), rows)
      | none ↦ elim f.reads_tip [
        | some e ↦ (err (tip_failed e), rows)
        | none ↦
            let sealed = seal_entry now (get_latest_ledger_entry rows) entry in
            elim f.inserts [
              | some e ↦ (err (insert_failed e), rows)
              | none ↦ commit f.commits rows (insert_ledger_entry sealed rows)
            ]
      ]
    ]
  ]

abbrev is_40001 : DbError → Bool
is_40001 serialization_failure = true
is_40001 other_failure = false

unfoldable pub is_serialization_failure : AppendError → Bool
is_serialization_failure (begin_failed e) = is_40001 e
is_serialization_failure (lock_failed e) = is_40001 e
is_serialization_failure (tip_failed e) = is_40001 e
is_serialization_failure (insert_failed e) = is_40001 e
is_serialization_failure (commit_failed e) = is_40001 e
is_serialization_failure canceled = false
is_serialization_failure exhausted = false

abbrev pub max_retries : ℕ
max_retries = 8

-- What each attempt meets: the database's answers, the clock, and whether the context is done
-- before the pause behind the attempt is over.
pub record Attempts : Type 0 where
  pub faults : ℕ → Faults
  pub now : ℕ → Time
  pub cancelled : ℕ → Bool

-- The end of a round: return, or wait and go `again`.
unfoldable pub after_attempt :
    ℕ
    → Bool
    → (List LedgerEntry → Result AppendError × List LedgerEntry)
    → Result AppendError × List LedgerEntry
    → Result AppendError × List LedgerEntry
unfolding is_serialization_failure
after_attempt attempt cancelled again (ok, rows) = (ok, rows)
after_attempt attempt cancelled again (err e, rows) =
    if is_serialization_failure e && ltb attempt (max_retries - 1)
    then (if cancelled then (err canceled, rows) else again rows)
    else (err e, rows)

module _ (sha256 : Text → Text) (env : Attempts) where
  -- `for attempt := range maxRetries`, with the rounds that are left.
  unfoldable pub retry :
      ℕ → ℕ → LedgerEntry → List LedgerEntry → Result AppendError × List LedgerEntry
  retry zero attempt entry rows = (err exhausted, rows)
  retry (suc left) attempt entry rows =
      after_attempt attempt (env.cancelled attempt) (λ rows'. retry left (attempt + 1) entry rows')
        (append_once sha256 (env.faults attempt) (env.now attempt) entry rows)

  unfoldable pub append : LedgerEntry → List LedgerEntry → Result AppendError × List LedgerEntry
  unfolding retry
  append entry rows = retry max_retries 0 entry rows
