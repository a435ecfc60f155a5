-- ===== src/Ledger/Verify.antt =====
-- `Stream`, `VerifyChain` and `Verify` of backend/internal/ledger/ledger.go. The ledger table is a
-- list of rows by descending `seq_num`; a read may break off after any number of rows.
pub mod Sound
pub mod Accepts
use mathlib.Core.Option
use kite_rail.Prelude.{
  ℕ, ◌+◌, Bool, true, false, not, ◌&&◌, Option, none, some, List, [], ◌∷◌, ◌++◌, filter, take, ltb,
  ◌==◌, if◌then◌else◌,
}
use kite_rail.Prelude.Text.{Text, text_eq}
use kite_rail.Ledger.Entry.{LedgerEntry, calculate_hash}

pub record Anchor : Type 0 where
  pub seq_num : ℕ
  pub hash : Text

-- The texts of `VerifyReport.Reason`.
pub data Reason : Type 0 where
  broken_link hash_mismatch anchor_mismatch anchor_missing : Reason

pub record VerifyReport : Type 0 where
  pub valid : Bool
  pub entries : ℕ
  pub head_seq : ℕ
  pub head_hash : Text
  pub first_invalid_seq : ℕ
  pub reason : Option Reason

-- `ORDER BY seq_num ASC`
unfoldable pub ascending : List LedgerEntry → List LedgerEntry
ascending [] = []
ascending (e ∷ es) = ascending es ++ (e ∷ [])

-- The rows with `seq_num > afterSeq` in chain order; no condition when `afterSeq` is 0.
unfoldable pub select_after : ℕ → List LedgerEntry → List LedgerEntry
unfolding ascending
select_after after rows =
    if ltb 0 after then ascending (filter (λ e. ltb after e.seq_num) rows) else ascending rows

-- What the callback of `Stream` returns: nil, or an error that ends the loop.
pub data Step (S : Type 0) : Type 0 where
  continue : S → Step S
  stop : S → Step S

-- How `Stream` ends: with nil, with the callback's error, or with an error of the database.
pub data Streamed (S : Type 0) : Type 0 where
  finished : S → Streamed S
  stopped : S → Streamed S
  broken : Streamed S

module _ {S : Type 0} (fn : LedgerEntry → S → Step S) where
  -- The loop over the rows; `cut` says that reading them ended in an error.
  unfoldable pub stream_rows : List LedgerEntry → Bool → S → Streamed S
  stream_rows [] cut s = if cut then broken else finished s
  stream_rows (e ∷ es) cut s = elim (fn e s) [
    | continue s' ↦ stream_rows es cut s'
    | stop s' ↦ stopped s'
  ]

  -- `fault` is the number of rows read before the database fails, if it does.
  unfoldable pub stream : ℕ → Option ℕ → List LedgerEntry → S → Streamed S
  unfolding stream_rows select_after
  stream after none rows s = stream_rows (select_after after rows) false s
  stream after (some k) rows s = stream_rows (take k (select_after after rows)) true s

-- The variables that the callback of `VerifyChain` captures.
pub record Scan : Type 0 where
  pub report : VerifyReport
  pub anchor_seen : Bool

unfoldable pub fail : Reason → ℕ → VerifyReport → VerifyReport
fail reason seq report = record report {
  valid = false;
  first_invalid_seq = seq;
  reason = some reason;
}

unfoldable pub fresh_scan : Scan
fresh_scan = record {
  report = record {
    valid = true;
    entries = 0;
    head_seq = 0;
    head_hash = [];
    first_invalid_seq = 0;
    reason = none;
  };
  anchor_seen = false;
}

unfoldable pub advance : LedgerEntry → Bool → VerifyReport → Step Scan
advance e seen report = continue (record {
  report = record report { head_seq = e.seq_num; head_hash = e.hash };
  anchor_seen = seen;
})

unfoldable pub check_anchor : Option Anchor → LedgerEntry → Bool → VerifyReport → Step Scan
unfolding advance fail
check_anchor none e seen report = advance e seen report
check_anchor (some a) e seen report =
    if e.seq_num == a.seq_num
    then (if text_eq e.hash a.hash
        then advance e true report
        else stop (record { report = fail anchor_mismatch e.seq_num report; anchor_seen = true }))
    else advance e seen report

module _ (sha256 : Text → Text) where
  unfoldable pub verify_step : Option Anchor → LedgerEntry → Scan → Step Scan
  unfolding check_anchor fail
  verify_step anchor e s =
      let report = record (s.report) { entries = s.report.entries + 1 } in
      if not (text_eq e.prev_hash report.head_hash)
      then stop (record s { report = fail broken_link e.seq_num report })
      else if not (text_eq e.hash (calculate_hash sha256 e))
      then stop (record s { report = fail hash_mismatch e.seq_num report })
      else check_anchor anchor e s.anchor_seen report

  unfoldable pub conclude : Option Anchor → Scan → VerifyReport
  unfolding fail
  conclude none s = s.report
  conclude (some a) s =
      if s.report.valid && not s.anchor_seen
      then fail anchor_missing a.seq_num s.report
      else s.report

  -- `none` is an error of the database.
  unfoldable pub verify_chain : Option Anchor → Option ℕ → List LedgerEntry → Option VerifyReport
  unfolding stream verify_step conclude fresh_scan
  verify_chain anchor fault rows = elim (stream (verify_step anchor) 0 fault rows fresh_scan) [
    | finished s ↦ some (conclude anchor s)
    | stopped s ↦ some (conclude anchor s)
    | broken ↦ none
  ]

  unfoldable pub verify : Option ℕ → List LedgerEntry → Option Bool
  verify fault rows = Option.map (λ (r : VerifyReport). r.valid) (verify_chain none fault rows)
