-- ===== src/Ledger/Page.antt =====
-- `Page` of backend/internal/ledger/ledger.go over the statement `ListLedgerPage`, `Head` and
-- `Query`. The table is a list of rows by descending `seq_num`; `fault` says that the read fails.
use kite_rail.Prelude.{
  ℕ, Bool, true, false, ◌&&◌, Option, none, some, List, [], ◌∷◌, filter, take, ltb, ◌==◌,
  if◌then◌else◌,
}
use kite_rail.Prelude.Text.{Text, text_eq}
use kite_rail.Prelude.Numbers.{max_int64}
use kite_rail.Ledger.Entry.{LedgerEntry}
use kite_rail.Ledger.Timestamp.{Time}

-- `before_seq` is 0 to start at the head.
pub record PageQuery : Type 0 where
  pub before_seq : ℕ
  pub limit : ℕ
  pub agent : Text
  pub decision : Text
  pub tool : Text

-- `$2 = '' OR agent = $2`
unfoldable pub passes : Text → Text → Bool
passes [] value = true
passes (c ∷ s) value = text_eq value (c ∷ s)

unfoldable pub matches : PageQuery → LedgerEntry → Bool
unfolding passes
matches p e = passes p.agent e.agent && passes p.decision e.decision && passes p.tool e.tool

-- The `WHERE`, `ORDER BY seq_num DESC` and `LIMIT` of the statement.
unfoldable pub list_ledger_page : PageQuery → ℕ → List LedgerEntry → List LedgerEntry
list_ledger_page p before rows =
    take p.limit (filter (λ e. ltb e.seq_num before && matches p e) rows)

unfoldable pub page : Bool → PageQuery → List LedgerEntry → Option (List LedgerEntry)
unfolding list_ledger_page
page fault p rows =
    let before = if p.before_seq == 0 then max_int64 else p.before_seq in
    if fault then none else some (list_ledger_page p before rows)

-- `ListRecentLedgerEntries`
unfoldable pub query : Bool → List LedgerEntry → Option (List LedgerEntry)
query fault rows = if fault then none else some (take 100 rows)

pub record HeadRow : Type 0 where
  pub seq_num : ℕ
  pub hash : Text
  pub timestamp : Time

-- `none` is an error; the inner `none` is an empty ledger.
unfoldable pub head : Bool → List LedgerEntry → Option (Option HeadRow)
head true rows = none
head false [] = some none
head false (e ∷ es) =
    some (some (record { seq_num = e.seq_num; hash = e.hash; timestamp = e.timestamp }))
