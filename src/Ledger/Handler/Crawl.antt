-- ===== src/Ledger/Handler/Crawl.antt =====
-- A client of the ledger API that passes each X-Next-Before back as `before` reads every entry that
-- its filters match, once and newest first.
use kite_rail.Prelude.{
  ℕ, zero, suc, ◌<◌, Bool, false, ◌&&◌, none, some, List, [], ◌∷◌, ◌++◌, All, filter, ltb, ◌==◌,
  if◌then◌else◌,
}
use kite_rail.Prelude.Numbers.{max_int64}
use kite_rail.Ledger.Entry.{LedgerEntry}
use kite_rail.Ledger.Page.{PageQuery, matches, page}
use kite_rail.Ledger.Handler.{Reply, entries, reply_page}

-- What a client has read once a reply is in, with what it reads from a cursor on.
follow : (ℕ → List LedgerEntry) → Reply → List LedgerEntry
follow onwards (entries es (some next)) = es ++ onwards next
follow onwards (entries es none) = es
follow onwards _ = []

abbrev from : PageQuery → ℕ → PageQuery
from p m = record p { before_seq = m }

-- The requests of such a client from cursor `p.before_seq`, and all that it has read.
unfoldable pub crawl : ℕ → PageQuery → List LedgerEntry → List LedgerEntry
unfolding follow
crawl zero p rows = []
crawl (suc fuel) p rows =
    follow (λ next. crawl fuel (from p next) rows) (reply_page p.limit (page false p rows))

abbrev below : ℕ → LedgerEntry → Bool
below m e = ltb e.seq_num m

-- The entries that a query is about, from a cursor on.
abbrev pub selected : PageQuery → ℕ → List LedgerEntry → List LedgerEntry
selected p before rows = filter (λ e. below before e && matches p e) rows

abbrev pub IsDescending : List LedgerEntry → Type 0
IsDescending [] = Unit {0}
IsDescending (e ∷ es) = All (λ d. d.seq_num < e.seq_num) es × IsDescending es

-- The cursor that `page` uses.
abbrev pub cursor : PageQuery → ℕ
cursor p = if p.before_seq == 0 then max_int64 else p.before_seq
