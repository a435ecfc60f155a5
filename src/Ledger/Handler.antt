-- ===== src/Ledger/Handler.antt =====
-- The HTTP API of the ledger, backend/internal/ledger/handler.go, as the replies it writes.
pub mod Crawl
use kite_rail.Prelude.{
  ℕ, ◌+◌, Bool, true, false, not, ◌&&◌, ◌||◌, Option, none, some, List, [], ◌∷◌, length, ltb, leb,
  ◌==◌, if◌then◌else◌,
}
use kite_rail.Prelude.Text.{Text, codes, text_eq}
use kite_rail.Prelude.Numbers.{Signed, nonneg, negative, parse_int}
use kite_rail.Prelude.Http.{Method, is_get, is_post, query_get}
use kite_rail.Ledger.Entry.{LedgerEntry}
use kite_rail.Ledger.Page.{PageQuery, HeadRow, page, head}
use kite_rail.Ledger.Verify.{Anchor, VerifyReport, verify_chain, select_after}

-- The body of a POST to /verify: none, not decodable, or a decoded `Anchor`.
pub data AnchorBody : Type 0 where
  no_body malformed : AnchorBody
  decoded : Signed → Text → AnchorBody

pub record Request : Type 0 where
  pub method : Method
  pub path : Text
  pub params : List (Text × Text)
  pub body : AnchorBody

pub data Reply : Type 0 where
  -- A status with an error text.
  failure : ℕ → Reply
  -- A page, with the value of the X-Next-Before header if it is set.
  entries : List LedgerEntry → Option ℕ → Reply
  -- The head of the chain; `none` is the empty ledger.
  head_row : Option HeadRow → Reply
  -- The lines of an export.
  exported : List LedgerEntry → Reply
  report : VerifyReport → Reply

abbrev pub default_page_size : ℕ
default_page_size = 100

abbrev pub max_page_size : ℕ
max_page_size = 1000

-- `limit`: the default when it is absent, `none` when it is refused.
unfoldable pub parse_limit : Text → Option ℕ
parse_limit [] = some default_page_size
parse_limit (c ∷ s) = elim (parse_int (c ∷ s)) [
  | none ↦ none
  | some (negative n) ↦ none
  | some (nonneg n) ↦ if ltb n 1 || ltb max_page_size n then none else some n
]

-- `before`: 0 when it is absent, `none` when it is refused.
unfoldable pub parse_before : Text → Option ℕ
parse_before [] = some 0
parse_before (c ∷ s) = elim (parse_int (c ∷ s)) [
  | none ↦ none
  | some (negative n) ↦ none
  | some (nonneg n) ↦ if ltb n 1 then none else some n
]

-- `after_seq`: 0 when it is absent, `none` when it is refused.
unfoldable pub parse_after : Text → Option ℕ
parse_after [] = some 0
parse_after (c ∷ s) = elim (parse_int (c ∷ s)) [
  | none ↦ none
  | some (negative n) ↦ none
  | some (nonneg n) ↦ some n
]

unfoldable pub last_seq : List LedgerEntry → Option ℕ
last_seq [] = none
last_seq (e ∷ []) = some e.seq_num
last_seq (e ∷ d ∷ es) = last_seq (d ∷ es)

-- A full page names its last entry as the next cursor.
unfoldable pub reply_page : ℕ → Option (List LedgerEntry) → Reply
unfolding last_seq
reply_page limit none = failure 500
reply_page limit (some es) = entries es (if length es == limit then last_seq es else none)

unfoldable pub handle_query : Bool → Request → List LedgerEntry → Reply
unfolding parse_limit parse_before reply_page
handle_query fault r rows =
    if not (is_get r.method)
    then failure 405
    else elim (parse_limit (query_get (codes "limit") r.params)) [
      | none ↦ failure 400
      | some limit ↦ elim (parse_before (query_get (codes "before") r.params)) [
        | none ↦ failure 400
        | some before ↦ reply_page limit (
            page fault
              (record {
                before_seq = before;
                limit = limit;
                agent = query_get (codes "agent") r.params;
                decision = query_get (codes "decision") r.params;
                tool = query_get (codes "tool") r.params;
              })
              rows)
      ]
    ]

unfoldable pub handle_head : Bool → Request → List LedgerEntry → Reply
handle_head fault r rows =
    if not (is_get r.method)
    then failure 405
    else elim (head fault rows) [ none ↦ failure 500 | some row ↦ head_row row ]

-- `parseAnchor`: `none` is its error, the inner `none` is no anchor.
unfoldable pub anchor_of_body : AnchorBody → Option (Option Anchor)
anchor_of_body no_body = some none
anchor_of_body malformed = none
anchor_of_body (decoded (negative n) hash) = none
anchor_of_body (decoded (nonneg n) []) = if n == 0 then some none else none
anchor_of_body (decoded (nonneg n) (c ∷ s)) =
    if ltb n 1 then none else some (some (record { seq_num = n; hash = c ∷ s }))

unfoldable pub anchor_of_params : Text → Text → Option (Option Anchor)
anchor_of_params [] [] = some none
anchor_of_params [] (c ∷ hash) = none
anchor_of_params (c ∷ seq) hash = elim (parse_int (c ∷ seq)) [
  | none ↦ none
  | some (negative n) ↦ none
  | some (nonneg n) ↦
      if ltb n 1 || text_eq hash [] then none else some (some (record { seq_num = n; hash = hash }))
]

abbrev has_body : AnchorBody → Bool
has_body no_body = false
has_body body = true

unfoldable pub parse_anchor : Request → Option (Option Anchor)
unfolding anchor_of_body anchor_of_params
parse_anchor r =
    if is_post r.method && has_body r.body
    then anchor_of_body r.body
    else anchor_of_params (query_get (codes "anchor_seq") r.params)
        (query_get (codes "anchor_hash") r.params)

-- `acquireFullScan`: whether the scan is admitted, and the flag behind it.
unfoldable pub acquire_full_scan : Bool → Bool × Bool
acquire_full_scan true = (false, true)
acquire_full_scan false = (true, true)

module _ (sha256 : Text → Text) where
  -- `full_scan` is the flag when the request arrives.
  unfoldable pub handle_verify : Bool → Option ℕ → Request → List LedgerEntry → Reply
  unfolding parse_anchor acquire_full_scan
  handle_verify full_scan fault r rows =
      if not (is_get r.method || is_post r.method) then failure 405 else elim (parse_anchor r) [
        | none ↦ failure 400
        | some anchor ↦
            if not (acquire_full_scan full_scan).0
            then failure 429
            else elim (verify_chain sha256 anchor fault rows) [
              | none ↦ failure 500
              | some found ↦ report found
            ]
      ]
