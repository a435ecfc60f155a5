-- ===== src/Ledger/Verify/Accepts.antt =====
-- What a report of `VerifyChain` says of the whole table.
use kite_rail.Prelude.{
  ◌+◌, ◌≡◌, ◌↔◌, refl, sym, ◌∙◌, Bool, true, false, ◌||◌, Option, none, some, List, [], ◌∷◌, ◌++◌,
  append-nil, append_assoc, arith, All, any, length,
}
use kite_rail.Prelude.Text.{Text}
use kite_rail.Ledger.Entry.{LedgerEntry}
use kite_rail.Ledger.Chain.{head_hash, IsChain}
use kite_rail.Ledger.Verify.{
  Anchor, VerifyReport, Streamed, finished, stopped, broken, Scan, fresh_scan, ascending,
  select_after, stream, conclude, verify_chain,
}
use kite_rail.Ledger.Verify.Sound.{Agrees, mentions, IsSegment, Outcome, stream_rows-Outcome}

module _ (sha256 : Text → Text) where
  IsSegment-of_IsChain :
      (rows tail : List LedgerEntry)
      → IsSegment sha256 [] (ascending rows ++ tail)
        ↔ (IsChain sha256 rows × IsSegment sha256 (head_hash rows) tail)
  unfolding ascending head_hash
  IsSegment-of_IsChain [] tail = ((λ h. (tt, h)), λ h. h.1)
  IsSegment-of_IsChain (e ∷ es) tail = rw append_assoc (
    (λ h.
        let (older, newer) = (IsSegment-of_IsChain es (e ∷ tail)).0 h in
        ((newer.0, newer.1, older), newer.2)),
    λ h. (IsSegment-of_IsChain es (e ∷ tail)).1 (h.0.2, (h.0.0, h.0.1, h.1)),
  )

  IsSegment-iff_IsChain :
      (rows : List LedgerEntry) → IsSegment sha256 [] (ascending rows) ↔ IsChain sha256 rows
  IsSegment-iff_IsChain rows =
      let both = rw append-nil at (IsSegment-of_IsChain rows []) in
      ((λ h. (both.0 h).0), λ h. both.1 (h, tt))

All-ascending {ℓ} :
    (P : LedgerEntry → Type ℓ) (rows tail : List LedgerEntry)
    → All P (ascending rows ++ tail) ↔ (All P rows × All P tail)
unfolding ascending
All-ascending P [] tail = ((λ h. (tt, h)), λ h. h.1)
All-ascending P (e ∷ es) tail = rw append_assoc (
  (λ h. let (older, newer) = (All-ascending P es (e ∷ tail)).0 h in ((newer.0, older), newer.1)),
  λ h. (All-ascending P es (e ∷ tail)).1 (h.0.1, (h.0.0, h.1)),
)

any-ascending :
    (p : LedgerEntry → Bool) (rows tail : List LedgerEntry)
    → any p (ascending rows ++ tail) ≡ (any p rows || any p tail)
unfolding ascending
any-ascending p [] tail = refl
any-ascending p (e ∷ es) tail = rw append_assoc (ground (arith, any-ascending p es (e ∷ tail)))

length-ascending :
    (rows tail : List LedgerEntry) → length (ascending rows ++ tail) ≡ length rows + length tail
unfolding ascending
length-ascending [] tail = omega arith
length-ascending (e ∷ es) tail = rw append_assoc (omega (arith, length-ascending es (e ∷ tail)))

-- Some row carries the anchor's number.
abbrev pub HasAnchor : Option Anchor → List LedgerEntry → Type 0
HasAnchor none rows = Unit {0}
HasAnchor (some a) rows = any (mentions (some a)) rows ≡ true

module _ (sha256 : Text → Text) where
  abbrev pub Accepts : Option Anchor → List LedgerEntry → Type 0
  Accepts anchor rows = IsChain sha256 rows × All (Agrees anchor) rows × HasAnchor anchor rows

  -- The facts about a scan that came to the end of the table.
  record Finished (anchor : Option Anchor) (rows : List LedgerEntry) (t : Scan) : Type 0 where
    chained : IsChain sha256 rows
    agreed : All (Agrees anchor) rows
    still_valid : t.report.valid ≡ true
    counted : t.report.entries ≡ length rows
    seen : t.anchor_seen ≡ any (mentions anchor) rows

  Outcome-Finished :
      (anchor : Option Anchor) (rows : List LedgerEntry) (t : Scan)
      → Outcome sha256 anchor (ascending rows) fresh_scan (finished t)
      → Finished anchor rows t
  unfolding fresh_scan
  Outcome-Finished anchor rows t h = record {
    chained = (IsSegment-iff_IsChain sha256 rows).0 h.0;
    agreed = ((rw append-nil at (All-ascending (Agrees anchor) rows [])).0 h.1).0;
    still_valid = h.2;
    counted = omega (arith, rw append-nil at (length-ascending rows []), h.3);
    seen = ground (arith, rw append-nil at (any-ascending (mentions anchor) rows []), h.4);
  }

  conclude-seen :
      (a : Anchor) (t : Scan)
      → t.report.valid ≡ true
      → (conclude sha256 (some a) t).valid ≡ t.anchor_seen
  unfolding conclude
  conclude-seen a t h = ground arith

  conclude-invalid :
      (anchor : Option Anchor) (t : Scan)
      → t.report.valid ≡ false
      → (conclude sha256 anchor t).valid ≡ false
  unfolding conclude
  conclude-invalid none t h = h
  conclude-invalid (some a) t h = ground arith

  conclude-entries :
      (anchor : Option Anchor) (t : Scan) → (conclude sha256 anchor t).entries ≡ t.report.entries
  unfolding conclude
  conclude-entries none t = refl
  conclude-entries (some a) t = ground arith

  abbrev IsExact : Option Anchor → List LedgerEntry → VerifyReport → Type 0
  IsExact anchor rows r =
      ((r.valid ≡ true) ↔ Accepts anchor rows) × (r.valid ≡ true → r.entries ≡ length rows)

  Finished-IsExact :
      (anchor : Option Anchor) (rows : List LedgerEntry) (t : Scan)
      → Finished anchor rows t
      → IsExact anchor rows (conclude sha256 anchor t)
  unfolding conclude
  Finished-IsExact none rows t f =
      (((λ h. (f.chained, f.agreed, tt)), λ h. f.still_valid), λ h. f.counted)
  Finished-IsExact (some a) rows t f =
      let verdict = conclude-seen a t f.still_valid in
      (
        (
          (λ h. (f.chained, f.agreed, sym f.seen ∙ sym verdict ∙ h)),
          λ all. verdict ∙ f.seen ∙ all.2,
        ),
        λ h. conclude-entries (some a) t ∙ f.counted,
      )

  stopped-IsExact :
      (anchor : Option Anchor) (rows : List LedgerEntry) (t : Scan)
      → Outcome sha256 anchor (ascending rows) fresh_scan (stopped t)
      → IsExact anchor rows (conclude sha256 anchor t)
  unfolding conclude fresh_scan
  stopped-IsExact anchor rows t h =
      let invalid = conclude-invalid anchor t h.0 in
      (
        (
          (λ p. cc),
          λ all. absurd (
              h.1 (
                (IsSegment-iff_IsChain sha256 rows).1 all.0,
                (rw append-nil at (All-ascending (Agrees anchor) rows [])).1 (all.1, tt),
              )),
        ),
        λ p. cc,
      )

  Outcome-IsExact :
      (anchor : Option Anchor) (rows : List LedgerEntry) (r : Streamed Scan)
      → Outcome sha256 anchor (ascending rows) fresh_scan r
      → (report : VerifyReport) × ((elim r [
        | finished s ↦ some (conclude sha256 anchor s)
        | stopped s ↦ some (conclude sha256 anchor s)
        | broken ↦ none
      ])
          ≡ some report)
        × IsExact anchor rows report
  Outcome-IsExact anchor rows (finished t) h =
      (_, refl, Finished-IsExact anchor rows t (Outcome-Finished anchor rows t h))
  Outcome-IsExact anchor rows (stopped t) h = (_, refl, stopped-IsExact anchor rows t h)
  Outcome-IsExact anchor rows broken h = absurd h

  -- When no read fails, `VerifyChain` reports a table as valid exactly when its rows form a chain
  -- and, given an anchor, some row has the anchor's number and every such row its hash; a valid
  -- report counts every row.
  pub verify_chain_exact :
      (anchor : Option Anchor) (rows : List LedgerEntry)
      → (r : VerifyReport) × (verify_chain sha256 anchor none rows ≡ some r)
        × ((r.valid ≡ true) ↔ Accepts anchor rows)
        × (r.valid ≡ true → r.entries ≡ length rows)
  unfolding verify_chain stream select_after
  verify_chain_exact anchor rows =
      let (r, e, exact) =
        Outcome-IsExact anchor rows _
          (stream_rows-Outcome sha256 anchor (ascending rows) fresh_scan) in
      (r, e, exact.0, exact.1)
