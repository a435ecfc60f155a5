-- ===== src/Ledger/Verify/Sound.antt =====
-- `VerifyChain` accepts exactly the chains, and with an anchor exactly those that hold it.
use kite_rail.Prelude.{
  ◌+◌, ◌≡◌, refl, sym, ◌∙◌, subst, Bool, true, false, ◌||◌, Option, none, some, List, [], ◌∷◌,
  arith, All, any, length, ◌==◌,
}
use kite_rail.Prelude.Text.{Text, text_eq_iff}
use kite_rail.Ledger.Entry.{LedgerEntry, calculate_hash}
use kite_rail.Ledger.Verify.{
  Anchor, Step, continue, stop, Streamed, finished, stopped, broken, stream_rows, Scan, verify_step,
}

-- An entry that carries the anchor's number carries its hash.
abbrev pub Agrees : Option Anchor → LedgerEntry → Type 0
Agrees none e = Unit {0}
Agrees (some a) e = e.seq_num ≡ a.seq_num → e.hash ≡ a.hash

abbrev pub mentions : Option Anchor → LedgerEntry → Bool
mentions none e = false
mentions (some a) e = e.seq_num == a.seq_num

joined :
    (first rest a : Bool) {b c : Bool}
    → b ≡ (first || a)
    → c ≡ (rest || b)
    → c ≡ ((elim first [ true ↦ true | false ↦ rest ]) || a)
joined first rest a p q = ground arith

module _ (sha256 : Text → Text) where
  -- Rows in chain order that continue a chain whose last hash is `prev`.
  abbrev pub IsSegment : Text → List LedgerEntry → Type 0
  IsSegment prev [] = Unit {0}
  IsSegment prev (e ∷ es) =
      (e.prev_hash ≡ prev) × (e.hash ≡ calculate_hash sha256 e) × IsSegment e.hash es

  abbrev Accepted : Option Anchor → Text → LedgerEntry → Type 0
  Accepted anchor prev e =
      (e.prev_hash ≡ prev) × (e.hash ≡ calculate_hash sha256 e) × Agrees anchor e

  -- What one round of the loop has found.
  abbrev StepOutcome : Option Anchor → LedgerEntry → Scan → Step Scan → Type 0
  StepOutcome anchor e s (continue t) =
      Accepted anchor s.report.head_hash e
      × (t.report.valid ≡ s.report.valid)
      × (t.report.head_hash ≡ e.hash)
      × (t.report.entries ≡ s.report.entries + 1)
      × (t.anchor_seen ≡ (mentions anchor e || s.anchor_seen))
  StepOutcome anchor e s (stop t) =
      (t.report.valid ≡ false) × ¬ (Accepted anchor s.report.head_hash e)

  verify_step_lem :
      (anchor : Option Anchor) (e : LedgerEntry) (s : Scan)
      → StepOutcome anchor e s (verify_step sha256 anchor e s)
  unfolding verify_step
  verify_step_lem none e s = ground (
    arith,
    text_eq_iff e.prev_hash s.report.head_hash,
    text_eq_iff e.hash (calculate_hash sha256 e),
  )
  verify_step_lem (some a) e s = ground (
    arith,
    text_eq_iff e.prev_hash s.report.head_hash,
    text_eq_iff e.hash (calculate_hash sha256 e),
    text_eq_iff e.hash a.hash,
  )

  -- What the loop over all rows has found.
  abbrev pub Outcome : Option Anchor → List LedgerEntry → Scan → Streamed Scan → Type 0
  Outcome anchor es s (finished t) =
      IsSegment s.report.head_hash es
      × All (Agrees anchor) es
      × (t.report.valid ≡ s.report.valid)
      × (t.report.entries ≡ s.report.entries + length es)
      × (t.anchor_seen ≡ (any (mentions anchor) es || s.anchor_seen))
  Outcome anchor es s (stopped t) =
      (t.report.valid ≡ false) × ¬ (IsSegment s.report.head_hash es × All (Agrees anchor) es)
  Outcome anchor es s broken = ⊥

  abbrev after_step : Option Anchor → List LedgerEntry → Step Scan → Streamed Scan
  after_step anchor es (continue t) = stream_rows (verify_step sha256 anchor) es false t
  after_step anchor es (stop t) = stopped t

  extend_outcome :
      (anchor : Option Anchor) (e : LedgerEntry) (es : List LedgerEntry) (s t : Scan)
      → StepOutcome anchor e s (continue t)
      → (r : Streamed Scan) → Outcome anchor es t r
      → Outcome anchor (e ∷ es) s r
  extend_outcome anchor e es s t step (finished u) h = (
    (step.0.0, step.0.1, subst (λ p. IsSegment p es) step.2 h.0),
    (step.0.2, h.1),
    h.2 ∙ step.1,
    omega (arith, step.3, h.3),
    joined (mentions anchor e) (any (mentions anchor) es) s.anchor_seen step.4 h.4,
  )
  extend_outcome anchor e es s t step (stopped u) h =
      (h.0, λ all. h.1 (subst (λ p. IsSegment p es) (sym step.2) all.0.2, all.1.1))
  extend_outcome anchor e es s t step broken h = h

  pub stream_rows-Outcome :
      (anchor : Option Anchor) (es : List LedgerEntry) (s : Scan)
      → Outcome anchor es s (stream_rows (verify_step sha256 anchor) es false s)
  unfolding stream_rows
  stream_rows-Outcome anchor [] s = (tt, tt, refl, omega arith, refl)
  stream_rows-Outcome anchor (e ∷ es) s =
      go (verify_step sha256 anchor e s) (verify_step_lem anchor e s)
        (stream_rows-Outcome anchor es)
    where
      go :
          (r : Step Scan)
          → StepOutcome anchor e s r
          → ((t : Scan) → Outcome anchor es t (stream_rows (verify_step sha256 anchor) es false t))
          → Outcome anchor (e ∷ es) s (elim r [
            | continue t ↦ stream_rows (verify_step sha256 anchor) es false t
            | stop t ↦ stopped t
          ])
      go (continue t) step rest = extend_outcome anchor e es s t step _ (rest t)
      go (stop t) step rest = (step.0, λ all. step.1 (all.0.0, all.0.1, all.1.0))
