-- ===== src/Ledger/Chain.antt =====
-- What a chain is, and why its last hash fixes all of it.
use kite_rail.Prelude.{◌≡◌, ◌≢◌, refl, ap₂, inl, inr, ◌⊎◌, List, [], ◌∷◌, All, Bool-cases}
use kite_rail.Prelude.Text.{Text, text_eq, text_eq_iff, hex}
use kite_rail.Ledger.Timestamp.{IsStored}
use kite_rail.Ledger.Entry.{LedgerEntry, hashed_fields, encode, calculate_hash}
use kite_rail.Ledger.Encoding.{SameContents, hashed_fields-injective}

-- The hash that the next entry links to.
unfoldable pub head_hash : List LedgerEntry → Text
head_hash [] = []
head_hash (e ∷ es) = e.hash

module _ (sha256 : Text → Text) where
  -- Every entry of the table, newest first, links to the one below it and has its own hash.
  abbrev pub IsChain : List LedgerEntry → Type 0
  IsChain [] = Unit {0}
  IsChain (e ∷ es) = (e.prev_hash ≡ head_hash es) × (e.hash ≡ calculate_hash sha256 e) × IsChain es

  -- Two different texts with one hexadecimal digest.
  abbrev pub Collision : Type 0
  Collision = (s : Text) × (t : Text) × (s ≢ t) × (hex (sha256 s) ≡ hex (sha256 t))

-- Each timestamp is printed without loss, as all are that a row of the table scans to.
abbrev pub AllStored : List LedgerEntry → Type 0
AllStored es = All (λ e. IsStored e.timestamp) es

hex-ne-nil : (s : Text) → s ≢ [] → hex s ≢ []
unfolding hex
hex-ne-nil [] h p = h refl
hex-ne-nil (b ∷ s) h p = cc

entry-eq : (d e : LedgerEntry) → SameContents d e → d.hash ≡ e.hash → d ≡ e
entry-eq d e same h = cc

module _ (sha256 : Text → Text) where
  same_hash :
      (d e : LedgerEntry)
      → IsStored d.timestamp
      → IsStored e.timestamp
      → calculate_hash sha256 d ≡ calculate_hash sha256 e
      → SameContents d e ⊎ Collision sha256
  unfolding calculate_hash
  same_hash d e hd he h =
      let x = encode (hashed_fields d) in
      let y = encode (hashed_fields e) in
      elim (Bool-cases (text_eq x y)) [
        | inl equal ↦ inl (hashed_fields-injective d e hd he ((text_eq_iff x y).0 equal))
        | inr differ ↦ inr (x, y, (λ p. cc ((text_eq_iff x y).1 p)), h)
      ]

  module _ (nonempty : (s : Text) → sha256 s ≢ []) where
    hash-ne-nil : (e : LedgerEntry) → calculate_hash sha256 e ≢ []
    unfolding calculate_hash
    hash-ne-nil e h = hex-ne-nil _ (nonempty _) h

    -- If SHA-256 never returns the empty text, then two chains of stored entries whose newest entries
    -- have the same hash, or which are both empty, are equal entry by entry, unless two different
    -- texts with one digest are at hand.
    pub head_determines_chain :
        (c d : List LedgerEntry)
        → IsChain sha256 c
        → IsChain sha256 d
        → AllStored c
        → AllStored d
        → head_hash c ≡ head_hash d
        → (c ≡ d) ⊎ Collision sha256
    unfolding head_hash
    head_determines_chain [] [] hc hd sc sd h = inl refl
    head_determines_chain [] (e ∷ d) hc hd sc sd h = absurd (hash-ne-nil e (cc))
    head_determines_chain (e ∷ c) [] hc hd sc sd h = absurd (hash-ne-nil e (cc))
    head_determines_chain (x ∷ c) (y ∷ d) hc hd sc sd h = elim (same_hash x y sc.0 sd.0 (cc)) [
      | inr collision ↦ inr collision
      | inl same ↦ elim (head_determines_chain c d hc.2 hd.2 sc.1 sd.1 (cc)) [
        | inr collision ↦ inr collision
        | inl older ↦ inl (ap₂ ◌∷◌ (entry-eq x y same (cc)) older)
      ]
    ]
