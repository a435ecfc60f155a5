-- ===== src/Ledger/Encoding.antt =====
-- The canonical encoding of backend/internal/ledger/ledger.go loses nothing: the hashed text
-- determines every hashed field.
use kite_rail.Prelude.{
  ℕ, ◌+◌, ◌-◌, ◌⊎◌, inl, inr, ap, All, Bool-cases, ltb, ◌/◌, ◌%◌, ◌<◌, ◌^◌, ◌≡◌, ◌≢◌, refl, sym,
  ◌∙◌, List, [], ◌∷◌, ◌++◌, arith, length,
}
use kite_rail.Prelude.Text.{Text, digits, decimal, pad}
use kite_rail.Prelude.Numbers.{Signed, nonneg, negative}
use kite_rail.Prelude.Digits.{
  decimal-injective, decimal-IsDigit, split_digits, split_length, length-pad, pad-injective,
  IsDigit, pad-IsDigit, printed-injective,
}
use kite_rail.Ledger.Timestamp.{Time, normalize_timestamp, year_digits, year_text, format, IsStored}
use kite_rail.Ledger.Entry.{LedgerEntry, version_field, hashed_fields, encode}

append_cons-ne-nil : (s : Text) (c : ℕ) (t : Text) → s ++ c ∷ t ≢ []
append_cons-ne-nil [] c t h = cc
append_cons-ne-nil (d ∷ s) c t h = cc

-- Two lists of fields with one encoding are one list.
pub encode-injective : (fs gs : List Text) → encode fs ≡ encode gs → fs ≡ gs
unfolding encode
encode-injective [] [] h = refl
encode-injective [] (g ∷ gs) h = absurd (append_cons-ne-nil (decimal (length g)) _ _ (sym h))
encode-injective (f ∷ fs) [] h = absurd (append_cons-ne-nil (decimal (length f)) _ _ h)
encode-injective (f ∷ fs) (g ∷ gs) h =
    let (lengths, rest) =
      split_digits (decimal (length f)) (decimal (length g)) (decimal-IsDigit (length f))
        (decimal-IsDigit (length g)) (λ c. omega (arith, c)) (λ c. omega (arith, c)) h in
    let (fields, rest') = split_length f g (decimal-injective (length f) (length g) lengths) rest in
    let tails : encode fs ≡ encode gs = cc in cc (encode-injective fs gs tails)

-- Two fixed-width numbers in front of a text.
module _ (w : ℕ) {m n : ℕ} {u v : Text} where
  pad_split : m < 10 ^ w → n < 10 ^ w → pad w m ++ u ≡ pad w n ++ v → (m ≡ n) × (u ≡ v)
  pad_split hm hn h =
      let (pads, rest) =
        split_length (pad w m) (pad w n) (length-pad w m ∙ sym (length-pad w n)) h in
      (pad-injective w m n hm hn pads, rest)

-- The same behind a delimiter.
module _ (d w : ℕ) {m n : ℕ} {u v : Text} where
  field_split :
      m < 10 ^ w → n < 10 ^ w → d ∷ (pad w m ++ u) ≡ d ∷ (pad w n ++ v) → (m ≡ n) × (u ≡ v)
  field_split hm hn h = let h' : pad w m ++ u ≡ pad w n ++ v = cc in pad_split w hm hn h'

year_digits-printed :
    (y : ℕ) → ((y < 10 ^ 4) × (year_digits y ≡ pad 4 y)) ⊎ (year_digits y ≡ decimal y)
unfolding year_digits
year_digits-printed y = elim (Bool-cases (ltb y 10000)) [
  | inl small ↦ rw small (inl (ground arith, refl))
  | inr large ↦ rw large (inr refl)
]

year_digits-IsDigit : (y : ℕ) → All IsDigit (year_digits y)
year_digits-IsDigit y = elim (year_digits-printed y) [
  | inl (small, e) ↦ rw e (pad-IsDigit 4 y)
  | inr e ↦ rw e (decimal-IsDigit y)
]

year_digits_split :
    (m n : ℕ) {u v : Text}
    → year_digits m ++ b'-' ∷ u ≡ year_digits n ++ b'-' ∷ v
    → (m ≡ n) × (b'-' ∷ u ≡ b'-' ∷ v)
year_digits_split m n h =
    let (years, rest) =
      split_digits (year_digits m) (year_digits n) (year_digits-IsDigit m) (year_digits-IsDigit n)
        (λ c. omega (arith, c)) (λ c. omega (arith, c)) h in
    (
      printed-injective _ _ m n (year_digits-printed m) (year_digits-printed n) years,
      ap (λ l. b'-' ∷ l) rest,
    )

-- No year starts with a sign unless it is negative.
digits-ne-sign : (s u v : Text) → All IsDigit s → s ≢ [] → ¬ (s ++ u ≡ b'-' ∷ v)
digits-ne-sign [] u v ds filled h = filled refl
digits-ne-sign (c ∷ s) u v ds filled h = let q : c ≡ b'-' = cc in absurd (omega (arith, q, ds.0))

year_digits-ne-nil : (y : ℕ) → year_digits y ≢ []
unfolding year_digits pad decimal digits
year_digits-ne-nil y = elim (Bool-cases (ltb y 10000)) [
  | inl small ↦ rw small (append_cons-ne-nil (pad 3 (y / 10)) _ [])
  | inr large ↦ rw large (elim (Bool-cases (ltb y 10)) [
    | inl one ↦ rw one (λ e. cc e)
    | inr more ↦ rw more (append_cons-ne-nil (digits y (y / 10)) _ [])
  ])
]

year_text_split :
    (y z : Signed) {u v : Text}
    → year_text y ++ b'-' ∷ u ≡ year_text z ++ b'-' ∷ v
    → (y ≡ z) × (b'-' ∷ u ≡ b'-' ∷ v)
unfolding year_text
year_text_split (nonneg m) (nonneg n) h =
    let (years, rest) = year_digits_split m n h in (ap nonneg years, rest)
year_text_split (nonneg m) (negative n) h =
    absurd (digits-ne-sign (year_digits m) _ _ (year_digits-IsDigit m) (year_digits-ne-nil m) h)
year_text_split (negative m) (nonneg n) h =
    absurd
      (digits-ne-sign (year_digits n) _ _ (year_digits-IsDigit n) (year_digits-ne-nil n) (sym h))
year_text_split (negative m) (negative n) {u} {v} h =
    let q : year_digits (m + 1) ++ b'-' ∷ u ≡ year_digits (n + 1) ++ b'-' ∷ v = cc in
    let (years, rest) = year_digits_split (m + 1) (n + 1) q in
    let same : m ≡ n = omega (arith, years) in (ap negative same, rest)

-- Behind the year, each field of the layout has a fixed width.
format-injective : (s t : Time) → IsStored s → IsStored t → format s ≡ format t → s ≡ t
unfolding format
format-injective s t hs ht h =
    let (years, h1) = year_text_split s.year t.year h in
    let (months, h2) = field_split b'-' 2 hs.month_range ht.month_range h1 in
    let (days, h3) = field_split b'-' 2 hs.day_range ht.day_range h2 in
    let (hours, h4) = field_split b'T' 2 hs.hour_range ht.hour_range h3 in
    let (minutes, h5) = field_split b':' 2 hs.minute_range ht.minute_range h4 in
    let (seconds, h6) = field_split b':' 2 hs.second_range ht.second_range h5 in
    let fits_s : s.nanosecond / 1000 < 10 ^ 6 = omega (arith, hs.nanosecond_range) in
    let fits_t : t.nanosecond / 1000 < 10 ^ 6 = omega (arith, ht.nanosecond_range) in
    let (micros, h7) = field_split b'.' 6 fits_s fits_t h6 in
    let nanos : s.nanosecond ≡ t.nanosecond = omega (arith, hs.microseconds, ht.microseconds) in cc

-- A stored timestamp is already cut to microseconds.
pub normalize_timestamp-stored : (t : Time) → IsStored t → normalize_timestamp t ≡ t
unfolding normalize_timestamp
normalize_timestamp-stored t h =
    let whole : t.nanosecond - t.nanosecond % 1000 ≡ t.nanosecond = omega (arith, h.microseconds) in
    cc

-- Everything that the hash of an entry is computed from.
pub record SameContents (d e : LedgerEntry) : Type 0 where
  pub seq_nums : d.seq_num ≡ e.seq_num
  pub timestamps : d.timestamp ≡ e.timestamp
  pub agents : d.agent ≡ e.agent
  pub tools : d.tool ≡ e.tool
  pub decisions : d.decision ≡ e.decision
  pub policy_rules : d.policy_rule ≡ e.policy_rule
  pub payload_hashes : d.payload_hash ≡ e.payload_hash
  pub request_ids : d.request_id ≡ e.request_id
  pub prev_hashes : d.prev_hash ≡ e.prev_hash
  pub policy_versions : d.policy_version ≡ e.policy_version

version_field-injective : (s t : Text) → version_field s ≡ version_field t → s ≡ t
unfolding version_field
version_field-injective [] [] h = refl
version_field-injective [] (d ∷ t) h = cc
version_field-injective (c ∷ s) [] h = cc
version_field-injective (c ∷ s) (d ∷ t) h = cc

-- For two entries whose timestamps have whole microseconds below a second, and months, days, hours,
-- minutes and seconds of at most two digits, in any year, equal texts that are hashed mean that every
-- field but the hash itself is equal, also an absent policy version.
pub hashed_fields-injective :
    (d e : LedgerEntry)
    → IsStored d.timestamp
    → IsStored e.timestamp
    → encode (hashed_fields d) ≡ encode (hashed_fields e)
    → SameContents d e
unfolding hashed_fields
hashed_fields-injective d e hd he h =
    let fields = encode-injective _ _ h in
    let printed : format (normalize_timestamp d.timestamp)
        ≡ format (normalize_timestamp e.timestamp) =
      cc in
    let printed' =
      rw (normalize_timestamp-stored d.timestamp hd, normalize_timestamp-stored e.timestamp he) at
        printed in
    let numbers : decimal d.seq_num ≡ decimal e.seq_num = cc in
    let versions : version_field d.policy_version ≡ version_field e.policy_version = cc in
    record {
      seq_nums = decimal-injective _ _ numbers;
      timestamps = format-injective d.timestamp e.timestamp hd he printed';
      agents = cc;
      tools = cc;
      decisions = cc;
      policy_rules = cc;
      payload_hashes = cc;
      request_ids = cc;
      prev_hashes = cc;
      policy_versions = version_field-injective _ _ versions;
    }
