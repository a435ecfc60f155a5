-- ===== src/Proxy/Base64/RoundTrip.antt =====
-- What is encoded decodes to itself.
use kite_rail.Prelude.{
  ℕ, ◌+◌, ◌*◌, ◌/◌, ◌%◌, ◌<◌, ◌≡◌, refl, sym, subst, ◌∙◌, ap, Bool, true, false, not, ◌||◌, ◌==◌,
  Option, some, [], ◌∷◌, filter, All, arith,
}
use kite_rail.Prelude.Text.{Text}
use kite_rail.Proxy.Base64.{
  symbol, index, encode, full_quad, two_symbols, three_symbols, last_quad, decode_groups, decode,
}

abbrev pub AreBytes : Text → Type 0
AreBytes s = All (λ c. c < 256) s

index-symbol : (n : ℕ) → n < 64 → index (symbol n) ≡ some n
unfolding index symbol
index-symbol n h = ground arith

symbol-ne-pad : (n : ℕ) → n < 64 → (symbol n == b'=') ≡ false
unfolding symbol
symbol-ne-pad n h = ground arith

full :
    (i j k l : ℕ) (rest : Option Text)
    → i < 64
    → j < 64
    → k < 64
    → l < 64
    → full_quad (index (symbol i)) (index (symbol j)) (index (symbol k)) (index (symbol l)) rest
      ≡ full_quad (some i) (some j) (some k) (some l) rest
full i j k l rest hi hj hk hl =
    rw (index-symbol i hi, index-symbol j hj, index-symbol k hk, index-symbol l hl) refl

three_bytes :
    (a b c : ℕ) (rest : Text)
    → a < 256
    → b < 256
    → c < 256
    → full_quad
        (some (a / 4))
        (some (a % 4 * 16 + b / 16))
        (some (b % 16 * 4 + c / 64))
        (some (c % 64))
        (some rest)
      ≡ some (a ∷ b ∷ c ∷ rest)
unfolding full_quad
three_bytes a b c rest ha hb hc =
    let x : a / 4 * 4 + (a % 4 * 16 + b / 16) / 16 ≡ a = omega arith in
    let y : (a % 4 * 16 + b / 16) % 16 * 16 + (b % 16 * 4 + c / 64) / 4 ≡ b = omega arith in
    let z : (b % 16 * 4 + c / 64) % 4 * 64 + c % 64 ≡ c = omega arith in rw (x, y, z) refl

one_byte :
    (a : ℕ)
    → a < 256
    → two_symbols (index (symbol (a / 4))) (index (symbol (a % 4 * 16))) ≡ some (a ∷ [])
unfolding two_symbols
one_byte a ha =
    let x : a / 4 * 4 + a % 4 * 16 / 16 ≡ a = omega arith in
    let strict : (a % 4 * 16 % 16 == 0) ≡ true = ground arith in
    rw (index-symbol (a / 4) (omega arith), index-symbol (a % 4 * 16) (omega arith), strict, x) refl

two_bytes :
    (a b : ℕ)
    → a < 256
    → b < 256
    → three_symbols
        (index (symbol (a / 4)))
        (index (symbol (a % 4 * 16 + b / 16)))
        (index (symbol (b % 16 * 4)))
      ≡ some (a ∷ b ∷ [])
unfolding three_symbols
two_bytes a b ha hb =
    let x : a / 4 * 4 + (a % 4 * 16 + b / 16) / 16 ≡ a = omega arith in
    let y : (a % 4 * 16 + b / 16) % 16 * 16 + b % 16 * 4 / 4 ≡ b = omega arith in
    let strict : (b % 16 * 4 % 4 == 0) ≡ true = ground arith in
    rw
      (
        index-symbol (a / 4) (omega arith),
        index-symbol (a % 4 * 16 + b / 16) (omega arith),
        index-symbol (b % 16 * 4) (omega arith),
        strict,
        x,
        y,
      )
      refl

group :
    (a b c : ℕ) (rest : Text)
    → a < 256
    → b < 256
    → c < 256
    → full_quad
        (index (symbol (a / 4)))
        (index (symbol (a % 4 * 16 + b / 16)))
        (index (symbol (b % 16 * 4 + c / 64)))
        (index (symbol (c % 64)))
        (some rest)
      ≡ some (a ∷ b ∷ c ∷ rest)
group a b c rest ha hb hc =
    full _ _ _ _ (some rest) (omega arith) (omega arith) (omega arith) (omega arith)
    ∙ three_bytes a b c rest ha hb hc

encode-cons : (d : ℕ) (s : Text) → (x : ℕ) × ((xs : Text) × (encode (d ∷ s) ≡ x ∷ xs))
unfolding encode
encode-cons a [] = (_, (_, refl))
encode-cons a (b ∷ []) = (_, (_, refl))
encode-cons a (b ∷ c ∷ s) = (_, (_, refl))

decode_groups-encode : (s : Text) → AreBytes s → decode_groups (encode s) ≡ some s
unfolding decode_groups encode last_quad
decode_groups-encode [] h = refl
decode_groups-encode (a ∷ []) h = one_byte a h.0
decode_groups-encode (a ∷ b ∷ []) h =
    rw (symbol-ne-pad (b % 16 * 4) (omega arith)) (two_bytes a b h.0 h.1.0)
decode_groups-encode (a ∷ b ∷ c ∷ []) h =
    rw (symbol-ne-pad (c % 64) (omega arith)) (group a b c [] h.0 h.1.0 h.1.1.0)
decode_groups-encode (a ∷ b ∷ c ∷ d ∷ s) h =
    let (x, (xs, e)) = encode-cons d s in
    let later = decode_groups-encode (d ∷ s) h.1.1.1 in
    (rw (e) (
      ap (full_quad _ _ _ _) (sym (ap decode_groups e) ∙ later)
      ∙ group a b c (d ∷ s) h.0 h.1.0 h.1.1.0))

-- Bytes that strict decoding does not skip.
abbrev visible : ℕ → Bool
visible c = not ((c == 10) || (c == 13))

symbol-visible : (n : ℕ) → n < 64 → visible (symbol n) ≡ true
unfolding symbol
symbol-visible n h = ground arith

filter-All : (p : ℕ → Bool) (s : Text) → All (λ c. p c ≡ true) s → filter p s ≡ s
filter-All p [] h = refl
filter-All p (c ∷ s) h =
    subst (λ b. elim b as (λ _. Text) [ false ↦ filter p s | true ↦ c ∷ filter p s ] ≡ c ∷ s)
      (sym h.0) (ap (λ t. c ∷ t) (filter-All p s h.1))

encode-All : (s : Text) → AreBytes s → All (λ c. visible c ≡ true) (encode s)
unfolding encode
encode-All [] h = h
encode-All (a ∷ []) h =
    let ha = h.0 in
    (
      symbol-visible (a / 4) (omega arith),
      (symbol-visible (a % 4 * 16) (omega arith), (refl, (refl, h.1))),
    )
encode-All (a ∷ b ∷ []) h =
    let ha = h.0 in
    let hb = h.1.0 in
    (
      symbol-visible (a / 4) (omega arith),
      (
        symbol-visible (a % 4 * 16 + b / 16) (omega arith),
        (symbol-visible (b % 16 * 4) (omega arith), (refl, h.1.1)),
      ),
    )
encode-All (a ∷ b ∷ c ∷ s) h =
    let ha = h.0 in
    let hb = h.1.0 in
    let hc = h.1.1.0 in
    let rest = encode-All s h.1.1.1 in
    (
      symbol-visible (a / 4) (omega arith),
      (
        symbol-visible (a % 4 * 16 + b / 16) (omega arith),
        (
          symbol-visible (b % 16 * 4 + c / 64) (omega arith),
          (symbol-visible (c % 64) (omega arith), rest),
        ),
      ),
    )

pub decode-encode : (s : Text) → AreBytes s → decode (encode s) ≡ some s
unfolding decode
decode-encode s h =
    ap decode_groups (filter-All visible (encode s) (encode-All s h)) ∙ decode_groups-encode s h
