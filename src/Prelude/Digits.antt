-- ===== src/Prelude/Digits.antt =====
-- Printed numbers can be read back, alone and in front of a delimiter.
use Prim.Native.Nat.{ℕ, zero, suc, ◌+◌, ◌-◌, ◌*◌, ◌/◌, ◌%◌, ◌<◌, ◌≤◌, ◌^◌}
use mathlib.Core.Path.{◌≡◌, refl, sym, ap, subst, ◌∙◌}
use mathlib.Core.Logic.{◌⊎◌, inl, inr}
use mathlib.Core.List.{[], ◌∷◌, ◌++◌}
use native.Mathlib.Omega.{arith}
use native.Mathlib.Nat.{pow-suc}
use kite_rail.Prelude.Tests.{ltb, Bool-cases}
use kite_rail.Prelude.Lists.{length, All, All-append, length-append}
use kite_rail.Prelude.Text.{Text, digits, decimal, pad}

abbrev pub IsDigit : ℕ → Type 0
IsDigit c = (b'0' ≤ c) × (c ≤ b'9')

-- The number that a run of digits stands for, most significant first.
value_from : ℕ → Text → ℕ
value_from acc [] = acc
value_from acc (c ∷ s) = value_from (acc * 10 + (c - b'0')) s

value_from-append :
    (acc : ℕ) (s : Text) (c : ℕ) → value_from acc (s ++ c ∷ []) ≡ value_from acc s * 10 + (c - b'0')
unfolding value_from
value_from-append acc [] c = refl
value_from-append acc (d ∷ s) c = value_from-append (acc * 10 + (d - b'0')) s c

value-digits : (k n : ℕ) → n < k → value_from 0 (digits k n) ≡ n
unfolding value_from digits
value-digits zero n h = absurd (omega arith)
value-digits (suc k) n h = elim (Bool-cases (ltb n 10)) [
  | inl small ↦ rw small (ground arith)
  | inr large ↦ rw large (
      ground
        (arith, value_from-append 0 (digits k (n / 10)) (b'0' + n % 10), value-digits k (n / 10)))
]

pub decimal-injective : (m n : ℕ) → decimal m ≡ decimal n → m ≡ n
unfolding decimal
decimal-injective m n h =
    sym (value-digits (suc m) m (omega arith))
    ∙ ap (value_from 0) h
    ∙ value-digits (suc n) n (omega arith)

digits-IsDigit : (k n : ℕ) → All IsDigit (digits k n)
unfolding digits
digits-IsDigit zero n = tt
digits-IsDigit (suc k) n = elim (Bool-cases (ltb n 10)) [
  | inl small ↦ rw small (ground arith)
  | inr large ↦ rw large (
      All-append IsDigit (digits k (n / 10)) ((b'0' + n % 10) ∷ []) (digits-IsDigit k (n / 10))
        (omega arith))
]

pub decimal-IsDigit : (n : ℕ) → All IsDigit (decimal n)
unfolding decimal
decimal-IsDigit n = digits-IsDigit (suc n) n

-- A run of digits in front of a byte that is no digit is determined by the text.
pub split_digits :
    (s t : Text) {d e : ℕ} {u v : Text}
    → All IsDigit s
    → All IsDigit t
    → ¬ IsDigit d
    → ¬ IsDigit e
    → s ++ d ∷ u ≡ t ++ e ∷ v
    → (s ≡ t) × (u ≡ v)
split_digits [] [] hs ht hd he p = (refl, cc)
split_digits [] (y ∷ t) {d} hs ht hd he p = let q : y ≡ d = cc in absurd (hd (subst IsDigit q ht.0))
split_digits (x ∷ s) [] {e = e} hs ht hd he p =
    let q : x ≡ e = cc in absurd (he (subst IsDigit q hs.0))
split_digits (x ∷ s) (y ∷ t) {d} {e} {u} {v} hs ht hd he p =
    let q : s ++ d ∷ u ≡ t ++ e ∷ v = cc in
    let (same, rest) = split_digits s t hs.1 ht.1 hd he q in (cc, rest)

-- Two texts of one length in front of others are determined by the whole.
pub split_length :
    (s t : Text) {u v : Text} → length s ≡ length t → s ++ u ≡ t ++ v → (s ≡ t) × (u ≡ v)
split_length [] [] h p = (refl, p)
split_length [] (y ∷ t) h p = absurd (omega arith)
split_length (x ∷ s) [] h p = absurd (omega arith)
split_length (x ∷ s) (y ∷ t) {u} {v} h p =
    let q : s ++ u ≡ t ++ v = cc in
    let (same, rest) = split_length s t (omega arith) q in (cc, rest)

pub length-pad : (w n : ℕ) → length (pad w n) ≡ w
unfolding pad
length-pad zero n = refl
length-pad (suc w) n =
    omega (arith, length-append {0} (pad w (n / 10)) ((b'0' + n % 10) ∷ []), length-pad w (n / 10))

tenth-lt : (w n : ℕ) → n < 10 ^ suc w → n / 10 < 10 ^ w
tenth-lt w n h = let h' : n < 10 ^ w * 10 = rw (← pow-suc 10 w) h in omega arith

pub pad-injective : (w m n : ℕ) → m < 10 ^ w → n < 10 ^ w → pad w m ≡ pad w n → m ≡ n
unfolding pad
pad-injective zero m n hm hn h = omega arith
pad-injective (suc w) m n hm hn h =
    let (front, back) =
      split_length (pad w (m / 10)) (pad w (n / 10))
        (length-pad w (m / 10) ∙ sym (length-pad w (n / 10))) h in
    let last : b'0' + m % 10 ≡ b'0' + n % 10 = cc in
    let quotients = pad-injective w (m / 10) (n / 10) (tenth-lt w m hm) (tenth-lt w n hn) front in
    omega arith

value-pad : (w n : ℕ) → n < 10 ^ w → value_from 0 (pad w n) ≡ n
unfolding value_from pad
value-pad zero n h = omega arith
value-pad (suc w) n h = ground (
  arith,
  value_from-append 0 (pad w (n / 10)) (b'0' + n % 10),
  value-pad w (n / 10) (tenth-lt w n h),
)

pub pad-IsDigit : (w n : ℕ) → All IsDigit (pad w n)
unfolding pad
pad-IsDigit zero n = tt
pad-IsDigit (suc w) n =
    All-append IsDigit (pad w (n / 10)) ((b'0' + n % 10) ∷ []) (pad-IsDigit w (n / 10))
      (omega arith)

value-decimal : (n : ℕ) → value_from 0 (decimal n) ≡ n
unfolding decimal
value-decimal n = value-digits (suc n) n (omega arith)

-- Numbers that are padded or printed whole, in any mixture.
pub printed-injective :
    (s t : Text) (m n : ℕ)
    → ((m < 10 ^ 4) × (s ≡ pad 4 m)) ⊎ (s ≡ decimal m)
    → ((n < 10 ^ 4) × (t ≡ pad 4 n)) ⊎ (t ≡ decimal n)
    → s ≡ t
    → m ≡ n
printed-injective s t m n hs ht h = sym (value s m hs) ∙ ap (value_from 0) h ∙ value t n ht
  where
    value :
        (s : Text) (m : ℕ) → ((m < 10 ^ 4) × (s ≡ pad 4 m)) ⊎ (s ≡ decimal m) → value_from 0 s ≡ m
    value s m (inl (small, e)) = rw e (value-pad 4 m small)
    value s m (inr e) = rw e (value-decimal m)
