-- ===== src/Prelude/Headers/Names.antt =====
-- Header names that are RFC 7230 tokens: ASCII, and with one canonical form for all spellings.
use Prim.Native.Nat.{ℕ, ◌+◌, ◌-◌, ◌<◌}
use mathlib.Core.Path.{◌≡◌, refl, sym, ap, ap₂, ◌∙◌}
use mathlib.Core.List.{[], ◌∷◌, map}
use mathlib.Core.Bool.{Bool, true, false, ◌&&◌}
use native.Mathlib.Omega.{arith}
use kite_rail.Prelude.Tests.{◌==◌, Bool-cases}
use kite_rail.Prelude.Lists.{All}
use kite_rail.Prelude.Text.{Text, codes}
use kite_rail.Prelude.Headers.{
  to_lower, to_upper, is_lower, is_upper, is_digit, is_token, contains, all_tokens, words,
  canonical,
}
use mathlib.Core.Logic.{inl, inr}

abbrev pub IsAscii : Text → Type 0
IsAscii s = All (λ c. c < 128) s

contains-IsAscii : (s : Text) (c : ℕ) → IsAscii s → contains s c ≡ true → c < 128
unfolding contains
contains-IsAscii [] c a h = absurd (ground arith)
contains-IsAscii (d ∷ s) c a h = elim (Bool-cases (d == c)) [
  | inl same ↦ ground (arith, a.0)
  | inr other ↦ contains-IsAscii s c a.1 (ground arith)
]

is_token-ascii : (c : ℕ) → is_token c ≡ true → c < 128
unfolding is_token is_lower is_upper is_digit
is_token-ascii c h = elim (Bool-cases (contains (codes "!#$%&'*+-.^_`|~") c)) [
  | inl mark ↦ contains-IsAscii (codes "!#$%&'*+-.^_`|~") c (omega arith) mark
  | inr letter ↦ ground (arith, h, letter)
]

pub all_tokens-IsAscii : (s : Text) → all_tokens s ≡ true → IsAscii s
unfolding all_tokens
all_tokens-IsAscii [] h = tt
all_tokens-IsAscii (c ∷ s) h =
    (is_token-ascii c (ground arith), all_tokens-IsAscii s (ground arith))

words-IsAscii : (start : Bool) (s : Text) → IsAscii s → IsAscii (words start s)
unfolding words to_lower to_upper is_upper is_lower
words-IsAscii start [] a = tt
words-IsAscii start (c ∷ s) a = (ground (arith, a.0), words-IsAscii (c == b'-') s a.1)

pub canonical-IsAscii : (s : Text) → IsAscii s → IsAscii (canonical s)
unfolding canonical
canonical-IsAscii s a = elim (Bool-cases (all_tokens s)) [
  | inl valid ↦ rw valid (words-IsAscii true s a)
  | inr invalid ↦ rw invalid a
]

to_upper-to_lower : (c : ℕ) → to_upper (to_lower c) ≡ to_upper c
unfolding to_upper to_lower is_upper is_lower
to_upper-to_lower c = ground arith

to_lower-twice : (c : ℕ) → to_lower (to_lower c) ≡ to_lower c
unfolding to_lower is_upper
to_lower-twice c = ground arith

to_lower-dash : (c : ℕ) → (to_lower c == b'-') ≡ (c == b'-')
unfolding to_lower is_upper
to_lower-dash c = ground arith

words-lower : (start : Bool) (s : Text) → words start (map to_lower s) ≡ words start s
unfolding words
words-lower start [] = refl
words-lower true (c ∷ s) =
    ap₂ ◌∷◌ (to_upper-to_lower c)
      (ap (λ b. words b (map to_lower s)) (to_lower-dash c) ∙ words-lower (c == b'-') s)
words-lower false (c ∷ s) =
    ap₂ ◌∷◌ (to_lower-twice c)
      (ap (λ b. words b (map to_lower s)) (to_lower-dash c) ∙ words-lower (c == b'-') s)

-- The canonical form depends on the name in lower case only.
pub canonical-words : (s : Text) → all_tokens s ≡ true → canonical s ≡ words true (map to_lower s)
unfolding canonical
canonical-words s h = rw h (sym (words-lower true s))

is_lower-upper : (c : ℕ) → is_lower c ≡ true → is_upper (c - 32) ≡ true
unfolding is_lower is_upper
is_lower-upper c h = ground arith

is_upper-lower : (c : ℕ) → is_upper c ≡ true → is_lower (c + 32) ≡ true
unfolding is_lower is_upper
is_upper-lower c h = ground arith

is_token-upper : (c : ℕ) → is_upper c ≡ true → is_token c ≡ true
unfolding is_token
is_token-upper c h = ground (arith, h)

is_token-lower : (c : ℕ) → is_lower c ≡ true → is_token c ≡ true
unfolding is_token
is_token-lower c h = ground (arith, h)

is_token-to_upper : (c : ℕ) → is_token c ≡ true → is_token (to_upper c) ≡ true
unfolding to_upper
is_token-to_upper c h = elim (Bool-cases (is_lower c)) [
  | inl lower ↦ rw lower (is_token-upper (c - 32) (is_lower-upper c lower))
  | inr other ↦ rw other h
]

is_token-to_lower : (c : ℕ) → is_token c ≡ true → is_token (to_lower c) ≡ true
unfolding to_lower
is_token-to_lower c h = elim (Bool-cases (is_upper c)) [
  | inl upper ↦ rw upper (is_token-lower (c + 32) (is_upper-lower c upper))
  | inr other ↦ rw other h
]

both_true : (a b : Bool) → (a && b) ≡ true → (a ≡ true) × (b ≡ true)
both_true a b h = ground arith

and_true : (a b : Bool) → a ≡ true → b ≡ true → (a && b) ≡ true
and_true a b h k = ground arith

all_tokens-words :
    (start : Bool) (s : Text) → all_tokens s ≡ true → all_tokens (words start s) ≡ true
unfolding all_tokens words
all_tokens-words start [] h = refl
all_tokens-words true (c ∷ s) h =
    let (first, others) = both_true (is_token c) (all_tokens s) h in
    and_true (is_token (to_upper c)) (all_tokens (words (c == b'-') s)) (is_token-to_upper c first)
      (all_tokens-words (c == b'-') s others)
all_tokens-words false (c ∷ s) h =
    let (first, others) = both_true (is_token c) (all_tokens s) h in
    and_true (is_token (to_lower c)) (all_tokens (words (c == b'-') s)) (is_token-to_lower c first)
      (all_tokens-words (c == b'-') s others)

pub all_tokens-canonical : (s : Text) → all_tokens s ≡ true → all_tokens (canonical s) ≡ true
unfolding canonical
all_tokens-canonical s h = rw h (all_tokens-words true s h)
