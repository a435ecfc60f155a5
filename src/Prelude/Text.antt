-- ===== src/Prelude/Text.antt =====
-- Go strings as lists of bytes, with the operations of the packages strings, fmt and hex that the
-- program uses.
use Prim.Native.Char.{code}
use Prim.Native.String.{String}
use Prim.Native.Nat.{ℕ, zero, suc, ◌+◌, ◌-◌, ◌/◌, ◌%◌}
use mathlib.Core.Path.{◌≡◌, refl}
use mathlib.Core.Logic.{◌≢◌, ◌↔◌}
use mathlib.Core.List.{List, [], ◌∷◌, ◌++◌}
use mathlib.Core.Option.{Option, none, some}
use mathlib.Core.Bool.{Bool, true, false, ◌&&◌}
use native.Mathlib.Omega.{arith}
use kite_rail.Prelude.Tests.{ltb, ◌==◌, if◌then◌else◌}

abbrev pub Text : Type 0
Text = List ℕ

-- The bytes of an ASCII literal.
abbrev pub codes : String → Text
codes String.[] = []
codes (String.◌∷◌ c s) = code c ∷ codes s

unfoldable pub text_eq : Text → Text → Bool
text_eq [] [] = true
text_eq [] (d ∷ t) = false
text_eq (c ∷ s) [] = false
text_eq (c ∷ s) (d ∷ t) = (c == d) && text_eq s t

pub text_eq_iff : (s t : Text) → (text_eq s t ≡ true) ↔ (s ≡ t)
unfolding text_eq
text_eq_iff [] [] = ground arith
text_eq_iff [] (d ∷ t) = ground arith
text_eq_iff (c ∷ s) [] = ground arith
text_eq_iff (c ∷ s) (d ∷ t) = ground (arith, text_eq_iff s t)

pub text_eq_refl : (s : Text) → text_eq s s ≡ true
text_eq_refl s = (text_eq_iff s s).1 refl

pub ne_of_text_eq : {s t : Text} → text_eq s t ≡ false → s ≢ t
ne_of_text_eq {s} {t} e same = cc (e, (text_eq_iff s t).1 same)

unfoldable pub has_prefix : Text → Text → Bool
has_prefix s [] = true
has_prefix [] (d ∷ t) = false
has_prefix (c ∷ s) (d ∷ t) = (c == d) && has_prefix s t

-- `fmt.Sprintf("%d", n)`, one digit for each round; `n + 1` rounds are enough.
unfoldable pub digits : ℕ → ℕ → Text
digits zero n = []
digits (suc k) n =
    let rest = digits k (n / 10) in
    if ltb n 10 then (b'0' + n) ∷ [] else rest ++ ((b'0' + n % 10) ∷ [])

unfoldable pub decimal : ℕ → Text
unfolding digits
decimal n = digits (suc n) n

-- A field of a time layout, zero-padded to `w` digits.
unfoldable pub pad : ℕ → ℕ → Text
pad zero n = []
pad (suc w) n = pad w (n / 10) ++ ((b'0' + n % 10) ∷ [])

hex_digit : ℕ → ℕ
hex_digit n = if ltb n 10 then b'0' + n else b'a' + (n - 10)

-- `hex.EncodeToString`
unfoldable pub hex : Text → Text
unfolding hex_digit
hex [] = []
hex (b ∷ s) = hex_digit (b / 16) ∷ hex_digit (b % 16) ∷ hex s

drop_prefix : Text → Text → Text
drop_prefix [] s = s
drop_prefix (d ∷ p) [] = []
drop_prefix (d ∷ p) (c ∷ s) = drop_prefix p s

-- `strings.TrimPrefix`, the prefix first.
unfoldable pub trim_prefix : Text → Text → Text
unfolding drop_prefix
trim_prefix p s = if has_prefix s p then drop_prefix p s else s

drop_prefix-split : (p s : Text) → has_prefix s p ≡ true → p ++ drop_prefix p s ≡ s
unfolding drop_prefix has_prefix
drop_prefix-split [] [] h = refl
drop_prefix-split [] (c ∷ s) h = refl
drop_prefix-split (d ∷ p) [] h = cc
drop_prefix-split (d ∷ p) (c ∷ s) h = ground (arith, drop_prefix-split p s)

pub trim_prefix-split : (p s : Text) → has_prefix s p ≡ true → p ++ trim_prefix p s ≡ s
unfolding trim_prefix
trim_prefix-split p s h = rw h (drop_prefix-split p s h)

pub has_prefix-append : (p s : Text) → has_prefix (p ++ s) p ≡ true
unfolding has_prefix
has_prefix-append [] s = refl
has_prefix-append (d ∷ p) s = ground (arith, has_prefix-append p s)

drop_prefix-append : (p s : Text) → drop_prefix p (p ++ s) ≡ s
unfolding drop_prefix
drop_prefix-append [] s = refl
drop_prefix-append (d ∷ p) s = drop_prefix-append p s

pub trim_prefix-append : (p s : Text) → trim_prefix p (p ++ s) ≡ s
unfolding trim_prefix
trim_prefix-append p s = rw (has_prefix-append p s) (drop_prefix-append p s)

-- What stands before a suffix, if the text ends in it (`strings.HasSuffix`, `strings.TrimSuffix`).
unfoldable pub strip_suffix : Text → Text → Option Text
strip_suffix suffix [] = if text_eq [] suffix then some [] else none
strip_suffix suffix (c ∷ s) =
    if text_eq (c ∷ s) suffix
    then some []
    else elim (strip_suffix suffix s) [ none ↦ none | some rest ↦ some (c ∷ rest) ]
