-- ===== src/Prelude/Numbers.antt =====
-- `strconv.ParseInt(s, 10, 64)` on a Go string.
use kite_rail.Prelude.Tests.{ltb, leb, ◌==◌, if◌then◌else◌}
use kite_rail.Prelude.Text.{Text}
use Prim.Native.Nat.{ℕ, zero, suc, ◌+◌, ◌-◌, ◌*◌, ◌^◌}
use mathlib.Core.List.{[], ◌∷◌}
use mathlib.Core.Bool.{◌||◌}
use mathlib.Core.Option.{Option, none, some}

-- A signed integer; `negative n` is -(n + 1).
pub data Signed : Type 0 where
  nonneg : ℕ → Signed
  negative : ℕ → Signed

unfoldable pub scan_digits : Text → ℕ → Option ℕ
scan_digits [] n = some n
scan_digits (c ∷ s) n =
    if ltb c b'0' || ltb b'9' c then none else scan_digits s (n * 10 + (c - b'0'))

unfoldable pub parse_digits : Text → Option ℕ
unfolding scan_digits
parse_digits [] = none
parse_digits (c ∷ s) = scan_digits (c ∷ s) 0

abbrev at_most : ℕ → Option ℕ → Option Signed
at_most bound none = none
at_most bound (some n) = if leb n bound then some (nonneg n) else none

-- `-0` is 0, and the least value is one further from 0 than the greatest.
abbrev at_least : ℕ → Option ℕ → Option Signed
at_least bound none = none
at_least bound (some zero) = some (nonneg 0)
at_least bound (some (suc n)) = if leb n bound then some (negative n) else none

abbrev pub max_int64 : ℕ
max_int64 = 2 ^ 63 - 1

unfoldable pub parse_int : Text → Option Signed
unfolding parse_digits
parse_int [] = none
parse_int (c ∷ s) =
    if c == b'-'
    then at_least max_int64 (parse_digits s)
    else if c == b'+'
    then at_most max_int64 (parse_digits s)
    else at_most max_int64 (parse_digits (c ∷ s))
