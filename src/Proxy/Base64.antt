-- ===== src/Proxy/Base64.antt =====
-- The parts of encoding/base64 (the standard encoding, strict) and of unicode/utf8 that the proxy uses.
pub mod RoundTrip
use kite_rail.Prelude.{
  ℕ, zero, suc, ◌+◌, ◌-◌, ◌*◌, ◌/◌, ◌%◌, Bool, true, false, not, ◌&&◌, ◌||◌, ◌==◌, ltb, leb, Option,
  none, some, [], ◌∷◌, filter, if◌then◌else◌,
}
use kite_rail.Prelude.Text.{Text}

unfoldable pub symbol : ℕ → ℕ
symbol n =
    if ltb n 26
    then b'A' + n
    else if ltb n 52
    then b'a' + (n - 26)
    else if ltb n 62
    then b'0' + (n - 52)
    else if n == 62
    then b'+'
    else b'/'

unfoldable pub index : ℕ → Option ℕ
index c =
    if leb b'A' c && leb c b'Z'
    then some (c - b'A')
    else if leb b'a' c && leb c b'z'
    then some (c - b'a' + 26)
    else if leb b'0' c && leb c b'9'
    then some (c - b'0' + 52)
    else if c == b'+'
    then some 62
    else if c == b'/'
    then some 63
    else none

-- `EncodeToString`
unfoldable pub encode : Text → Text
unfolding symbol
encode [] = []
encode (a ∷ []) = symbol (a / 4) ∷ symbol (a % 4 * 16) ∷ b'=' ∷ b'=' ∷ []
encode (a ∷ b ∷ []) =
    symbol (a / 4) ∷ symbol (a % 4 * 16 + b / 16) ∷ symbol (b % 16 * 4) ∷ b'=' ∷ []
encode (a ∷ b ∷ c ∷ s) =
    symbol (a / 4)
    ∷ symbol (a % 4 * 16 + b / 16)
    ∷ symbol (b % 16 * 4 + c / 64)
    ∷ symbol (c % 64)
    ∷ encode s

-- The three bytes of four symbols, in front of the bytes behind them.
unfoldable pub full_quad : Option ℕ → Option ℕ → Option ℕ → Option ℕ → Option Text → Option Text
full_quad (some i) (some j) (some k) (some l) (some rest) =
    some ((i * 4 + j / 16) ∷ (j % 16 * 16 + k / 4) ∷ (k % 4 * 64 + l) ∷ rest)
full_quad _ _ _ _ _ = none

-- Padded groups; strict decoding refuses bits that are left over.
unfoldable pub two_symbols : Option ℕ → Option ℕ → Option Text
two_symbols (some i) (some j) = if j % 16 == 0 then some ((i * 4 + j / 16) ∷ []) else none
two_symbols _ _ = none

unfoldable pub three_symbols : Option ℕ → Option ℕ → Option ℕ → Option Text
three_symbols (some i) (some j) (some k) =
    if k % 4 == 0 then some ((i * 4 + j / 16) ∷ (j % 16 * 16 + k / 4) ∷ []) else none
three_symbols _ _ _ = none

-- The last four symbols, of which the last may be padding.
unfoldable pub last_quad : ℕ → ℕ → ℕ → ℕ → Option Text
unfolding index full_quad two_symbols three_symbols
last_quad p q r s =
    if not (s == b'=')
    then full_quad (index p) (index q) (index r) (index s) (some [])
    else if r == b'='
    then two_symbols (index p) (index q)
    else three_symbols (index p) (index q) (index r)

unfoldable pub decode_groups : Text → Option Text
unfolding index full_quad last_quad
decode_groups [] = some []
decode_groups (p ∷ q ∷ r ∷ s ∷ []) = last_quad p q r s
decode_groups (p ∷ q ∷ r ∷ s ∷ t ∷ more) =
    full_quad (index p) (index q) (index r) (index s) (decode_groups (t ∷ more))
decode_groups _ = none

-- `Strict().DecodeString`, which skips line ends.
unfoldable pub decode : Text → Option Text
unfolding decode_groups
decode s = decode_groups (filter (λ c. not ((c == 10) || (c == 13))) s)

-- What a first byte of a UTF-8 sequence asks for: the number of bytes that follow, and the range of
-- the next one.
unfoldable pub lead : ℕ → Option (ℕ × ℕ × ℕ)
lead c =
    if ltb c 128
    then some (0, 0, 0)
    else if leb 194 c && leb c 223
    then some (1, 128, 191)
    else if c == 224
    then some (2, 160, 191)
    else if c == 237
    then some (2, 128, 159)
    else if leb 225 c && leb c 239
    then some (2, 128, 191)
    else if c == 240
    then some (3, 144, 191)
    else if leb 241 c && leb c 243
    then some (3, 128, 191)
    else if c == 244
    then some (3, 128, 143)
    else none

unfoldable pub utf8_from : ℕ → ℕ → ℕ → Text → Bool
unfolding lead
utf8_from zero low high [] = true
utf8_from (suc n) low high [] = false
utf8_from zero low high (c ∷ s) = elim (lead c) [
  | none ↦ false
  | some (n, l, h) ↦ utf8_from n l h s
]
utf8_from (suc n) low high (c ∷ s) = leb low c && leb c high && utf8_from n 128 191 s

-- `utf8.Valid`
unfoldable pub utf8_valid : Text → Bool
unfolding utf8_from
utf8_valid s = utf8_from 0 0 0 s
