-- ===== src/Prelude/Headers.antt =====
-- `http.Header` as an association list in the order in which a `range` meets its keys, with the
-- operations of net/http that the program uses.
pub mod Names
use Prim.Native.Nat.{ℕ, ◌+◌, ◌-◌}
use mathlib.Core.Path.{◌≡◌, refl, ap, ap₂, ◌∙◌}
use mathlib.Core.List.{List, [], ◌∷◌, ◌++◌, map}
use mathlib.Core.Bool.{Bool, true, false, ◌&&◌, ◌||◌}
use mathlib.Core.Option.{Option, none, some}
use native.Mathlib.Omega.{arith}
use kite_rail.Prelude.Tests.{leb, ◌==◌, if◌then◌else◌, Bool-cases}
use kite_rail.Prelude.Text.{Text, codes, text_eq, text_eq_iff}
use mathlib.Core.Logic.{inl, inr}

abbrev pub Headers : Type 0
Headers = List (Text × List Text)

is_lower : ℕ → Bool
is_lower c = leb b'a' c && leb c b'z'

is_upper : ℕ → Bool
is_upper c = leb b'A' c && leb c b'Z'

is_digit : ℕ → Bool
is_digit c = leb b'0' c && leb c b'9'

unfoldable pub to_lower : ℕ → ℕ
unfolding is_upper
to_lower c = if is_upper c then c + 32 else c

unfoldable pub to_upper : ℕ → ℕ
unfolding is_lower
to_upper c = if is_lower c then c - 32 else c

contains : Text → ℕ → Bool
contains [] c = false
contains (d ∷ s) c = (c == d) || contains s c

-- The bytes of a header name (RFC 7230 tokens).
is_token : ℕ → Bool
unfolding is_lower is_upper is_digit contains
is_token c = is_lower c || is_upper c || is_digit c || contains (codes "!#$%&'*+-.^_`|~") c

unfoldable pub all_tokens : Text → Bool
unfolding is_token
all_tokens [] = true
all_tokens (c ∷ s) = is_token c && all_tokens s

-- The first letter and each letter behind a dash in upper case, the others in lower case.
unfoldable pub words : Bool → Text → Text
unfolding to_lower to_upper
words start [] = []
words start (c ∷ s) = (if start then to_upper c else to_lower c) ∷ words (c == b'-') s

-- `http.CanonicalHeaderKey`: a name with other bytes stays as it is.
unfoldable pub canonical : Text → Text
unfolding all_tokens words
canonical name = if all_tokens name then words true name else name

-- `header[key]` at exactly this key.
unfoldable pub lookup : Text → Headers → Option (List Text)
lookup key [] = none
lookup key ((k, vs) ∷ rest) = if text_eq k key then some vs else lookup key rest

-- `header[key] = values`
unfoldable pub put : Text → List Text → Headers → Headers
put key vs [] = (key, vs) ∷ []
put key vs ((k, ws) ∷ rest) = if text_eq k key then (k, vs) ∷ rest else (k, ws) ∷ put key vs rest

-- `header.Set`
unfoldable pub set : Text → Text → Headers → Headers
set name value = put (canonical name) (value ∷ [])

-- `header.Add`
unfoldable pub add : Text → Text → Headers → Headers
add name value h = elim (lookup (canonical name) h) [
  | none ↦ put (canonical name) (value ∷ []) h
  | some vs ↦ put (canonical name) (vs ++ (value ∷ [])) h
]

-- `header.Get`
unfoldable pub get : Text → Headers → Text
get name h = elim (lookup (canonical name) h) [
  | none ↦ []
  | some vs ↦ elim vs [ [] ↦ [] | v ∷ rest ↦ v ]
]

pub lookup-put :
    (key j : Text) (vs : List Text) (h : Headers)
    → lookup j (put key vs h) ≡ (if text_eq key j then some vs else lookup j h)
unfolding lookup put
lookup-put key j vs [] = refl
lookup-put key j vs ((k, ws) ∷ rest) =
    ground (arith, text_eq_iff k key, text_eq_iff key j, text_eq_iff k j, lookup-put key j vs rest)

-- What `Get` reads behind a `Set`.
pub get-set :
    (n m v : Text) (h : Headers)
    → get n (set m v h) ≡ (if text_eq (canonical m) (canonical n) then v else get n h)
unfolding get set
get-set n m v h =
    ap first (lookup-put (canonical m) (canonical n) (v ∷ []) h)
    ∙ choose (text_eq (canonical m) (canonical n))
  where
    first : Option (List Text) → Text
    first o = elim o [ none ↦ [] | some vs ↦ elim vs [ [] ↦ [] | w ∷ rest ↦ w ] ]

    choose :
        (b : Bool)
        → first (if b then some (v ∷ []) else lookup (canonical n) h) ≡ (if b then v else get n h)
    choose true = refl
    choose false = refl

to_lower-to_lower : (c : ℕ) → to_lower (to_lower c) ≡ to_lower c
unfolding to_lower
to_lower-to_lower c = ground arith

to_lower-to_upper : (c : ℕ) → to_lower (to_upper c) ≡ to_lower c
unfolding to_lower to_upper
to_lower-to_upper c = ground arith

lower-words : (start : Bool) (s : Text) → map to_lower (words start s) ≡ map to_lower s
unfolding words
lower-words start [] = refl
lower-words true (c ∷ s) = ap₂ ◌∷◌ (to_lower-to_upper c) (lower-words (c == b'-') s)
lower-words false (c ∷ s) = ap₂ ◌∷◌ (to_lower-to_lower c) (lower-words (c == b'-') s)

pub lower-canonical : (name : Text) → map to_lower (canonical name) ≡ map to_lower name
unfolding canonical
lower-canonical name = elim (Bool-cases (all_tokens name)) [
  | inl valid ↦ rw valid (lower-words true name)
  | inr invalid ↦ rw invalid refl
]
