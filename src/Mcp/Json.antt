-- ===== src/Mcp/Json.antt =====
-- The decoding of message bodies, backend/internal/mcp/json.go. The checks on UTF-8 and JSON syntax
-- and the tokens that `json.Decoder` reads, with `UseNumber`, are a parameter.
pub mod Distinct
pub mod Exact
mod Tests
use kite_rail.Prelude.{
  ℕ, zero, suc, ◌+◌, ◌*◌, Bool, true, false, ◌||◌, Option, none, some, List, [], ◌∷◌, length,
  if◌then◌else◌,
}
use kite_rail.Prelude.Text.{Text, text_eq}

pub data Scalar : Type 0 where
  null : Scalar
  bool : Bool → Scalar
  number : Text → Scalar
  string : Text → Scalar

-- A value that `json.Decoder` may produce; an object lists its members in the order of insertion.
mutual
  pub data Value : Type 0 where
    leaf : Scalar → Value
    array : Items → Value
    object : Fields → Value

  pub data Items : Type 0 where
    no_items : Items
    item : Value → Items → Items

  pub data Fields : Type 0 where
    no_fields : Fields
    field : Text → Value → Fields → Fields

-- What `decoder.Token` returns: a delimiter, or a scalar.
pub data Token : Type 0 where
  open_object close_object open_array close_array : Token
  scalar : Scalar → Token

pub data Error : Type 0 where
  invalid_body token_error bad_key not_object out_of_fuel : Error
  duplicate : Text → Error

pub data Result {ℓ} (A : Type ℓ) : Type ℓ where
  ok : A → Result A
  err : Error → Result A

-- A decoder reads from the tokens that are left.
abbrev pub Decoder {ℓ} : Type ℓ → Type ℓ
Decoder A = List Token → Result (A × List Token)

abbrev pure {ℓ} : {A : Type ℓ} → A → Decoder A
pure a ts = ok (a, ts)

abbrev pub bind {ℓ κ} : {A : Type ℓ} {B : Type κ} → Result A → (A → Result B) → Result B
bind (ok a) f = f a
bind (err e) f = err e

module _ {ℓ κ} {A : Type ℓ} {B : Type κ} where
  infixl 1 ◌>>=◌ ◌>>◌
  abbrev ◌>>=◌ : Decoder A → (A → Decoder B) → Decoder B
  m >>= f = λ ts. bind (m ts) λ (a, rest). f a rest

  abbrev ◌>>◌ : Decoder A → Decoder B → Decoder B
  m >> k = m >>= λ _. k

abbrev run {ℓ} : {A : Type ℓ} → List Token → Decoder A → Result (A × List Token)
run ts m = m ts

-- `object[key]`, and whether it exists.
unfoldable pub lookup : Text → Fields → Option Value
lookup key no_fields = none
lookup key (field k v rest) = if text_eq k key then some v else lookup key rest

unfoldable pub exists : Text → Fields → Bool
exists key no_fields = false
exists key (field k v rest) = text_eq k key || exists key rest

-- `object[key] = value` at a key that does not exist yet.
unfoldable pub insert : Text → Value → Fields → Fields
insert key v no_fields = field key v no_fields
insert key v (field k w rest) = field k w (insert key v rest)

-- `decoder.More`
unfoldable pub more : List Token → Bool
more [] = false
more (close_object ∷ ts) = false
more (close_array ∷ ts) = false
more (_ ∷ ts) = true

-- The token of a member name.
unfoldable pub member_name : Decoder Text
member_name [] = err token_error
member_name (scalar (string key) ∷ ts) = ok (key, ts)
member_name (_ ∷ ts) = err bad_key

unfoldable pub fresh : Text → Fields → Decoder (Unit {0})
unfolding exists
fresh key so_far ts = if exists key so_far then err (duplicate key) else ok (tt, ts)

-- The token behind the last member or value.
unfoldable pub end_object : Decoder (Unit {0})
end_object (close_object ∷ ts) = ok (tt, ts)
end_object _ = err token_error

unfoldable pub end_array : Decoder (Unit {0})
end_array (close_array ∷ ts) = ok (tt, ts)
end_array _ = err token_error

-- `decodeValue` and its two loops. Each call costs a unit of fuel.
unfoldable mutual
  pub decode_value : ℕ → Decoder Value
  decode_value zero ts = err out_of_fuel
  decode_value (suc f) (open_object ∷ ts) = run ts do pure (object (← decode_members f no_fields))
  decode_value (suc f) (open_array ∷ ts) = run ts do pure (array (← decode_items f))
  decode_value (suc f) (scalar s ∷ ts) = ok (leaf s, ts)
  decode_value (suc f) _ = err token_error

  pub decode_members : ℕ → Fields → Decoder Fields
  decode_members zero so_far ts = err out_of_fuel
  decode_members (suc f) so_far ts =
      let member = run ts do
        key ← member_name
        fresh key so_far
        v ← decode_value f
        decode_members f (insert key v so_far)
      in if more ts then member else run ts do end_object; pure so_far

  pub decode_items : ℕ → Decoder Items
  decode_items zero ts = err out_of_fuel
  decode_items (suc f) ts =
      let next = run ts do pure (item (← decode_value f) (← decode_items f))
      in if more ts then next else run ts do end_array; pure no_items

-- The check that the value is an object.
unfoldable pub as_object : Value → Result Fields
as_object (object fields) = ok fields
as_object _ = err not_object

-- `lex` gives the tokens of a body, `none` if it is not one valid JSON value in UTF-8.
module _ (lex : Text → Option (List Token)) where
  unfoldable pub decode_object : Text → Result Fields
  unfolding as_object
  decode_object body = elim (lex body) [
    | none ↦ err invalid_body
    | some ts ↦ bind (decode_value (2 * length ts + 1) ts) λ (v, _). as_object v
  ]
