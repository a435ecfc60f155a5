-- ===== src/Mcp/Json/Distinct.antt =====
-- Values as tokens, and repeated member names.
use kite_rail.Prelude.{
  ◌+◌, ◌≤◌, ◌≡◌, refl, Bool, true, false, not, ◌&&◌, ◌||◌, List, [], ◌∷◌, ◌++◌, arith, Option, none,
  some, if◌then◌else◌, length, length-append,
}
use kite_rail.Prelude.Text.{Text, text_eq, text_eq_iff}
use kite_rail.Mcp.Json.{
  lookup, Value, Items, Fields, string, leaf, array, object, no_items, item, no_fields, field,
  Token, open_object, close_object, open_array, close_array, scalar, more, exists, insert,
}

-- The tokens of a value, as they stand in a text.
unfoldable mutual
  pub flatten : Value → List Token
  flatten (array xs) = open_array ∷ flatten_items xs ++ (close_array ∷ [])
  flatten (object fs) = open_object ∷ flatten_fields fs ++ (close_object ∷ [])
  flatten (leaf s) = scalar s ∷ []

  pub flatten_items : Items → List Token
  flatten_items no_items = []
  flatten_items (item v xs) = flatten v ++ flatten_items xs

  pub flatten_fields : Fields → List Token
  flatten_fields no_fields = []
  flatten_fields (field k v fs) = scalar (string k) ∷ flatten v ++ flatten_fields fs

-- No object of the value has two members with one name.
unfoldable mutual
  pub distinct : Value → Bool
  distinct (array xs) = distinct_items xs
  distinct (object fs) = distinct_fields fs
  distinct (leaf s) = true

  pub distinct_items : Items → Bool
  distinct_items no_items = true
  distinct_items (item v xs) = distinct v && distinct_items xs

  pub distinct_fields : Fields → Bool
  distinct_fields no_fields = true
  distinct_fields (field k v fs) = not (exists k fs) && distinct v && distinct_fields fs

pub flatten_pos : (v : Value) → 1 ≤ length (flatten v)
unfolding flatten
flatten_pos (leaf s) = omega arith
flatten_pos (array xs) = omega arith
flatten_pos (object fs) = omega arith

pub length-tokens : (s t : List Token) → length (s ++ t) ≡ length s + length t
length-tokens = length-append

pub more-flatten : (v : Value) (ts : List Token) → more (flatten v ++ ts) ≡ true
unfolding more flatten
more-flatten (leaf s) ts = refl
more-flatten (array xs) ts = refl
more-flatten (object fs) ts = refl

-- The members so far, followed by others.
unfoldable pub join : Fields → Fields → Fields
join no_fields gs = gs
join (field k v fs) gs = field k v (join fs gs)

pub join-nil : (fs : Fields) → join fs no_fields ≡ fs
unfolding join
join-nil no_fields = refl
join-nil (field k v fs) = rw (join-nil fs)

pub join-insert :
    (k : Text) (v : Value) (fs gs : Fields) → join (insert k v fs) gs ≡ join fs (field k v gs)
unfolding join insert
join-insert k v no_fields gs = refl
join-insert k v (field j w fs) gs = rw (join-insert k v fs gs)

-- No name of the second object exists in the first.
unfoldable pub disjoint : Fields → Fields → Bool
disjoint so_far no_fields = true
disjoint so_far (field k v fs) = not (exists k so_far) && disjoint so_far fs

exists-insert :
    (j k : Text) (v : Value) (fs : Fields) → exists j (insert k v fs) ≡ (exists j fs || text_eq k j)
unfolding exists insert
exists-insert j k v no_fields = ground arith
exists-insert j k v (field i w fs) = ground (arith, exists-insert j k v fs)

pub disjoint-insert :
    (k : Text) (v : Value) (so_far fs : Fields)
    → disjoint (insert k v so_far) fs ≡ (disjoint so_far fs && not (exists k fs))
unfolding disjoint exists
disjoint-insert k v so_far no_fields = refl
disjoint-insert k v so_far (field j w fs) = ground (
  arith,
  exists-insert j k v so_far,
  text_eq_iff k j,
  text_eq_iff j k,
  disjoint-insert k v so_far fs,
)

pub disjoint-nil : (fs : Fields) → disjoint no_fields fs ≡ true
unfolding disjoint exists
disjoint-nil no_fields = refl
disjoint-nil (field k v fs) = rw (disjoint-nil fs)

-- The last member of a name, which other decoders read.
unfoldable pub lookup_last : Text → Fields → Option Value
lookup_last key no_fields = none
lookup_last key (field k v rest) = elim (lookup_last key rest) [
  | some w ↦ some w
  | none ↦ if text_eq k key then some v else none
]

lookup_last-absent : (key : Text) (fs : Fields) → exists key fs ≡ false → lookup_last key fs ≡ none
unfolding lookup_last exists
lookup_last-absent key no_fields h = refl
lookup_last-absent key (field k v fs) h = ground (arith, lookup_last-absent key fs)

pub lookup-lookup_last :
    (key : Text) (fs : Fields) → distinct_fields fs ≡ true → lookup key fs ≡ lookup_last key fs
unfolding lookup lookup_last distinct
lookup-lookup_last key no_fields h = refl
lookup-lookup_last key (field k v fs) h =
    ground (arith, text_eq_iff k key, lookup_last-absent key fs, lookup-lookup_last key fs)
