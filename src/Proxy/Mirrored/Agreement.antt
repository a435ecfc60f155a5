-- ===== src/Proxy/Mirrored/Agreement.antt =====
-- Headers that pass the check agree with the body.
use kite_rail.Prelude.{
  ◌≡◌, refl, subst, ◌∙◌, ap, Bool, true, false, Option, none, some, List, [], ◌∷◌, ◌++◌, any, All,
  Bool-cases, inl, inr, arith, if◌then◌else◌,
}
use kite_rail.Prelude.Text.{Text, codes, text_eq, text_eq_iff}
use kite_rail.Prelude.Headers.{Headers, lookup}
use kite_rail.Proxy.Ingress.{IngressRequest}
use kite_rail.Proxy.Mirrored.{
  equal_fold, Single, omitted, single, malformed, is_present, collect, has_outer_space,
  is_bad_character, check_value, check_values, single_header, decode_header_name, or_else,
  method_error, compare_name, name_error, version_error, protocol_version,
  validate_mirrored_headers,
}

-- The header is omitted, or its value satisfies `P`.
abbrev pub Holds : (Text → Type 0) → Single → Type 0
Holds P omitted = Unit
Holds P (single v) = P v
Holds P (malformed e) = ⊥

check_value-Holds : (P : Text → Type 0) (v : Text) → Holds P (check_value v) → All P (v ∷ [])
unfolding check_value
check_value-Holds P [] h = absurd h
check_value-Holds P (c ∷ s) h = elim (Bool-cases (has_outer_space (c ∷ s))) [
  | inl outer ↦ absurd (rw outer at h)
  | inr inner ↦ elim (Bool-cases (any is_bad_character (c ∷ s))) [
    | inl bad ↦ absurd (rw (inner, bad) at h)
    | inr good ↦ (rw (inner, good) at h, tt)
  ]
]

check_values-Holds : (P : Text → Type 0) (vs : List Text) → Holds P (check_values vs) → All P vs
unfolding check_values
check_values-Holds P [] h = absurd h
check_values-Holds P (v ∷ []) h = check_value-Holds P v h
check_values-Holds P (v ∷ w ∷ vs) h = absurd h

pub collect-absent :
    (expected : Text) (header : Headers)
    → is_present expected header ≡ false
    → collect expected header ≡ []
unfolding is_present collect
collect-absent expected [] h = refl
collect-absent expected ((name, entries) ∷ rest) h = ground (arith, collect-absent expected rest)

pub single_header-Holds :
    (P : Text → Type 0) (header : Headers) (expected : Text)
    → Holds P (single_header header expected)
    → All P (collect expected header)
unfolding single_header
single_header-Holds P header expected h = elim (Bool-cases (is_present expected header)) [
  | inl there ↦ check_values-Holds P _ (rw there at h)
  | inr absent ↦ rw (collect-absent expected header absent) tt
]

All-left {ℓ κ} : {A : Type ℓ} (P : A → Type κ) (s t : List A) → All P (s ++ t) → All P s
All-left P [] t h = tt
All-left P (x ∷ s) t h = (h.0, All-left P s t h.1)

All-right {ℓ κ} : {A : Type ℓ} (P : A → Type κ) (s t : List A) → All P (s ++ t) → All P t
All-right P [] t h = h
All-right P (x ∷ s) t h = All-right P s t h.1

-- What holds of all collected values holds of those under each name that matches.
pub collect-All :
    (P : Text → Type 0) (expected name : Text) (values : List Text) (header : Headers)
    → lookup name header ≡ some values
    → equal_fold name expected ≡ true
    → All P (collect expected header)
    → All P values
unfolding lookup collect
collect-All P expected name values [] found same h = cc
collect-All P expected name values ((k, vs) ∷ rest) found same h =
    elim (Bool-cases (text_eq k name)) [
      | inl here ↦
          let v : vs ≡ values = ground arith in
          let matches : equal_fold k expected ≡ true =
            ap (λ n. equal_fold n expected) ((text_eq_iff k name).0 here) ∙ same in
          subst (All P) v (All-left P vs (collect expected rest) (opened true matches h))
      | inr there ↦
          let found' : lookup name rest ≡ some values = ground arith in
          collect-All P expected name values rest found' same (behind (equal_fold k expected) h)
    ]
  where
    opened :
        (b : Bool)
        → equal_fold k expected ≡ b
        → All P
            (if equal_fold k expected then vs ++ collect expected rest else collect expected rest)
        → All P (if b then vs ++ collect expected rest else collect expected rest)
    opened b e =
        subst (λ x. All P (if x then vs ++ collect expected rest else collect expected rest)) e

    behind :
        (b : Bool)
        → All P (if b then vs ++ collect expected rest else collect expected rest)
        → All P (collect expected rest)
    behind true g = All-right P vs _ g
    behind false g = g

or_else-none {ℓ} : {E : Type ℓ} (a b : Option E) → or_else a b ≡ none → (a ≡ none) × (b ≡ none)
or_else-none none b h = (refl, h)
or_else-none (some e) b h = cc

method_error-Holds :
    (ing : IngressRequest) (s : Single) → method_error ing s ≡ none → Holds (λ v. v ≡ ing.method) s
unfolding method_error
method_error-Holds ing omitted h = tt
method_error-Holds ing (malformed e) h = cc
method_error-Holds ing (single v) h = ground (arith, text_eq_iff v ing.method)

name_error-Holds :
    (ing : IngressRequest) (s : Single)
    → name_error ing s ≡ none
    → Holds (λ v. decode_header_name v ≡ some ing.params_name) s
unfolding name_error compare_name
name_error-Holds ing omitted h = tt
name_error-Holds ing (malformed e) h = cc
name_error-Holds ing (single v) h = compared (decode_header_name v) h
  where
    compared : (o : Option Text) → compare_name ing o ≡ none → o ≡ some ing.params_name
    compared none e = cc
    compared (some name) e = ground (arith, text_eq_iff name ing.params_name)

-- All values of a header satisfy `P` if its name folds to this one.
abbrev pub UnderName : Text → Text → (Text → Type 0) → List Text → Type 0
UnderName name expected P values = When (equal_fold name expected)
  where
    When : Bool → Type 0
    When true = All P values
    When false = Unit

UnderName-collect :
    (P : Text → Type 0) (expected name : Text) (values : List Text) (header : Headers)
    → lookup name header ≡ some values
    → Holds P (single_header header expected)
    → UnderName name expected P values
UnderName-collect P expected name values header found h = by_name (equal_fold name expected) refl
  where
    by_name :
        (b : Bool)
        → equal_fold name expected ≡ b
        → elim b as (λ _. Type 0) [ false ↦ Unit | true ↦ All P values ]
    by_name true same =
        collect-All P expected name values header found same
          (single_header-Holds P header expected h)
    by_name false other = tt

-- Each value of a mirrored header says what the request says.
abbrev pub Mirrors : Text → List Text → Text → Text → Text → Type 0
Mirrors name values method subject version =
    UnderName name (codes "Mcp-Method") (λ v. v ≡ method) values
    × UnderName name (codes "Mcp-Name") (λ v. decode_header_name v ≡ some subject) values
    × UnderName name protocol_version (λ v. v ≡ version) values

pub validate_mirrored_headers-Mirrors :
    (name : Text) (values : List Text) (header : Headers) (ing : IngressRequest) (version : Text)
    → validate_mirrored_headers header ing ≡ none
    → Holds (λ v. v ≡ version) (single_header header protocol_version)
    → lookup name header ≡ some values
    → Mirrors name values ing.method ing.params_name version
unfolding validate_mirrored_headers
validate_mirrored_headers-Mirrors name values header ing version passed same found =
    let (m, rest) = or_else-none _ _ passed in
    let (n, v) = or_else-none _ _ rest in
    (
      UnderName-collect _ (codes "Mcp-Method") name values header found
          (method_error-Holds ing _ m),
      UnderName-collect _ (codes "Mcp-Name") name values header found (name_error-Holds ing _ n),
      UnderName-collect _ protocol_version name values header found same,
    )

pub validate_mirrored_headers-version :
    (header : Headers) (ing : IngressRequest)
    → validate_mirrored_headers header ing ≡ none
    → version_error (single_header header protocol_version) ≡ none
unfolding validate_mirrored_headers
validate_mirrored_headers-version header ing passed =
    (or_else-none _ _ (or_else-none _ _ passed).1).1

pub validate_mirrored_headers-Holds :
    (header : Headers) (ing : IngressRequest)
    → validate_mirrored_headers header ing ≡ none
    → Holds (λ v. v ≡ ing.method) (single_header header (codes "Mcp-Method"))
      × Holds
          (λ v. decode_header_name v ≡ some ing.params_name)
          (single_header header (codes "Mcp-Name"))
unfolding validate_mirrored_headers
validate_mirrored_headers-Holds header ing passed =
    let (m, rest) = or_else-none _ _ passed in
    (method_error-Holds ing _ m, name_error-Holds ing _ (or_else-none _ _ rest).0)
