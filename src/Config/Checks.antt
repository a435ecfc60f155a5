-- ===== src/Config/Checks.antt =====
-- What it means that the checks of a configuration have passed.
use kite_rail.Prelude.{
  ◌≡◌, inl, inr, refl, Bool, true, false, not, none, some, List, [], ◌∷◌, any, map, All, Holds,
  Bool-cases,
}
use kite_rail.Prelude.Text.{Text, text_eq, ne_of_text_eq}
use kite_rail.Config.{ConfigError, Check, require, unless, first_error, each, member}

pub first_error-none :
    (checks : List Check) → first_error checks ≡ none → All (λ c. c ≡ none) checks
unfolding first_error
first_error-none [] h = tt
first_error-none (none ∷ checks) h = (refl, first_error-none checks h)
first_error-none (some e ∷ checks) h = cc

pub require-none : (b : Bool) (e : ConfigError) → require b e ≡ none → b ≡ true
require-none true e h = refl
require-none false e h = cc

pub require-not : (b : Bool) (e : ConfigError) → require (not b) e ≡ none → b ≡ false
require-not true e h = cc
require-not false e h = refl

pub unless-not : (b : Bool) (k : Check) → unless (not b) k ≡ none → b ≡ true → k ≡ none
unless-not true k h e = h
unless-not false k h e = cc

All-of-map :
    {A B : Type 0} (P : B → Type 0) (f : A → B) (xs : List A)
    → All P (map f xs)
    → All (λ x. P (f x)) xs
All-of-map P f [] h = tt
All-of-map P f (x ∷ xs) h = (h.0, All-of-map P f xs h.1)

pub each-none :
    {A : Type 0} (f : A → Check) (xs : List A) → each f xs ≡ none → All (λ x. f x ≡ none) xs
unfolding each
each-none f xs h = All-of-map (λ c. c ≡ none) f xs (first_error-none (map f xs) h)

pub All-map :
    {A : Type 0} (P Q : A → Type 0) (xs : List A) → ((x : A) → P x → Q x) → All P xs → All Q xs
All-map P Q [] f h = tt
All-map P Q (x ∷ xs) f h = (f x h.0, All-map P Q xs f h.1)

pub not_member : (xs : List Text) (x : Text) → member xs x ≡ false → ¬ Holds x xs
not_member [] x h m = m
not_member (y ∷ xs) x h m = elim (Bool-cases (text_eq y x)) [
  | inl same ↦ cc (rw (same, any) at h)
  | inr other ↦ elim m [
    | inl here ↦ ne_of_text_eq other here
    | inr there ↦ not_member xs x (rw (other, any) at h) there
  ]
]
