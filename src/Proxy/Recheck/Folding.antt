-- ===== src/Proxy/Recheck/Folding.antt =====
-- Which header names fold to a mirrored one, for names that are tokens.
use kite_rail.Prelude.{
  ℕ, ◌<◌, ◌≡◌, refl, sym, ◌∙◌, ap, true, false, ◌==◌, none, some, [], ◌∷◌, map, Bool-cases, inl,
  inr, arith,
}
use kite_rail.Prelude.Text.{Text, text_eq, text_eq_iff, has_prefix}
use kite_rail.Prelude.Headers.{to_lower, all_tokens, words, canonical, lower-canonical}
use kite_rail.Prelude.Headers.Names.{
  IsAscii, all_tokens-IsAscii, canonical-IsAscii, canonical-words,
}
use kite_rail.Proxy.Mirrored.{fold_rune, fold_head, equal_fold}

fold_rune-ascii : (x c : ℕ) (s : Text) → c < 128 → fold_rune x (c ∷ s) ≡ none
unfolding fold_rune has_prefix
fold_rune-ascii x c s h = ground (arith, h)

fold_head-same :
    (x c : ℕ) (s : Text) → (to_lower c == to_lower x) ≡ true → fold_head x (c ∷ s) ≡ some s
unfolding fold_head
fold_head-same x c s same = rw same refl

fold_head-other :
    (x c : ℕ) (s : Text) → c < 128 → (to_lower c == to_lower x) ≡ false → fold_head x (c ∷ s) ≡ none
unfolding fold_head
fold_head-other x c s h other = rw other (fold_rune-ascii (to_lower x) c s h)

-- An ASCII name folds to another name if both are the same in lower case.
equal_fold-lower :
    (name expected : Text)
    → IsAscii name
    → equal_fold name expected ≡ text_eq (map to_lower name) (map to_lower expected)
unfolding equal_fold text_eq
equal_fold-lower [] [] a = refl
equal_fold-lower (c ∷ name) [] a = refl
equal_fold-lower [] (x ∷ expected) a = refl
equal_fold-lower (c ∷ name) (x ∷ expected) a = elim (Bool-cases (to_lower c == to_lower x)) [
  | inl same ↦
      rw (fold_head-same x c name same, equal_fold, same) (equal_fold-lower name expected a.1)
  | inr other ↦ rw (fold_head-other x c name a.0 other, equal_fold, other) refl
]

-- A name in its canonical form folds as before.
pub equal_fold-canonical :
    (name expected : Text)
    → all_tokens name ≡ true
    → equal_fold (canonical name) expected ≡ equal_fold name expected
equal_fold-canonical name expected valid =
    let a = all_tokens-IsAscii name valid in
    equal_fold-lower (canonical name) expected (canonical-IsAscii name a)
    ∙ ap (λ s. text_eq s (map to_lower expected)) (lower-canonical name)
    ∙ sym (equal_fold-lower name expected a)

-- A token that folds to a name is the same in lower case.
pub equal_fold-same :
    (name expected : Text)
    → all_tokens name ≡ true
    → equal_fold name expected ≡ true
    → map to_lower name ≡ map to_lower expected
equal_fold-same name expected valid same =
    (text_eq_iff _ _).0
      (sym (equal_fold-lower name expected (all_tokens-IsAscii name valid)) ∙ same)

-- The names that fold to one have one canonical form.
pub equal_fold-words :
    (name expected : Text)
    → all_tokens name ≡ true
    → equal_fold name expected ≡ true
    → canonical name ≡ words true (map to_lower expected)
equal_fold-words name expected valid same =
    canonical-words name valid ∙ ap (words true) (equal_fold-same name expected valid same)
