-- ===== src/Proxy/Recheck/Tidy.antt =====
-- One spelling of a mirrored header in a list of headers, and how adding to it keeps that.
use kite_rail.Prelude.{
  ◌≡◌, ◌≢◌, ◌⊎◌, inl, inr, refl, sym, subst, ◌∙◌, ap, Bool, true, false, Option, none, some, List,
  [], ◌∷◌, ◌++◌, map, append_assoc, append-nil, Bool-cases, arith,
}
use mathlib.Core.Bool.{true≢false}
use mathlib.Core.Option.{some-injective}
use kite_rail.Prelude.Text.{Text, text_eq, text_eq_iff}
use kite_rail.Prelude.Headers.{Headers, to_lower, all_tokens, words, canonical, lookup, put, add}
use kite_rail.Mcp.Headers.{add_all}
use kite_rail.Proxy.Mirrored.{equal_fold, is_present}
use kite_rail.Proxy.Recheck.Folding.{equal_fold-canonical, equal_fold-words}

snoc-ne-nil : (vs : List Text) (v : Text) → vs ++ (v ∷ []) ≢ []
snoc-ne-nil [] v = λ e. cc e
snoc-ne-nil (u ∷ vs) v = λ e. cc e

-- A mirrored header with the key that net/http gives it.
module _ (expected key : Text) (folds : equal_fold key expected ≡ true)
    (spelled : words true (map to_lower expected) ≡ key) where
  -- One entry has a name that folds to the expected one, under the key, with these values; or none, if
  -- there are no values.
  abbrev pub Matching : Bool → Text → List Text → Headers → List Text → Type 0 → Type 0
  Matching true k ws rest vs Tail =
      (k ≡ key) × (ws ≡ vs) × (vs ≢ []) × (is_present expected rest ≡ false)
  Matching false k ws rest vs Tail = Tail

  abbrev pub Tidy : Headers → List Text → Type 0
  Tidy [] vs = vs ≡ []
  Tidy ((k, ws) ∷ rest) vs = Matching (equal_fold k expected) k ws rest vs (Tidy rest vs)

  other_key : (k : Text) → equal_fold k expected ≡ false → text_eq k key ≡ false
  other_key k e = elim (Bool-cases (text_eq k key)) [
    | inr other ↦ other
    | inl same ↦ absurd (
        true≢false
          (sym folds ∙ ap (λ n. equal_fold n expected) (sym ((text_eq_iff k key).0 same)) ∙ e))
  ]

  key_is : (k : Text) → k ≡ key → text_eq k key ≡ true
  key_is k e = (text_eq_iff k key).1 e

  -- What a lookup under the key finds.
  abbrev Found : Headers → List Text → Type 0
  Found h vs = ((lookup key h ≡ none) × (vs ≡ [])) ⊎ (lookup key h ≡ some vs)

  lookup-Tidy : (h : Headers) (vs : List Text) → Tidy h vs → Found h vs
  unfolding lookup
  lookup-Tidy [] vs t = inl (refl, t)
  lookup-Tidy ((k, ws) ∷ rest) vs t = by_name (equal_fold k expected) refl t (lookup-Tidy rest vs)
    where
      by_name :
          (b : Bool)
          → equal_fold k expected ≡ b
          → Matching b k ws rest vs (Tidy rest vs)
          → (Tidy rest vs → Found rest vs)
          → Found ((k, ws) ∷ rest) vs
      by_name true e h later = inr (rw (key_is k h.0) (ap some h.1))
      by_name false e h later = rw (other_key k e) (later h)

  put-Tidy :
      (us : List Text) (h : Headers) (vs : List Text) → us ≢ [] → Tidy h vs → Tidy (put key us h) us
  unfolding put is_present
  put-Tidy us [] vs ne t = rw folds (refl, refl, ne, refl)
  put-Tidy us ((k, ws) ∷ rest) vs ne t =
      by_name (equal_fold k expected) refl t (put-Tidy us rest vs ne)
    where
      by_name :
          (b : Bool)
          → equal_fold k expected ≡ b
          → Matching b k ws rest vs (Tidy rest vs)
          → (Tidy rest vs → Tidy (put key us rest) us)
          → Tidy (put key us ((k, ws) ∷ rest)) us
      by_name true e h later = rw (key_is k h.0, e) (h.0, refl, ne, h.3)
      by_name false e h later = rw (other_key k e, e) (later h)

  absent-put :
      (other : Text) (us : List Text) (h : Headers)
      → equal_fold other expected ≡ false
      → is_present expected h ≡ false
      → is_present expected (put other us h) ≡ false
  unfolding put is_present
  absent-put other us [] e absent = ground (arith, e)
  absent-put other us ((k, ws) ∷ rest) e absent = elim (Bool-cases (text_eq k other)) [
    | inl same ↦ rw same absent
    | inr different ↦ rw different (ground (arith, absent-put other us rest e))
  ]

  put-other :
      (other : Text) (us : List Text) (h : Headers) (vs : List Text)
      → equal_fold other expected ≡ false
      → Tidy h vs
      → Tidy (put other us h) vs
  unfolding put
  put-other other us [] vs e t = rw e t
  put-other other us ((k, ws) ∷ rest) vs e t =
      by_name (equal_fold k expected) refl t (put-other other us rest vs e)
    where
      by_name :
          (b : Bool)
          → equal_fold k expected ≡ b
          → Matching b k ws rest vs (Tidy rest vs)
          → (Tidy rest vs → Tidy (put other us rest) vs)
          → Tidy (put other us ((k, ws) ∷ rest)) vs
      by_name true f h later = elim (Bool-cases (text_eq k other)) [
        | inl same ↦ absurd (
            true≢false (sym f ∙ ap (λ n. equal_fold n expected) ((text_eq_iff k other).0 same) ∙ e))
        | inr different ↦ rw (different, f) (h.0, h.1, h.2, absent-put other us rest e h.3)
      ]
      by_name false f h later = elim (Bool-cases (text_eq k other)) [
        | inl same ↦ rw (same, f) h
        | inr different ↦ rw (different, f) (later h)
      ]

  add-Tidy :
      (name v : Text) (h : Headers) (vs : List Text)
      → all_tokens name ≡ true
      → equal_fold name expected ≡ true
      → Tidy h vs
      → Tidy (add name v h) (vs ++ (v ∷ []))
  unfolding add
  add-Tidy name v h vs valid same t =
      subst (λ n. Tidy (onto n (lookup n h)) (vs ++ (v ∷ [])))
        (sym (equal_fold-words name expected valid same ∙ spelled))
        (found (lookup key h) refl (lookup-Tidy h vs t))
    where
      onto : Text → Option (List Text) → Headers
      onto n o = elim o [ none ↦ put n (v ∷ []) h | some us ↦ put n (us ++ (v ∷ [])) h ]

      found :
          (o : Option (List Text))
          → lookup key h ≡ o
          → Found h vs
          → Tidy (onto key o) (vs ++ (v ∷ []))
      found none e (inl (f, empty)) =
          subst (λ xs. Tidy (put key (v ∷ []) h) (xs ++ (v ∷ []))) (sym empty)
            (put-Tidy (v ∷ []) h vs (snoc-ne-nil [] v) t)
      found none e (inr f) = cc
      found (some us) e (inl f) = cc
      found (some us) e (inr f) =
          subst (λ xs. Tidy (put key (xs ++ (v ∷ [])) h) (vs ++ (v ∷ [])))
            (some-injective _ _ (sym f ∙ e)) (put-Tidy (vs ++ (v ∷ [])) h vs (snoc-ne-nil vs v) t)

  add-other :
      (name v : Text) (h : Headers) (vs : List Text)
      → all_tokens name ≡ true
      → equal_fold name expected ≡ false
      → Tidy h vs
      → Tidy (add name v h) vs
  unfolding add
  add-other name v h vs valid other t = by_values (lookup (canonical name) h)
    where
      by_values :
          (o : Option (List Text))
          → Tidy
              (elim o as (λ _. Headers) [
                | none ↦ put (canonical name) (v ∷ []) h
                | some us ↦ put (canonical name) (us ++ (v ∷ [])) h
              ])
              vs
      by_values none =
          put-other (canonical name) _ h vs (equal_fold-canonical name expected valid ∙ other) t
      by_values (some us) =
          put-other (canonical name) _ h vs (equal_fold-canonical name expected valid ∙ other) t

  pub add_all-Tidy :
      (name : Text) (us : List Text) (h : Headers) (vs : List Text)
      → all_tokens name ≡ true
      → equal_fold name expected ≡ true
      → Tidy h vs
      → Tidy (add_all name us h) (vs ++ us)
  unfolding add_all
  add_all-Tidy name [] h vs valid same t = rw (append-nil vs) t
  add_all-Tidy name (u ∷ us) h vs valid same t =
      subst (Tidy (add_all name us (add name u h))) (append_assoc vs (u ∷ []) us) (
        add_all-Tidy name us (add name u h) (vs ++ (u ∷ [])) valid same
          (add-Tidy name u h vs valid same t))

  pub add_all-other :
      (name : Text) (us : List Text) (h : Headers) (vs : List Text)
      → all_tokens name ≡ true
      → equal_fold name expected ≡ false
      → Tidy h vs
      → Tidy (add_all name us h) vs
  unfolding add_all
  add_all-other name [] h vs valid other t = t
  add_all-other name (u ∷ us) h vs valid other t =
      add_all-other name us (add name u h) vs valid other (add-other name u h vs valid other t)
