-- ===== src/Auth/Accepts.antt =====
-- A configured bearer token is accepted.
use kite_rail.Prelude.{
  ℕ, ◌≡◌, inl, inr, refl, sym, ap, subst, Option, none, some, List, [], ◌∷◌, ◌++◌, Bool-cases,
}
use kite_rail.Prelude.Text.{
  Text, codes, text_eq, text_eq_iff, has_prefix-append, trim_prefix-append,
}
use kite_rail.Prelude.Headers
use kite_rail.Auth.{
  Identity, Request, scan_identities, lookup_identity, bearer_prefix, with_identity, authenticate,
  middleware,
}
use kite_rail.Auth.Guards.{Configured, scan_identities-Configured}

module _ {R : Type 0} (reject : ℕ → R) (next : Request → R) where
  lookup-none :
      (token : Text) (found : Option Identity) (ids : List (Text × Identity)) (i : Identity)
      → scan_identities token found ids ≡ none
      → (found ≡ none) × ¬ Configured token i ids
  unfolding scan_identities
  lookup-none token found [] i h = (h, λ c. c)
  lookup-none token found ((t, j) ∷ rest) i h = elim (Bool-cases (text_eq t token)) [
    | inl same ↦ absurd (cc (lookup-none token (some j) rest i (rw same at h)).0)
    | inr other ↦
        let (before, absent) = lookup-none token found rest i (rw other at h) in
        (
          before,
          λ c. elim c [ inl here ↦ cc ((text_eq_iff t token).1 here.0) | inr there ↦ absent there ],
        )
  ]

  -- A request whose Authorization header is `Bearer` and a token that is configured for one identity
  -- only reaches the handler behind `Middleware`, with that identity.
  pub middleware-accepts :
      (ids : List (Text × Identity)) (r : Request) (token : Text) (i : Identity)
      → Headers.get (codes "Authorization") r.headers ≡ bearer_prefix ++ token
      → Configured token i ids
      → ((j : Identity) → Configured token j ids → j ≡ i)
      → middleware reject next ids r ≡ next (with_identity i r)
  unfolding middleware authenticate lookup_identity
  middleware-accepts ids r token i header configured unique =
      subst (λ h. authenticate reject next ids h r ≡ next (with_identity i r)) (sym header)
        (rw (has_prefix-append bearer_prefix token) (
          subst (λ s. answer (lookup_identity ids s) ≡ next (with_identity i r))
            (sym (trim_prefix-append bearer_prefix token)) (found _ refl)))
    where
      answer : Option Identity → R
      answer o = elim o [ none ↦ reject 403 | some j ↦ next (with_identity j r) ]

      found :
          (o : Option Identity)
          → scan_identities token none ids ≡ o
          → answer o ≡ next (with_identity i r)
      found none e = absurd ((lookup-none token none ids i e).1 configured)
      found (some j) e = elim (scan_identities-Configured token none ids j e) [
        | inl p ↦ cc
        | inr there ↦ ap (λ k. next (with_identity k r)) (unique j there)
      ]
