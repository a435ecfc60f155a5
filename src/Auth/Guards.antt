-- ===== src/Auth/Guards.antt =====
-- Which requests reach a handler behind the guards of the human routes.
use kite_rail.Prelude.{
  ℕ, ◌≡◌, ◌⊎◌, inl, inr, refl, sym, ◌∙◌, Bool, true, ◌||◌, Option, none, some, List, [], ◌∷◌, ◌++◌,
  any, Bool-cases,
}
use kite_rail.Prelude.Text.{
  Text, codes, text_eq, text_eq_iff, has_prefix, trim_prefix, trim_prefix-split,
}
use kite_rail.Prelude.Headers
use kite_rail.Auth.{
  Role, agent, reviewer, admin, other_role, role_eq, Identity, Request, scan_identities,
  lookup_identity, bearer_prefix, with_identity, authenticate, middleware, require_role,
  reviewer_or_admin, safe_method, csrf_safe, admit_session, human_middleware,
}

-- The token is configured for the identity.
abbrev pub Configured : Text → Identity → List (Text × Identity) → Type 0
Configured token identity [] = ⊥
Configured token identity ((t, i) ∷ rest) =
    ((t ≡ token) × (i ≡ identity)) ⊎ Configured token identity rest

pub scan_identities-Configured :
    (token : Text) (found : Option Identity) (ids : List (Text × Identity)) (i : Identity)
    → scan_identities token found ids ≡ some i
    → (found ≡ some i) ⊎ Configured token i ids
unfolding scan_identities
scan_identities-Configured token found [] i h = inl h
scan_identities-Configured token found ((t, j) ∷ rest) i h = elim (Bool-cases (text_eq t token)) [
  | inl same ↦ elim (scan_identities-Configured token (some j) rest i (rw same at h)) [
    | inl here ↦ inr (inl ((text_eq_iff t token).0 same, cc))
    | inr there ↦ inr (inr there)
  ]
  | inr other ↦ elim (scan_identities-Configured token found rest i (rw other at h)) [
    | inl before ↦ inl before
    | inr there ↦ inr (inr there)
  ]
]

-- The header carries a bearer token of the identity.
abbrev pub Bearer : List (Text × Identity) → Text → Identity → Type 0
Bearer ids header i = (token : Text) × (header ≡ bearer_prefix ++ token) × Configured token i ids

-- The session is that of the identity, and a request that may change state is not a forged one.
abbrev pub InSession :
    Option (Request → Option Identity) → (Text → Bool) → Request → Identity → Type 0
InSession none origin_allowed r i = ⊥
InSession (some sessions) origin_allowed r i =
    (sessions r ≡ some i) × ((safe_method r.method || csrf_safe origin_allowed r.headers) ≡ true)

module _ {R : Type 0} (reject : ℕ → R) (next : Request → R) where
  -- A guard refuses, or hands the request on with a vouched-for identity.
  abbrev pub Guarded : (Identity → Type 0) → Request → R → Type 0
  Guarded Vouched r answer =
      ((answer ≡ reject 401) ⊎ (answer ≡ reject 403))
      ⊎ ((i : Identity) × (answer ≡ next (with_identity i r)) × Vouched i)

  authenticate-Guarded :
      (ids : List (Text × Identity)) (header : Text) (r : Request)
      → Guarded (Bearer ids header) r (authenticate reject next ids header r)
  unfolding authenticate lookup_identity
  authenticate-Guarded ids header r = elim (Bool-cases (has_prefix header bearer_prefix)) [
    | inr plain ↦ rw plain (inl (inl refl))
    | inl bearer ↦ rw bearer (known bearer _ refl)
  ]
    where
      known :
          has_prefix header bearer_prefix ≡ true
          → (o : Option Identity) → scan_identities (trim_prefix bearer_prefix header) none ids ≡ o
          → Guarded
              (Bearer ids header)
              r
              (elim o as (λ _. R) [ none ↦ reject 403 | some i ↦ next (with_identity i r) ])
      known bearer none e = inl (inr refl)
      known bearer (some i) e = inr (
        i,
        refl,
        (
          trim_prefix bearer_prefix header,
          sym (trim_prefix-split bearer_prefix header bearer),
          elim (scan_identities-Configured _ none ids i e) [ inl p ↦ cc | inr there ↦ there ],
        ),
      )

  admit_session-Guarded :
      (sessions : Request → Option Identity) (origin_allowed : Text → Bool) (o : Option Identity)
      (r : Request)
      → sessions r ≡ o
      → Guarded
          (InSession (some sessions) origin_allowed r)
          r
          (admit_session reject next origin_allowed o r)
  unfolding admit_session
  admit_session-Guarded sessions origin_allowed none r e = inl (inl refl)
  admit_session-Guarded sessions origin_allowed (some i) r e =
      elim (Bool-cases (safe_method r.method || csrf_safe origin_allowed r.headers)) [
        | inl safe ↦ rw safe (inr (i, refl, (e, refl)))
        | inr forged ↦ rw forged (inl (inr refl))
      ]

  weaken :
      {V W : Identity → Type 0} {answer : R} (r : Request)
      → ((i : Identity) → V i → W i)
      → Guarded V r answer
      → Guarded W r answer
  weaken r f (inl refused) = inl refused
  weaken r f (inr (i, handed, vouched)) = inr (i, handed, f i vouched)

  human_middleware-Guarded :
      (ids : List (Text × Identity)) (sessions : Option (Request → Option Identity))
      (origin_allowed : Text → Bool) (r : Request)
      → Guarded
          (λ i.
            Bearer ids (Headers.get (codes "Authorization") r.headers) i
            ⊎ InSession sessions origin_allowed r i)
          r
          (human_middleware reject next ids sessions origin_allowed r)
  unfolding human_middleware middleware
  human_middleware-Guarded ids none origin_allowed r =
      weaken r (λ i. inl)
        (authenticate-Guarded ids (Headers.get (codes "Authorization") r.headers) r)
  human_middleware-Guarded ids (some sessions) origin_allowed r =
      elim (Bool-cases (text_eq (Headers.get (codes "Authorization") r.headers) [])) [
        | inl absent ↦ rw absent (
            weaken r (λ i. inr) (admit_session-Guarded sessions origin_allowed (sessions r) r refl))
        | inr present ↦ rw present (
            weaken r (λ i. inl)
              (authenticate-Guarded ids (Headers.get (codes "Authorization") r.headers) r))
      ]

has_role :
    (i : Identity)
    → any (role_eq i.role) (reviewer ∷ admin ∷ []) ≡ true
    → (i.role ≡ reviewer) ⊎ (i.role ≡ admin)
unfolding role_eq
has_role i h = go i.role h
  where
    go : (ρ : Role) → any (role_eq ρ) (reviewer ∷ admin ∷ []) ≡ true → (ρ ≡ reviewer) ⊎ (ρ ≡ admin)
    go agent h = cc
    go reviewer h = inl refl
    go admin h = inr refl
    go (other_role s) h = cc

module _ {R : Type 0} (reject : ℕ → R) (next : Request → R) where
  reviewer_or_admin-roles :
      (i : Identity) (r : Request)
      → (reviewer_or_admin reject next (with_identity i r) ≡ reject 403)
        ⊎ ((reviewer_or_admin reject next (with_identity i r) ≡ next (with_identity i r))
            × ((i.role ≡ reviewer) ⊎ (i.role ≡ admin)))
  unfolding reviewer_or_admin require_role with_identity
  reviewer_or_admin-roles i r = elim (Bool-cases (any (role_eq i.role) (reviewer ∷ admin ∷ []))) [
    | inl has ↦ inr ((rw has refl), has_role i has)
    | inr lacks ↦ inl (rw lacks refl)
  ]

  -- On a human route, which is `HumanMiddleware` around `ReviewerOrAdmin`, a request is answered 401
  -- or 403, or it reaches the handler with the identity of a reviewer or an admin. That identity is
  -- the one that is configured for the bearer token of the Authorization header, or the one of the
  -- session, where a request with any method but GET, HEAD and OPTIONS has passed the CSRF check.
  pub human_route-Guarded :
      (ids : List (Text × Identity)) (sessions : Option (Request → Option Identity))
      (origin_allowed : Text → Bool) (r : Request)
      → Guarded reject next
          (λ i.
            ((i.role ≡ reviewer) ⊎ (i.role ≡ admin))
            × (Bearer ids (Headers.get (codes "Authorization") r.headers) i
                ⊎ InSession sessions origin_allowed r i))
          r
          (human_middleware reject (reviewer_or_admin reject next) ids sessions origin_allowed r)
  human_route-Guarded ids sessions origin_allowed r =
      elim (human_middleware-Guarded reject (reviewer_or_admin reject next) ids sessions
        origin_allowed r) [
          | inl refused ↦ inl refused
          | inr admitted ↦
              let (i, handed, vouched) = admitted in
              elim (reviewer_or_admin-roles i r) [
                | inl outsider ↦ inl (inr (handed ∙ outsider))
                | inr insider ↦ inr (i, handed ∙ insider.0, (insider.1, vouched))
              ]
        ]
