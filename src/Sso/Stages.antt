-- ===== src/Sso/Stages.antt =====
-- What the stages of the callback, from the ID token to the session, leave behind.
use kite_rail.Prelude.{
  Holds, ℕ, ◌+◌, ◌/◌, ◌≡◌, ◌⊎◌, inl, inr, refl, ◌∙◌, sym, ap, Bool, true, false, Option, none, some,
  List, [], ◌∷◌, any, Bool-cases, if◌then◌else◌,
}
use kite_rail.Prelude.Text.{Text, codes, text_eq, text_eq_iff}
use kite_rail.Prelude.Std.{Std}
use kite_rail.Auth.{Role}
use kite_rail.Sso.{
  Config, Claims, Failure, failed, no_role, session_failed, failure_code, Outcome, ok, refused,
  identity_from, role_from, cookie, role_text, hash_token,
}
use kite_rail.Sso.Table.{Attempt, NewSession, inserted, create_session, find}
use kite_rail.Sso.World.{World, Env, IdToken, store_session}
use kite_rail.Sso.Service.{
  Reply, second, redirected, fail, with_role, with_identity, with_claims, with_id_token,
}

pub find-Holds :
    {A : Type 0} (p : A → Bool) (xs : List A) (a : A)
    → find p xs ≡ some a
    → Holds a xs × (p a ≡ true)
find-Holds p [] a h = cc
find-Holds {A} p (x ∷ xs) a h = go (p x) refl h (find-Holds p xs a)
  where
    go :
        (b : Bool)
        → p x ≡ b
        → (if b then some x else find p xs) ≡ some a
        → (find p xs ≡ some a → Holds a xs × (p a ≡ true))
        → Holds a (x ∷ xs) × (p a ≡ true)
    go true e found later = let same : x ≡ a = cc in (inl same, ap p (sym same) ∙ e)
    go false e found later = let (there, passes) = later found in (inr there, passes)

module _ (env : Env) (std : Std) (cfg : Config) (sha256 : Text → Text) where
  -- The session that is stored for a token, at the time of a call and the next one.
  abbrev pub new_session : ℕ → Text → Text → Role → NewSession
  new_session n subject identity role = record {
    id_hash = hash_token sha256 (env.random n);
    subject = subject;
    email = identity;
    role = role_text role;
    expires_at = env.now (n + 1) + cfg.session_ttl;
  }

  -- Sent back with a failure code and no session, or a session on evidence for its subject, identity
  -- and role, with its token, drawn at a call, in the cookie.
  abbrev pub Settled : (Text → Text → Role → Type 0) → Attempt → World → Reply × World → Type 0
  Settled Evidence a w (reply, w') =
      ((code : Failure) × (w'.sessions ≡ w.sessions)
        × (reply
            ≡ redirected (std.set_query a.return_to (codes "sso_error") (failure_code code)) none))
      ⊎ ((subject identity : Text) × (role : Role) × (n : ℕ) × Evidence subject identity role
          × (w'.sessions
              ≡ inserted (env.db_now (n + 1 + 1)) (new_session n subject identity role)
                ∷ w.sessions)
          × (reply
              ≡ redirected a.return_to
                  (some (cookie std cfg (env.random n) (some (cfg.session_ttl / second))))))

  -- The attempts are left alone.
  abbrev pub Ends : (Text → Text → Role → Type 0) → Attempt → World → Reply × World → Type 0
  Ends Evidence a w (reply, w') = (w'.attempts ≡ w.attempts) × Settled Evidence a w (reply, w')

  store_session-cases :
      (s : NewSession) (w : World)
      → (store_session env s w ≡ (false, record w { calls = w.calls + 1 }))
        ⊎ (store_session env s w ≡ (
          true,
          record w { sessions = inserted (env.db_now w.calls) s ∷ w.sessions; calls = w.calls + 1 },
        ))
  unfolding store_session create_session
  store_session-cases s w = elim (Bool-cases (env.store_fails w.calls)) [
    | inl fault ↦ inl (rw fault refl)
    | inr fine ↦ elim (Bool-cases (any (λ r. text_eq r.id_hash s.id_hash) w.sessions)) [
      | inl taken ↦ inl (rw (fine, taken) refl)
      | inr free ↦ inr (rw (fine, free) refl)
    ]
  ]

  module _ (Evidence : Text → Text → Role → Type 0) (a : Attempt) where
    with_role-Ends :
        (subject identity : Text) (o : Option Role) (w : World)
        → ((role : Role) → o ≡ some role → Evidence subject identity role)
        → Ends Evidence a w (with_role env std cfg sha256 a subject identity o w)
    unfolding with_role fail
    with_role-Ends subject identity none w ev = (refl, inl (no_role, refl, refl))
    with_role-Ends subject identity (some role) w ev =
        let s = new_session w.calls subject identity role in
        elim (store_session-cases s (record w { calls = w.calls + 1 + 1 })) [
          | inl fault ↦ rw fault (refl, inl (session_failed, refl, refl))
          | inr stored ↦
              rw stored (refl, inr (subject, identity, role, w.calls, ev role refl, refl, refl))
        ]

    with_identity-Ends :
        (subject : Text) (claims : Claims) (o : Outcome Text) (w : World)
        → ((identity : Text) (role : Role)
            → o ≡ ok identity
            → role_from std cfg claims ≡ some role
            → Evidence subject identity role)
        → Ends Evidence a w (with_identity env std cfg sha256 a subject claims o w)
    unfolding with_identity fail
    with_identity-Ends subject claims (refused code) w ev = (refl, inl (code, refl, refl))
    with_identity-Ends subject claims (ok identity) w ev =
        with_role-Ends subject identity (role_from std cfg claims) w
          (λ role e. ev identity role refl e)

    with_claims-Ends :
        (subject : Text) (o : Option Claims) (w : World)
        → ((claims : Claims) (identity : Text) (role : Role)
            → o ≡ some claims
            → identity_from std cfg claims ≡ ok identity
            → role_from std cfg claims ≡ some role
            → Evidence subject identity role)
        → Ends Evidence a w (with_claims env std cfg sha256 a subject o w)
    unfolding with_claims fail
    with_claims-Ends subject none w ev = (refl, inl (failed, refl, refl))
    with_claims-Ends subject (some claims) w ev =
        with_identity-Ends subject claims (identity_from std cfg claims) w
          (λ identity role. ev claims identity role refl)

    pub with_id_token-Ends :
        (o : Option IdToken) (w : World)
        → ((token : IdToken) (claims : Claims) (identity : Text) (role : Role)
            → o ≡ some token
            → token.nonce ≡ a.nonce
            → token.claims ≡ some claims
            → identity_from std cfg claims ≡ ok identity
            → role_from std cfg claims ≡ some role
            → Evidence token.subject identity role)
        → Ends Evidence a w (with_id_token env std cfg sha256 a o w)
    unfolding with_id_token fail
    with_id_token-Ends none w ev = (refl, inl (failed, refl, refl))
    with_id_token-Ends (some token) w ev = elim (Bool-cases (text_eq token.nonce a.nonce)) [
      | inr differs ↦ rw differs (refl, inl (failed, refl, refl))
      | inl agrees ↦ rw agrees (
          with_claims-Ends token.subject token.claims w (λ claims identity role.
            ev token claims identity role refl ((text_eq_iff _ _).0 agrees)))
    ]
