-- ===== src/Sso/Callback.antt =====
-- What a session that the callback creates rests on.
use kite_rail.Prelude.{
  Holds, ℕ, ◌+◌, ◌<◌, ◌≡◌, ◌⊎◌, inl, inr, refl, true, not, Option, none, some, [], filter, arith,
  Bool-cases,
}
use kite_rail.Prelude.Text.{Text, codes, text_eq, text_eq_iff}
use kite_rail.Prelude.Http.{query_get}
use kite_rail.Prelude.Std.{Std}
use kite_rail.Auth.{Role}
use kite_rail.Sso.{Config, Claims, denied, unavailable, failed, ok, identity_from, role_from}
use kite_rail.Sso.Table.{Attempt, is_open, find, consume_login_attempt}
use kite_rail.Sso.World.{World, Env, IdToken, consume}
use kite_rail.Sso.Service.{
  Request, Reply, failure, fail, with_token, with_attempt, after_consume, callback,
}
use kite_rail.Sso.Stages.{find-Holds, Settled, Ends, with_id_token-Ends}

-- What the identity provider has vouched for: the code of the request was exchanged with the
-- verifier of the attempt, the ID token was verified and answers the attempt's nonce, and its claims
-- give the identity and the role.
abbrev pub Vouched : Env → Std → Config → Request → Attempt → Text → Text → Role → Type 0
Vouched env std cfg r a subject identity role =
    (raw : Text) × (k m : ℕ) × (token : IdToken) × (claims : Claims) × (env.exchange k
        (query_get (codes "code") r.params) a.code_verifier
      ≡ some raw)
    × (env.verify m raw ≡ some token)
    × (token.nonce ≡ a.nonce)
    × (token.subject ≡ subject)
    × (token.claims ≡ some claims)
    × (identity_from std cfg claims ≡ ok identity)
    × (role_from std cfg claims ≡ some role)

-- The attempt was stored under the state of the request, had not expired, and is deleted.
abbrev pub Consumed : Env → Request → World → World → Attempt → Type 0
Consumed env r w w' a =
    Holds a w.attempts
    × (a.state ≡ query_get (codes "state") r.params)
    × (env.db_now w.calls < a.expires_at)
    × (w'.attempts
        ≡ filter (λ x. not (is_open (env.db_now w.calls) (query_get (codes "state") r.params) x))
            w.attempts)

pub is_open-parts :
    (now : ℕ) (state : Text) (a : Attempt)
    → is_open now state a ≡ true
    → (a.state ≡ state) × (now < a.expires_at)
unfolding is_open
is_open-parts now state a h = ground (arith, text_eq_iff a.state state)

module _ (env : Env) (std : Std) (cfg : Config) (sha256 : Text → Text) where
  with_token-Ends :
      (r : Request) (a : Attempt) (k : ℕ) (o : Option Text) (w : World)
      → env.exchange k (query_get (codes "code") r.params) a.code_verifier ≡ o
      → Ends env std cfg sha256 (Vouched env std cfg r a) a w (with_token env std cfg sha256 a o w)
  unfolding with_token fail
  with_token-Ends r a k none w e = (refl, inl (failed, refl, refl))
  with_token-Ends r a k (some raw) w e = elim (Bool-cases (text_eq raw [])) [
    | inl empty ↦ rw empty (refl, inl (failed, refl, refl))
    | inr given ↦ rw given (
        with_id_token-Ends env std cfg sha256 (Vouched env std cfg r a) a (env.verify w.calls raw)
          (record w { calls = w.calls + 1 })
          (λ token claims identity role verified nonce readable who what.
            (raw, k, w.calls, token, claims, e, verified, nonce, refl, readable, who, what)))
  ]

  Ends-map :
      {E F : Text → Text → Role → Type 0} (a : Attempt) (w : World) (x : Reply × World)
      → ((subject identity : Text) (role : Role)
          → E subject identity role
          → F subject identity role)
      → Ends env std cfg sha256 E a w x
      → Ends env std cfg sha256 F a w x
  Ends-map a w x f (kept, inl back) = (kept, inl back)
  Ends-map a w x f (kept, inr (subject, identity, role, n, e, stored, replied)) =
      (kept, inr (subject, identity, role, n, f subject identity role e, stored, replied))

  with_attempt-Ends :
      (r : Request) (a : Attempt) (w : World)
      → Ends env std cfg sha256
          (λ subject identity role.
            (query_get (codes "error") r.params ≡ [])
            × Vouched env std cfg r a subject identity role)
          a
          w
          (with_attempt env std cfg sha256 r a w)
  unfolding with_attempt fail
  with_attempt-Ends r a w = elim (Bool-cases (text_eq (query_get (codes "error") r.params) [])) [
    | inr reported ↦ rw reported (refl, inl (denied, refl, refl))
    | inl clean ↦ rw clean (elim (Bool-cases (env.discovered w.calls)) [
      | inr unknown ↦ rw unknown (refl, inl (unavailable, refl, refl))
      | inl known ↦ rw known (
          Ends-map a (record w { calls = w.calls + 1 + 1 })
            (with_token env std cfg sha256 a
              (env.exchange (w.calls + 1) (query_get (codes "code") r.params) a.code_verifier)
              (record w { calls = w.calls + 1 + 1 }))
            (λ subject identity role v. ((text_eq_iff _ _).0 clean, v))
            (with_token-Ends r a (w.calls + 1) _ (record w { calls = w.calls + 1 + 1 }) refl))
    ])
  ]

  -- The reply, and what has become of the world.
  abbrev pub Answered : Request → World → Reply × World → Type 0
  Answered r w (reply, w') =
      ((reply ≡ failure 400) × (w'.sessions ≡ w.sessions))
      ⊎ ((a : Attempt) × Consumed env r w w' a
          × Settled env std cfg sha256
              (λ subject identity role.
                (query_get (codes "error") r.params ≡ [])
                × Vouched env std cfg r a subject identity role)
              a w (reply, w'))

  -- A callback is answered 400 and leaves the sessions alone, or an attempt was stored under its state,
  -- had not expired, and is deleted as it is read. Then the browser is sent back to that attempt's
  -- address with a failure code and no cookie, and the sessions are left alone; or exactly one session
  -- is created, under the hash of a fresh token that only the cookie has. Its identity and role are
  -- what the provider has vouched for: it reports no error, the code of the request was exchanged with
  -- the verifier of the attempt, and the ID token was verified, answers the nonce of the attempt, and
  -- carries claims that give that identity and that role.
  pub callback-Answered : (r : Request) (w : World) → Answered r w (callback env std cfg sha256 r w)
  unfolding callback after_consume consume consume_login_attempt
  callback-Answered r w = elim (Bool-cases (env.store_fails w.calls)) [
    | inl fault ↦ rw fault (inl (refl, refl))
    | inr fine ↦ rw fine (opened (find (is_open (env.db_now w.calls) state) w.attempts) refl)
  ]
    where
      state : Text
      state = query_get (codes "state") r.params

      w1 : World
      w1 = record w {
        attempts = filter (λ x. not (is_open (env.db_now w.calls) state x)) w.attempts;
        calls = w.calls + 1;
      }

      opened :
          (o : Option Attempt)
          → find (is_open (env.db_now w.calls) state) w.attempts ≡ o
          → Answered r w (after_consume env std cfg sha256 r o w1)
      opened none e = inl (refl, refl)
      opened (some a) e =
          let (there, passes) = find-Holds (is_open (env.db_now w.calls) state) w.attempts a e in
          let (same, alive) = is_open-parts (env.db_now w.calls) state a passes in
          let (kept, settled) = with_attempt-Ends r a w1 in
          inr (a, (there, same, alive, kept), settled)

  -- Of the attempts, a callback only deletes what it reads.
  pub callback-attempts :
      (r : Request) (w : World)
      → (callback env std cfg sha256 r w).1.attempts
        ≡ (consume env (query_get (codes "state") r.params) w).1.attempts
  unfolding callback
  callback-attempts r w = go (consume env (query_get (codes "state") r.params) w).0 _
    where
      go :
          (o : Option Attempt) (w' : World)
          → (after_consume env std cfg sha256 r o w').1.attempts ≡ w'.attempts
      go none w' = refl
      go (some a) w' = (with_attempt-Ends r a w').0
