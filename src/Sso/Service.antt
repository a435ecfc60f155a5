-- ===== src/Sso/Service.antt =====
-- The handlers of sign-in, the callback of the identity provider, sign-out, the check of a session,
-- and the hourly deletion of expired rows, in backend/internal/sso/sso.go.
use kite_rail.Prelude.{
  ℕ, ◌+◌, ◌/◌, not, ◌||◌, Option, none, some, List, [], ◌∷◌, ltb, if◌then◌else◌,
}
use kite_rail.Prelude.Text.{Text, codes, text_eq}
use kite_rail.Prelude.Http.{query_get}
use kite_rail.Prelude.Headers.{Headers}
use kite_rail.Prelude.Headers
use kite_rail.Prelude.Std.{Std}
use kite_rail.Auth.{Role, reviewer, admin, role_eq, Identity}
use kite_rail.Sso.{
  Config, Claims, Failure, denied, unavailable, failed, no_role, session_failed, failure_code,
  Outcome, ok, refused, identity_from, role_from, valid_return_to, cookie_name, Cookie, cookie,
  role_text, role_of, hash_token,
}
use kite_rail.Sso.Table.{Attempt, Session, touch_session, revoke_session, delete_expired_sessions}
use kite_rail.Sso.World.{
  Env, IdToken, M, pure, ◌>>=◌, ◌>>◌, ask, store_attempt, consume, store_session, active,
  on_sessions, purge_attempts,
}

-- What the handlers read of a request: the query, the headers and the cookies.
pub record Request : Type 0 where
  pub params : List (Text × Text)
  pub headers : Headers
  pub cookies : List (Text × Text)

pub data Reply : Type 0 where
  failure : ℕ → Reply
  -- To the provider, with the state, the nonce, and the verifier behind the challenge.
  to_provider : Text → Text → Text → Reply
  redirected : Text → Option Cookie → Reply
  signed_out : Cookie → Reply

-- A `time.Second`, in nanoseconds.
abbrev pub second : ℕ
second = 1000000000

-- `loginAttemptTTL` and `touchInterval`
abbrev pub login_attempt_ttl : ℕ
login_attempt_ttl = 600000000000

abbrev pub touch_interval : ℕ
touch_interval = 60000000000

module _ (env : Env) (std : Std) (cfg : Config) (sha256 : Text → Text) where
  unfoldable pub login_to : Option Text → M Reply
  login_to none = pure (failure 400)
  login_to (some return_to) = do
    state ← ask env.random
    nonce ← ask env.random
    verifier ← ask env.random
    now ← ask env.now
    stored ← store_attempt env (record {
      state = state;
      nonce = nonce;
      code_verifier = verifier;
      return_to = return_to;
      expires_at = now + login_attempt_ttl;
    })
    pure (if stored then to_provider state nonce verifier else failure 503)

  unfoldable pub login : Request → M Reply
  unfolding login_to
  login r = do
    ready ← ask env.discovered
    if ready
        then login_to (valid_return_to std cfg (query_get (codes "return_to") r.params))
        else pure (failure 503)

  -- `fail`
  unfoldable pub fail : Attempt → Failure → M Reply
  fail a code =
      pure (redirected (std.set_query a.return_to (codes "sso_error") (failure_code code)) none)

  unfoldable pub with_role : Attempt → Text → Text → Option Role → M Reply
  unfolding fail
  with_role a subject identity none = fail a no_role
  with_role a subject identity (some role) = do
    token ← ask env.random
    now ← ask env.now
    stored ← store_session env (record {
      id_hash = hash_token sha256 token;
      subject = subject;
      email = identity;
      role = role_text role;
      expires_at = now + cfg.session_ttl;
    })
    if stored
        then pure
            (redirected a.return_to (some (cookie std cfg token (some (cfg.session_ttl / second)))))
        else fail a session_failed

  unfoldable pub with_identity : Attempt → Text → Claims → Outcome Text → M Reply
  unfolding fail with_role
  with_identity a subject claims (refused code) = fail a code
  with_identity a subject claims (ok identity) =
      with_role a subject identity (role_from std cfg claims)

  unfoldable pub with_claims : Attempt → Text → Option Claims → M Reply
  unfolding fail with_identity
  with_claims a subject none = fail a failed
  with_claims a subject (some claims) =
      with_identity a subject claims (identity_from std cfg claims)

  unfoldable pub with_id_token : Attempt → Option IdToken → M Reply
  unfolding fail with_claims
  with_id_token a none = fail a failed
  with_id_token a (some token) =
      if text_eq token.nonce a.nonce
      then with_claims a token.subject token.claims
      else fail a failed

  unfoldable pub with_token : Attempt → Option Text → M Reply
  unfolding fail with_id_token
  with_token a none = fail a failed
  with_token a (some raw) =
      if text_eq raw []
      then fail a failed
      else do token ← ask (λ n. env.verify n raw); with_id_token a token

  unfoldable pub with_attempt : Request → Attempt → M Reply
  unfolding fail with_token
  with_attempt r a =
      if not (text_eq (query_get (codes "error") r.params) []) then fail a denied else do
        ready ← ask env.discovered
        if ready
            then ask (λ n. env.exchange n (query_get (codes "code") r.params) a.code_verifier)
              >>= with_token a
            else fail a unavailable

  unfoldable pub after_consume : Request → Option Attempt → M Reply
  unfolding with_attempt
  after_consume r none = pure (failure 400)
  after_consume r (some a) = with_attempt r a

  unfoldable pub callback : Request → M Reply
  unfolding after_consume
  callback r = consume env (query_get (codes "state") r.params) >>= after_consume r

  -- The value of the session cookie, empty if there is none.
  unfoldable pub session_token : Request → Text
  session_token r = query_get (cookie_name std cfg) r.cookies

  unfoldable pub logout : Request → M Reply
  unfolding session_token
  logout r =
      let token = session_token r in
      let done = signed_out (cookie std cfg [] none) in
      if not (text_eq (Headers.get (codes "X-Requested-With") r.headers) (codes "elodea"))
      then pure (failure 403)
      else if text_eq token []
      then pure done
      else do
        revoked ← on_sessions env (λ now. revoke_session now (hash_token sha256 token))
        pure (if revoked then done else failure 503)

  -- The identity of a session that was found, whose activity is refreshed once a minute.
  unfoldable pub touch : ℕ → Text → Session → M (Unit {0})
  touch now hash s =
      if ltb (s.last_seen_at + touch_interval) now
      then on_sessions env (λ t. touch_session t hash) >>= (λ _. pure tt)
      else pure tt

  unfoldable pub admit : ℕ → Text → Option Session → M (Option Identity)
  unfolding touch
  admit now hash none = pure none
  admit now hash (some s) =
      let role = role_of s.role in
      if role_eq role reviewer || role_eq role admin
      then touch now hash s >> pure (some (record { id = s.email; role = role }))
      else pure none

  -- `AuthenticateSession`
  unfoldable pub authenticate_session : Request → M (Option Identity)
  unfolding session_token admit
  authenticate_session r =
      let token = session_token r in
      if text_eq token [] then pure none else do
        now ← ask env.now
        found ← active env now cfg.session_idle_ttl (hash_token sha256 token)
        admit now (hash_token sha256 token) found

  -- One tick of the hourly loop of `Run`.
  unfoldable pub purge : M (Unit {0})
  purge = do
    attempts ← purge_attempts env
    sessions ← on_sessions env delete_expired_sessions
    pure tt

-- What reaches the service: the requests that `Routes` tells apart, the checks of sessions, and the
-- ticks of the hourly loop.
pub data Event : Type 0 where
  login_request callback_request logout_request session_check : Request → Event
  purge_tick : Event

pub data Answer : Type 0 where
  replied : Reply → Answer
  known_as : Option Identity → Answer
  purged : Answer

module _ (env : Env) (std : Std) (cfg : Config) (sha256 : Text → Text) where
  unfoldable pub handle : Event → M Answer
  handle (login_request r) = login env std cfg sha256 r >>= (λ a. pure (replied a))
  handle (callback_request r) = callback env std cfg sha256 r >>= (λ a. pure (replied a))
  handle (logout_request r) = logout env std cfg sha256 r >>= (λ a. pure (replied a))
  handle (session_check r) = authenticate_session env std cfg sha256 r >>= (λ i. pure (known_as i))
  handle purge_tick = purge env std cfg sha256 >>= (λ _. pure purged)

  unfoldable pub run : List Event → M (List Answer)
  unfolding handle
  run [] = pure []
  run (e ∷ es) = do answer ← handle e; answers ← run es; pure (answer ∷ answers)
