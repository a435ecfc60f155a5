-- ===== src/Sso/Attempts.antt =====
-- What holds of the login attempts however the service is used.
use kite_rail.Prelude.{
  ℕ, ◌+◌, ◌≡◌, inl, inr, refl, sym, subst, Bool, ◌||◌, Option, none, some, List, [], ◌∷◌, filter,
  ltb, Bool-cases,
}
use kite_rail.Prelude.Text.{Text, codes, text_eq}
use kite_rail.Prelude.Headers
use kite_rail.Prelude.Std.{Std}
use kite_rail.Auth.{reviewer, admin, role_eq}
use kite_rail.Sso.{Config, valid_return_to, role_of}
use kite_rail.Sso.Table.{
  Attempt, Session, create_login_attempt, consume_login_attempt, delete_expired_login_attempts,
  touch_session,
}
use kite_rail.Sso.World.{
  World, Env, or_old, store_attempt, consume, active, on_sessions, purge_attempts,
}
use kite_rail.Sso.Service.{
  Request, login_to, login, logout, touch, admit, session_token, authenticate_session, purge, Event,
  login_request, callback_request, logout_request, session_check, purge_tick, handle, run,
  touch_interval,
}
use kite_rail.Sso.Callback.{callback-attempts}

module _ (env : Env) (std : Std) (cfg : Config) (sha256 : Text → Text) where
  on_sessions-attempts :
      (f : ℕ → List Session → List Session) (w : World)
      → (on_sessions env f w).1.attempts ≡ w.attempts
  unfolding on_sessions
  on_sessions-attempts f w = elim (Bool-cases (env.store_fails w.calls)) [
    | inl fault ↦ rw fault refl
    | inr fine ↦ rw fine refl
  ]

  touch-attempts :
      (now : ℕ) (hash : Text) (s : Session) (w : World)
      → (touch env std cfg sha256 now hash s w).1.attempts ≡ w.attempts
  unfolding touch
  touch-attempts now hash s w = elim (Bool-cases (ltb (s.last_seen_at + touch_interval) now)) [
    | inl old ↦ rw old (on_sessions-attempts (λ t. touch_session t hash) w)
    | inr recent ↦ rw recent refl
  ]

  admit-attempts :
      (now : ℕ) (hash : Text) (o : Option Session) (w : World)
      → (admit env std cfg sha256 now hash o w).1.attempts ≡ w.attempts
  unfolding admit
  admit-attempts now hash none w = refl
  admit-attempts now hash (some s) w =
      elim (Bool-cases (role_eq (role_of s.role) reviewer || role_eq (role_of s.role) admin)) [
        | inl human ↦ rw human (touch-attempts now hash s w)
        | inr other ↦ rw other refl
      ]

  authenticate-attempts :
      (r : Request) (w : World)
      → (authenticate_session env std cfg sha256 r w).1.attempts ≡ w.attempts
  unfolding authenticate_session active
  authenticate-attempts r w = elim (Bool-cases (text_eq (session_token env std cfg sha256 r) [])) [
    | inl absent ↦ rw absent refl
    | inr given ↦ rw given (admit-attempts _ _ _ _)
  ]

  logout-attempts :
      (r : Request) (w : World) → (logout env std cfg sha256 r w).1.attempts ≡ w.attempts
  unfolding logout
  logout-attempts r w =
      elim (Bool-cases
        (text_eq (Headers.get (codes "X-Requested-With") r.headers) (codes "elodea"))) [
          | inr forged ↦ rw forged refl
          | inl sent ↦
              rw sent (elim (Bool-cases (text_eq (session_token env std cfg sha256 r) [])) [
                | inl absent ↦ rw absent refl
                | inr given ↦ rw given (on_sessions-attempts _ w)
              ])
        ]

  -- A property of the table that deletions keep, and insertions of what a login stores.
  module _ (P : List Attempt → Type 0)
      (on_filter : (p : Attempt → Bool) (rows : List Attempt) → P rows → P (filter p rows))
      (on_create : (a : Attempt) (rows : List Attempt) (n : ℕ) (raw : Text)
        → a.state ≡ env.random n
        → valid_return_to std cfg raw ≡ some a.return_to
        → P rows
        → P (or_old (create_login_attempt a rows) rows)) where
    login_to-keeps :
        (raw : Text) (o : Option Text) (w : World)
        → valid_return_to std cfg raw ≡ o
        → P w.attempts
        → P (login_to env std cfg sha256 o w).1.attempts
    unfolding login_to store_attempt
    login_to-keeps raw none w e h = h
    login_to-keeps raw (some return_to) w e h =
        elim (Bool-cases (env.store_fails (w.calls + 1 + 1 + 1 + 1))) [
          | inl fault ↦ rw fault h
          | inr fine ↦ rw fine (on_create _ w.attempts w.calls raw refl e h)
        ]

    login-keeps :
        (r : Request) (w : World) → P w.attempts → P (login env std cfg sha256 r w).1.attempts
    unfolding login
    login-keeps r w h = elim (Bool-cases (env.discovered w.calls)) [
      | inr unknown ↦ rw unknown h
      | inl known ↦ rw known (login_to-keeps _ _ (record w { calls = w.calls + 1 }) refl h)
    ]

    consume-keeps : (state : Text) (w : World) → P w.attempts → P (consume env state w).1.attempts
    unfolding consume consume_login_attempt
    consume-keeps state w h = elim (Bool-cases (env.store_fails w.calls)) [
      | inl fault ↦ rw fault h
      | inr fine ↦ rw fine (on_filter _ w.attempts h)
    ]

    purge-keeps : (w : World) → P w.attempts → P (purge env std cfg sha256 w).1.attempts
    unfolding purge purge_attempts delete_expired_login_attempts
    purge-keeps w h = elim (Bool-cases (env.store_fails w.calls)) [
      | inl fault ↦ rw fault (subst P (sym (on_sessions-attempts _ _)) h)
      | inr fine ↦ rw fine (subst P (sym (on_sessions-attempts _ _)) (on_filter _ w.attempts h))
    ]

    pub handle-keeps :
        (e : Event) (w : World) → P w.attempts → P (handle env std cfg sha256 e w).1.attempts
    unfolding handle
    handle-keeps (login_request r) w h = login-keeps r w h
    handle-keeps (callback_request r) w h =
        subst P (sym (callback-attempts env std cfg sha256 r w)) (consume-keeps _ w h)
    handle-keeps (logout_request r) w h = subst P (sym (logout-attempts r w)) h
    handle-keeps (session_check r) w h = subst P (sym (authenticate-attempts r w)) h
    handle-keeps purge_tick w h = purge-keeps w h

    pub run-keeps :
        (es : List Event) (w : World) → P w.attempts → P (run env std cfg sha256 es w).1.attempts
    unfolding run
    run-keeps [] w h = h
    run-keeps (e ∷ es) w h = run-keeps es _ (handle-keeps e w h)
