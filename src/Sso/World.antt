-- ===== src/Sso/World.antt =====
-- What the sign-in service acts on: its two tables. The environment answers each call by its number:
-- the clocks, the random source, the faults of the database, and the identity provider.
use kite_rail.Prelude.{ℕ, ◌+◌, Bool, true, false, Option, none, some, List, if◌then◌else◌}
use kite_rail.Prelude.Text.{Text}
use kite_rail.Sso.{Claims}
use kite_rail.Sso.Table.{
  Attempt, Session, NewSession, create_login_attempt, consume_login_attempt,
  delete_expired_login_attempts, create_session, get_active_session,
}

pub record World : Type 0 where
  pub attempts : List Attempt
  pub sessions : List Session
  pub calls : ℕ

-- A verified ID token; its claims may be unreadable.
pub record IdToken : Type 0 where
  pub subject : Text
  pub nonce : Text
  pub claims : Option Claims

pub record Env : Type 0 where
  pub store_fails : ℕ → Bool
  -- The clocks of the process and of the database.
  pub now : ℕ → ℕ
  pub db_now : ℕ → ℕ
  pub random : ℕ → Text
  -- Whether the provider has been discovered.
  pub discovered : ℕ → Bool
  -- `Exchange` of a code with a verifier: an error, or the token response's `id_token`, empty if it
  -- has none.
  pub exchange : ℕ → Text → Text → Option Text
  -- `Verify`: the signature, the issuer, the audience and the expiry of a raw token.
  pub verify : ℕ → Text → Option IdToken

abbrev pub M : Type 0 → Type 0
M A = World → A × World

abbrev pub pure : {A : Type 0} → A → M A
pure a w = (a, w)

infixl 5 ◌>>=◌ ◌>>◌
abbrev pub ◌>>=◌ : {A B : Type 0} → M A → (A → M B) → M B
◌>>=◌ m f w = let (a, w') = m w in f a w'

abbrev pub ◌>>◌ : {B : Type 0} → M (Unit {0}) → M B → M B
m >> k = m >>= λ _. k

-- A call whose answer the environment knows by its number.
abbrev pub ask : {A : Type 0} → (ℕ → A) → M A
ask f w = (f w.calls, record w { calls = w.calls + 1 })

abbrev pub or_old : {A : Type 0} → Option A → A → A
or_old none a = a
or_old (some a) _ = a

abbrev pub is_some : {A : Type 0} → Option A → Bool
is_some none = false
is_some (some a) = true

module _ (env : Env) where
  -- Unless the database fails, the statement runs; an insertion may be refused by the primary key.
  unfoldable pub store_attempt : Attempt → M Bool
  store_attempt a w =
      let stored = if env.store_fails w.calls then none else create_login_attempt a w.attempts in
      (is_some stored, record w { attempts = or_old stored w.attempts; calls = w.calls + 1 })

  -- No row, and a fault of the database, are both an error.
  unfoldable pub consume : Text → M (Option Attempt)
  consume state w =
      if env.store_fails w.calls
      then (none, record w { calls = w.calls + 1 })
      else let (found, rest) = consume_login_attempt (env.db_now w.calls) state w.attempts in
        (found, record w { attempts = rest; calls = w.calls + 1 })

  unfoldable pub store_session : NewSession → M Bool
  store_session s w =
      let stored =
        if env.store_fails w.calls
        then none
        else create_session (env.db_now w.calls) s w.sessions in
      (is_some stored, record w { sessions = or_old stored w.sessions; calls = w.calls + 1 })

  unfoldable pub active : ℕ → ℕ → Text → M (Option Session)
  active now idle hash w = (
    if env.store_fails w.calls
        then none
        else get_active_session (env.db_now w.calls) now idle hash w.sessions,
    record w { calls = w.calls + 1 },
  )

  -- An update or deletion of sessions; false is an error.
  unfoldable pub on_sessions : (ℕ → List Session → List Session) → M Bool
  on_sessions f w =
      if env.store_fails w.calls
      then (false, record w { calls = w.calls + 1 })
      else (true, record w { sessions = f (env.db_now w.calls) w.sessions; calls = w.calls + 1 })

  unfoldable pub purge_attempts : M Bool
  purge_attempts w =
      if env.store_fails w.calls then (false, record w { calls = w.calls + 1 }) else (
        true,
        record w {
          attempts = delete_expired_login_attempts (env.db_now w.calls) w.attempts;
          calls = w.calls + 1;
        },
      )
