-- ===== src/Sso/Table.antt =====
-- The tables of login attempts and sessions with the statements of backend/internal/db/auth.sql.go.
-- `now` is the time of the database, and times are numbers of nanoseconds.
use kite_rail.Prelude.{
  ℕ, ◌+◌, Bool, true, false, not, ◌&&◌, Option, none, some, List, [], ◌∷◌, ltb, any, filter, map,
  if◌then◌else◌,
}
use kite_rail.Prelude.Text.{Text, text_eq}

pub record Attempt : Type 0 where
  pub state : Text
  pub nonce : Text
  pub code_verifier : Text
  pub return_to : Text
  pub expires_at : ℕ

pub record Session : Type 0 where
  pub id_hash : Text
  pub subject : Text
  pub email : Text
  pub role : Text
  pub created_at : ℕ
  pub expires_at : ℕ
  pub last_seen_at : ℕ
  pub revoked_at : Option ℕ

abbrev pub is_none {ℓ} : {A : Type ℓ} → Option A → Bool
is_none none = true
is_none (some a) = false

-- The primary key refuses a second row with the same state; `none` is the error.
unfoldable pub create_login_attempt : Attempt → List Attempt → Option (List Attempt)
create_login_attempt a rows =
    if any (λ r. text_eq r.state a.state) rows then none else some (a ∷ rows)

unfoldable pub is_open : ℕ → Text → Attempt → Bool
is_open now state r = text_eq r.state state && ltb now r.expires_at

-- The first row that passes a test.
abbrev pub find {ℓ} : {A : Type ℓ} → (A → Bool) → List A → Option A
find p [] = none
find p (x ∷ xs) = if p x then some x else find p xs

-- The row is deleted as it is read.
unfoldable pub consume_login_attempt : ℕ → Text → List Attempt → Option Attempt × List Attempt
unfolding is_open
consume_login_attempt now state rows =
    (find (is_open now state) rows, filter (λ r. not (is_open now state r)) rows)

unfoldable pub delete_expired_login_attempts : ℕ → List Attempt → List Attempt
delete_expired_login_attempts now = filter (λ r. ltb now r.expires_at)

-- `CreateSessionParams`
pub record NewSession : Type 0 where
  pub id_hash : Text
  pub subject : Text
  pub email : Text
  pub role : Text
  pub expires_at : ℕ

-- The row with the defaults of its other columns.
unfoldable pub inserted : ℕ → NewSession → Session
inserted now s = record {
  id_hash = s.id_hash;
  subject = s.subject;
  email = s.email;
  role = s.role;
  created_at = now;
  expires_at = s.expires_at;
  last_seen_at = now;
  revoked_at = none;
}

unfoldable pub create_session : ℕ → NewSession → List Session → Option (List Session)
unfolding inserted
create_session now s rows =
    if any (λ r. text_eq r.id_hash s.id_hash) rows then none else some (inserted now s ∷ rows)

-- Not revoked, before its expiry, and seen within the idle window: the cutoff is the time of the
-- process less the window.
unfoldable pub is_active : ℕ → ℕ → ℕ → Text → Session → Bool
is_active db_now now idle hash r =
    text_eq r.id_hash hash
    && is_none r.revoked_at
    && ltb db_now r.expires_at
    && ltb now (r.last_seen_at + idle)

unfoldable pub get_active_session : ℕ → ℕ → ℕ → Text → List Session → Option Session
unfolding is_active
get_active_session db_now now idle hash = find (is_active db_now now idle hash)

-- `UPDATE ... WHERE id_hash = $1 AND revoked_at IS NULL`
abbrev update_live : Text → (Session → Session) → List Session → List Session
update_live hash f = map (λ r. if text_eq r.id_hash hash && is_none r.revoked_at then f r else r)

unfoldable pub touch_session : ℕ → Text → List Session → List Session
touch_session now hash = update_live hash (λ r. record r { last_seen_at = now })

unfoldable pub revoke_session : ℕ → Text → List Session → List Session
revoke_session now hash = update_live hash (λ r. record r { revoked_at = some now })

-- 30 days.
abbrev retention : ℕ
retention = 2592000000000000

unfoldable pub delete_expired_sessions : ℕ → List Session → List Session
delete_expired_sessions now = filter (λ r. ltb now (r.expires_at + retention))
