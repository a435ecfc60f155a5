-- ===== src/Sso/Sessions.antt =====
-- Which sessions authenticate a request, and that a session which was signed out never does again.
use kite_rail.Prelude.{
  Holds, ℕ, ◌+◌, ◌<◌, ◌≡◌, ◌≢◌, ◌⊎◌, inl, inr, refl, subst, true, ◌||◌, Option, none, some, [],
  arith, Bool-cases,
}
use mathlib.Core.Option.{some-injective}
use kite_rail.Prelude.Text.{Text, text_eq, text_eq_iff, ne_of_text_eq}
use kite_rail.Prelude.Std.{Std}
use kite_rail.Auth.{Role, agent, reviewer, admin, other_role, role_eq, Identity}
use kite_rail.Sso.{Config, hash_token, role_of}
use kite_rail.Sso.Table.{Session, is_active, get_active_session}
use kite_rail.Sso.World.{World, Env, active}
use kite_rail.Sso.Service.{Request, admit, session_token, authenticate_session}
use kite_rail.Sso.Stages.{find-Holds}

-- The session is known by its hash, and is neither revoked, nor expired, nor idle.
abbrev pub Active : ℕ → ℕ → ℕ → Text → Session → Type 0
Active db_now now idle hash s =
    (s.id_hash ≡ hash)
    × (s.revoked_at ≡ none)
    × (db_now < s.expires_at)
    × (now < s.last_seen_at + idle)

is_active-Active :
    (db_now now idle : ℕ) (hash : Text) (s : Session)
    → is_active db_now now idle hash s ≡ true
    → Active db_now now idle hash s
unfolding is_active
is_active-Active db_now now idle hash s h = go s.revoked_at refl
  where
    go : (o : Option ℕ) → s.revoked_at ≡ o → Active db_now now idle hash s
    go none e = ground (arith, text_eq_iff s.id_hash hash)
    go (some t) e = ground (arith, text_eq_iff s.id_hash hash)

human_role :
    (ρ : Role) → (role_eq ρ reviewer || role_eq ρ admin) ≡ true → (ρ ≡ reviewer) ⊎ (ρ ≡ admin)
unfolding role_eq
human_role agent h = cc
human_role reviewer h = inl refl
human_role admin h = inr refl
human_role (other_role s) h = cc

module _ (env : Env) (std : Std) (cfg : Config) (sha256 : Text → Text) where
  admit-Known :
      (now : ℕ) (hash : Text) (o : Option Session) (w : World) (i : Identity)
      → (admit env std cfg sha256 now hash o w).0 ≡ some i
      → (s : Session) × (o ≡ some s)
        × (i.id ≡ s.email)
        × (i.role ≡ role_of s.role)
        × ((i.role ≡ reviewer) ⊎ (i.role ≡ admin))
  unfolding admit
  admit-Known now hash none w i h = cc
  admit-Known now hash (some s) w i h =
      elim (Bool-cases (role_eq (role_of s.role) reviewer || role_eq (role_of s.role) admin)) [
        | inl human ↦
            let same : record { id = s.email; role = role_of s.role } ≡ i =
              some-injective _ _ (rw human at h) in
            subst
              (λ j.
                (x : Session) × (some s ≡ some x)
                × (j.id ≡ x.email)
                × (j.role ≡ role_of x.role)
                × ((j.role ≡ reviewer) ⊎ (j.role ≡ admin)))
              same (s, refl, refl, refl, human_role (role_of s.role) human)
        | inr other ↦ cc (rw other at h)
      ]

  -- A request is authenticated by its session cookie only as the identity of a session in the table,
  -- which is stored under the hash of the cookie's value, is neither revoked nor past its expiry nor
  -- idle for too long, and gives the role of a reviewer or an admin.
  pub authenticate_session-Active :
      (r : Request) (w : World) (i : Identity)
      → (authenticate_session env std cfg sha256 r w).0 ≡ some i
      → (s : Session) × (token : Text) × (token ≡ session_token env std cfg sha256 r)
        × (token ≢ [])
        × Holds s w.sessions
        × Active
            (env.db_now (w.calls + 1))
            (env.now w.calls)
            cfg.session_idle_ttl
            (hash_token sha256 token)
            s
        × (i.id ≡ s.email)
        × (i.role ≡ role_of s.role)
        × ((i.role ≡ reviewer) ⊎ (i.role ≡ admin))
  unfolding authenticate_session active get_active_session
  authenticate_session-Active r w i h =
      elim (Bool-cases (text_eq (session_token env std cfg sha256 r) [])) [
        | inl absent ↦ cc (rw absent at h)
        | inr given ↦ elim (Bool-cases (env.store_fails (w.calls + 1))) [
          | inl fault ↦ cc (rw (given, fault) at h)
          | inr fine ↦
              let (s, found, who, what, human) =
                admit-Known (env.now w.calls) _ _ _ i (rw (given, fine) at h) in
              let (there, passes) = find-Holds _ w.sessions s found in
              (
                s,
                session_token env std cfg sha256 r,
                refl,
                ne_of_text_eq given,
                there,
                is_active-Active _ _ _ _ s passes,
                who,
                what,
                human,
              )
        ]
      ]
