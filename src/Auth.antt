-- ===== src/Auth.antt =====
-- Role-based authentication, backend/internal/auth/auth.go. Logging is left out; that the lookup of
-- a token takes the same time for all tokens is not modelled.
pub mod Guards
pub mod Accepts
mod Tests
use kite_rail.Prelude.{
  Bool, true, false, not, ◌&&◌, ◌||◌, Option, none, some, List, [], ◌∷◌, any, if◌then◌else◌, ℕ,
}
use kite_rail.Prelude.Text.{Text, codes, text_eq, has_prefix, trim_prefix}
use kite_rail.Prelude.Http.{Method, get, head, options}
use kite_rail.Prelude.Headers.{Headers}
use kite_rail.Prelude.Headers

-- A `Role` is a string: one of the three, or any other.
pub data Role : Type 0 where
  agent reviewer admin : Role
  other_role : Text → Role

unfoldable pub role_eq : Role → Role → Bool
role_eq agent agent = true
role_eq reviewer reviewer = true
role_eq admin admin = true
role_eq (other_role s) (other_role t) = text_eq s t
role_eq _ _ = false

pub record Identity : Type 0 where
  pub id : Text
  pub role : Role

-- What the middleware reads of a request, with the identity in its context.
pub record Request : Type 0 where
  pub method : Method
  pub headers : Headers
  pub identity : Option Identity

-- `AgentFromContext`
unfoldable pub agent_from_context : Option Identity → Text
agent_from_context none = codes "unknown"
agent_from_context (some identity) = identity.id

-- `lookupIdentity`: the loop over all candidates, with the last match so far.
unfoldable pub scan_identities : Text → Option Identity → List (Text × Identity) → Option Identity
scan_identities token found [] = found
scan_identities token found ((candidate, identity) ∷ rest) =
    scan_identities token (if text_eq candidate token then some identity else found) rest

unfoldable pub lookup_identity : List (Text × Identity) → Text → Option Identity
unfolding scan_identities
lookup_identity identities token = scan_identities token none identities

abbrev pub bearer_prefix : Text
bearer_prefix = codes "Bearer "

unfoldable pub with_identity : Identity → Request → Request
with_identity identity r = record r { identity = some identity }

-- `reject` answers with a status, `next` is the handler behind the guard.
module _ {R : Type 0} (reject : ℕ → R) (next : Request → R) where
  unfoldable pub authenticate : List (Text × Identity) → Text → Request → R
  unfolding lookup_identity with_identity
  authenticate identities header r =
      if not (has_prefix header bearer_prefix)
      then reject 401
      else elim (lookup_identity identities (trim_prefix bearer_prefix header)) [
        | none ↦ reject 403
        | some identity ↦ next (with_identity identity r)
      ]

  unfoldable pub middleware : List (Text × Identity) → Request → R
  unfolding authenticate
  middleware identities r =
      authenticate identities (Headers.get (codes "Authorization") r.headers) r

  -- `RequireRole`
  unfoldable pub require_role : List Role → Request → R
  require_role roles r = elim r.identity [
    | none ↦ reject 403
    | some identity ↦ if any (role_eq identity.role) roles then next r else reject 403
  ]

  -- `ReviewerOrAdmin`
  unfoldable pub reviewer_or_admin : Request → R
  unfolding require_role
  reviewer_or_admin = require_role (reviewer ∷ admin ∷ [])

abbrev pub safe_method : Method → Bool
safe_method get = true
safe_method head = true
safe_method options = true
safe_method _ = false

-- The check on a state-changing request of a session: the CSRF header, and the origin if any.
unfoldable pub csrf_safe : (Text → Bool) → Headers → Bool
csrf_safe origin_allowed headers =
    text_eq (Headers.get (codes "X-Requested-With") headers) (codes "elodea")
    && (text_eq (Headers.get (codes "Origin") headers) []
        || origin_allowed (Headers.get (codes "Origin") headers))

module _ {R : Type 0} (reject : ℕ → R) (next : Request → R) where
  -- The part behind `AuthenticateSession`.
  unfoldable pub admit_session : (Text → Bool) → Option Identity → Request → R
  unfolding with_identity
  admit_session origin_allowed none r = reject 401
  admit_session origin_allowed (some identity) r =
      if safe_method r.method || csrf_safe origin_allowed r.headers
      then next (with_identity identity r)
      else reject 403

  -- `sessions` is the authenticator of sessions, if one is configured.
  unfoldable pub human_middleware :
      List (Text × Identity) → Option (Request → Option Identity) → (Text → Bool) → Request → R
  unfolding admit_session
  human_middleware identities none origin_allowed r = middleware reject next identities r
  human_middleware identities (some sessions) origin_allowed r =
      if text_eq (Headers.get (codes "Authorization") r.headers) []
      then admit_session origin_allowed (sessions r) r
      else middleware reject next identities r
