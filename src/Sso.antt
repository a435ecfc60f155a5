-- ===== src/Sso.antt =====
-- Single sign-on, backend/internal/sso/sso.go: what does not touch the database. The identity
-- provider, go-oidc and oauth2 are parameters; logging is left out.
pub mod Table
pub mod World
pub mod Service
pub mod Stages
pub mod Callback
pub mod Attempts
pub mod SingleUse
pub mod Redirects
pub mod Sessions
pub mod SignedOut
mod Tests
use kite_rail.Prelude.{
  ℕ, Bool, true, false, not, ◌&&◌, ◌||◌, Option, none, some, List, [], ◌∷◌, ◌++◌, any,
  if◌then◌else◌,
}
use kite_rail.Prelude.Text.{Text, codes, text_eq, has_prefix, hex}
use kite_rail.Prelude.Std.{Url, Std}
use kite_rail.Auth.{Role, agent, reviewer, admin, other_role}

-- `config.OIDCConfig` with the allowed origins; durations are numbers of nanoseconds.
pub record Config : Type 0 where
  pub redirect_url : Text
  pub groups_claim : Text
  pub identity_claim : Text
  pub reviewer_groups : List Text
  pub admin_groups : List Text
  pub session_ttl : ℕ
  pub session_idle_ttl : ℕ
  pub cookie_same_site : Text
  pub allowed_origins : List Text

-- A value of the claims. In an array only the strings are told apart.
pub data Claim : Type 0 where
  string : Text → Claim
  boolean : Bool → Claim
  array : List (Option Text) → Claim
  other_claim : Claim

abbrev pub Claims : Type 0
Claims = List (Text × Claim)

unfoldable pub claim : Text → Claims → Option Claim
claim key [] = none
claim key ((k, v) ∷ rest) = if text_eq k key then some v else claim key rest

-- The failure codes of a sign-in.
pub data Failure : Type 0 where
  denied unavailable failed no_identity unverified no_role session_failed : Failure

unfoldable pub failure_code : Failure → Text
failure_code denied = codes "denied"
failure_code unavailable = codes "unavailable"
failure_code failed = codes "failed"
failure_code no_identity = codes "no_identity"
failure_code unverified = codes "unverified_email"
failure_code no_role = codes "no_role"
failure_code session_failed = codes "session_failed"

pub data Outcome (A : Type 0) : Type 0 where
  ok : A → Outcome A
  refused : Failure → Outcome A

-- `claims[key].(string)` and `claims[key].(bool)`, with their zero values.
unfoldable pub text_of : Option Claim → Text
text_of (some (string s)) = s
text_of _ = []

unfoldable pub is_true : Option Claim → Bool
is_true (some (boolean b)) = b
is_true _ = false

abbrev pub email : Text
email = codes "email"

-- `slices.Contains`
abbrev pub member : List Text → Text → Bool
member xs x = any (λ y. text_eq y x) xs

-- `groups` in `roleFrom`
unfoldable pub strings_of : List (Option Text) → List Text
strings_of [] = []
strings_of (some s ∷ rest) = s ∷ strings_of rest
strings_of (none ∷ rest) = strings_of rest

unfoldable pub groups_of : Option Claim → List Text
unfolding strings_of
groups_of (some (string s)) = s ∷ []
groups_of (some (array items)) = strings_of items
groups_of _ = []

-- The first allowed origin that is no wildcard.
unfoldable pub default_return : List Text → Option Text
default_return [] = none
default_return (origin ∷ rest) =
    if not (text_eq origin (codes "*")) && not (text_eq origin [])
    then some (origin ++ codes "/")
    else default_return rest

unfoldable pub safe_path : Text → Text
safe_path path =
    if text_eq path [] || not (has_prefix path (codes "/")) || has_prefix path (codes "//")
    then codes "/"
    else path

module _ (std : Std) (cfg : Config) where
  -- The identity behind the trimmed claim.
  unfoldable pub identity_of : Claims → Text → Outcome Text
  unfolding is_true
  identity_of claims value =
      if text_eq value []
      then refused no_identity
      else if text_eq cfg.identity_claim email
      then (if is_true (claim (codes "email_verified") claims)
          then ok (std.to_lower value)
          else refused unverified)
      else ok value

  -- `identityFrom`
  unfoldable pub identity_from : Claims → Outcome Text
  unfolding text_of identity_of
  identity_from claims =
      identity_of claims (std.trim_space (text_of (claim cfg.identity_claim claims)))

  -- `roleFrom`
  unfoldable pub role_from : Claims → Option Role
  unfolding groups_of
  role_from claims =
      let groups = groups_of (claim cfg.groups_claim claims) in
      if any (member cfg.admin_groups) groups
      then some admin
      else if any (member cfg.reviewer_groups) groups
      then some reviewer
      else none

  -- `validReturnTo` for a URL that was parsed.
  unfoldable pub checked_return : Url → Option Text
  unfolding safe_path
  checked_return u =
      if (not (text_eq u.scheme (codes "http")) && not (text_eq u.scheme (codes "https")))
        || text_eq u.host []
        || u.has_user
      then none
      else let origin = u.scheme ++ (codes "://" ++ u.host) in
        if member cfg.allowed_origins origin then some (origin ++ safe_path u.path) else none

  unfoldable pub parsed_return : Option Url → Option Text
  unfolding checked_return
  parsed_return none = none
  parsed_return (some u) = checked_return u

  -- `validReturnTo`
  unfoldable pub valid_return_to : Text → Option Text
  unfolding default_return parsed_return
  valid_return_to raw =
      if text_eq raw []
      then default_return cfg.allowed_origins
      else parsed_return (std.parse_url raw)

  -- `SecureCookies` and `cookieName`
  unfoldable pub secure_cookies : Bool
  secure_cookies = has_prefix cfg.redirect_url (codes "https://")

  unfoldable pub cookie_name : Text
  unfolding secure_cookies
  cookie_name = if secure_cookies then codes "__Host-elodea_session" else codes "elodea_session"

pub data SameSite : Type 0 where
  lax strict none_mode : SameSite

-- `http.Cookie` with `Path: "/"`; a maximal age of `none` stands for -1, which deletes the cookie.
pub record Cookie : Type 0 where
  pub name : Text
  pub value : Text
  pub max_age : Option ℕ
  pub http_only : Bool
  pub secure : Bool
  pub same_site : SameSite

unfoldable pub same_site_of : Text → SameSite
same_site_of mode =
    if text_eq mode (codes "strict")
    then strict
    else if text_eq mode (codes "none")
    then none_mode
    else lax

module _ (std : Std) (cfg : Config) where
  unfoldable pub cookie : Text → Option ℕ → Cookie
  unfolding same_site_of cookie_name secure_cookies
  cookie value max_age = record {
    name = cookie_name std cfg;
    value = value;
    max_age = max_age;
    http_only = true;
    secure = secure_cookies std cfg;
    same_site = same_site_of (std.to_lower cfg.cookie_same_site);
  }

-- `string(role)` and `auth.Role(text)`
unfoldable pub role_text : Role → Text
role_text agent = codes "agent"
role_text reviewer = codes "reviewer"
role_text admin = codes "admin"
role_text (other_role s) = s

unfoldable pub role_of : Text → Role
role_of s =
    if text_eq s (codes "agent")
    then agent
    else if text_eq s (codes "reviewer")
    then reviewer
    else if text_eq s (codes "admin")
    then admin
    else other_role s

-- `hashToken`
unfoldable pub hash_token : (Text → Text) → Text → Text
hash_token sha256 token = hex (sha256 token)
