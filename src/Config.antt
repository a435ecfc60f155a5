-- ===== src/Config.antt =====
-- The configuration, backend/internal/config/config.go: its fields and its checks. Durations and
-- sizes are signed numbers, as in the source; fields that are neither read nor changed by `Load` and
-- `Validate` are left out.
pub mod Rules
pub mod Validate
pub mod Checks
pub mod Passed
pub mod Duties
pub mod Production
pub mod Defaults
pub mod Legacy
pub mod Environment
pub mod Settings
pub mod Load
pub mod Secrets
pub mod Loaded
mod Tests
use kite_rail.Prelude.{
  ℕ, ◌+◌, Bool, true, false, not, ◌&&◌, ◌||◌, Option, none, some, List, [], ◌∷◌, ◌++◌, any, ltb,
  leb, map, length, if◌then◌else◌,
}
use kite_rail.Prelude.Text.{Text, codes, text_eq, has_prefix}
use kite_rail.Prelude.Numbers.{Signed, nonneg, negative}
use kite_rail.Prelude.Std.{Url, Std}

-- A map from tokens to identities, in the order in which a `range` meets its keys.
abbrev pub Keys : Type 0
Keys = List (Text × Text)

pub record Oidc : Type 0 where
  pub issuer : Text
  pub client_id : Text
  pub client_secret : Text
  pub redirect_url : Text
  pub provider_name : Text
  pub groups_claim : Text
  pub identity_claim : Text
  pub scopes : List Text
  pub reviewer_groups : List Text
  pub admin_groups : List Text
  pub session_ttl : Signed
  pub session_idle_ttl : Signed
  pub cookie_same_site : Text

pub record Notify : Type 0 where
  pub slack_webhook_url : Text
  pub webhook_url : Text
  pub webhook_secret : Text

pub record SlackConfig : Type 0 where
  pub bot_token : Text
  pub signing_secret : Text
  pub channel_id : Text
  pub team_id : Text
  pub reviewers : List Text
  pub api_base : Text

pub record Config : Type 0 where
  pub listen_addr : Text
  pub target_url : Text
  pub policy_dir : Text
  pub postgres_dsn : Text
  pub log_level : Text
  pub api_keys : Keys
  pub reviewer_api_keys : Keys
  pub admin_api_keys : Keys
  pub allowed_origins : List Text
  pub environment : Text
  pub read_timeout : Signed
  pub read_header_timeout : Signed
  pub write_timeout : Signed
  pub idle_timeout : Signed
  pub shutdown_drain_delay : Signed
  pub max_request_body_bytes : Signed
  pub pg_max_open_conns : Signed
  pub tls_cert_file : Text
  pub tls_key_file : Text
  pub tls_terminated_upstream : Bool
  pub policy_reload_interval : Signed
  pub metrics_listen_addr : Text
  pub target_auth_token : Text
  pub oidc : Oidc
  pub console_url : Text
  pub notify : Notify
  pub slack : SlackConfig

abbrev pub is_set : Text → Bool
is_set s = not (text_eq s [])

abbrev pub is_empty : {A : Type 0} → List A → Bool
is_empty [] = true
is_empty (x ∷ xs) = false

-- `SlackConfig.anySet` and `OIDCConfig.anySet`
unfoldable pub slack_any_set : SlackConfig → Bool
slack_any_set s =
    is_set s.bot_token
    || is_set s.signing_secret
    || is_set s.channel_id
    || is_set s.team_id
    || not (is_empty s.reviewers)

unfoldable pub oidc_any_set : Oidc → Bool
oidc_any_set o =
    is_set o.issuer
    || is_set o.client_id
    || is_set o.client_secret
    || is_set o.redirect_url
    || not (is_empty o.reviewer_groups)
    || not (is_empty o.admin_groups)

-- Why a configuration is refused, for the checks in their order.
pub data ConfigError : Type 0 where
  target_unset target_malformed log_level_unknown negative_reload no_agent_key no_human :
      ConfigError
  oidc_without_issuer oidc_incomplete oidc_url oidc_insecure oidc_no_groups same_site_insecure :
      ConfigError
  same_site_unknown no_explicit_origin : ConfigError
  notify_url notify_insecure webhook_unsigned : ConfigError
  slack_incomplete slack_no_reviewers slack_not_email slack_agent slack_no_team : ConfigError
  shared_token shared_identity : ConfigError
  wildcard_origin local_dsn dev_credential short_token no_tls : ConfigError
  idle_exceeds_ttl too_few_connections : ConfigError
  unreadable malformed_yaml malformed_duration malformed_bool : ConfigError

-- A check that passes, or its error.
abbrev pub Check : Type 0
Check = Option ConfigError

abbrev pub require : Bool → ConfigError → Check
require true e = none
require false e = some e

abbrev pub unless : Bool → Check → Check
unless true k = none
unless false k = k

unfoldable pub first_error : List Check → Check
first_error [] = none
first_error (none ∷ checks) = first_error checks
first_error (some e ∷ checks) = some e

-- The first error over a list.
unfoldable pub each : {A : Type 0} → (A → Check) → List A → Check
unfolding first_error
each f xs = first_error (map f xs)

-- `strings.Contains`
unfoldable pub contains_text : Text → Text → Bool
contains_text sub [] = text_eq sub []
contains_text sub (c ∷ s) = has_prefix (c ∷ s) sub || contains_text sub s

abbrev pub member : List Text → Text → Bool
member xs x = any (λ y. text_eq y x) xs

abbrev pub is_web : Option Url → Bool
is_web none = false
is_web (some u) =
    (text_eq u.scheme (codes "http") || text_eq u.scheme (codes "https")) && is_set u.host

abbrev pub is_https : Option Url → Bool
is_https none = false
is_https (some u) = text_eq u.scheme (codes "https")

abbrev pub min_production_token_bytes : ℕ
min_production_token_bytes = 24

abbrev pub is_explicit : Text → Bool
is_explicit origin = not (text_eq origin (codes "*")) && is_set origin
