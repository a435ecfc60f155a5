-- ===== src/Config/Rules.antt =====
-- The checks of `Validate`, backend/internal/config/config.go. Where the source ranges over a map, the
-- order decides which error is reported, not whether there is one; here it is one of its orders.
use kite_rail.Prelude.{
  Bool, true, false, not, ◌&&◌, ◌||◌, none, some, List, [], ◌∷◌, ◌++◌, any, ltb, map, length, ◌==◌,
  if◌then◌else◌,
}
use kite_rail.Prelude.Text.{Text, codes, text_eq, has_prefix}
use kite_rail.Prelude.Numbers.{Signed, nonneg, negative}
use kite_rail.Prelude.Std.{Std}
use kite_rail.Config.{
  Keys, Config, is_set, is_empty, slack_any_set, oidc_any_set, ConfigError, target_unset,
  target_malformed, log_level_unknown, negative_reload, no_agent_key, no_human, oidc_without_issuer,
  oidc_incomplete, oidc_url, oidc_insecure, oidc_no_groups, same_site_insecure, same_site_unknown,
  no_explicit_origin, notify_url, notify_insecure, webhook_unsigned, slack_incomplete,
  slack_no_reviewers, slack_not_email, slack_agent, slack_no_team, shared_token, shared_identity,
  wildcard_origin, local_dsn, dev_credential, short_token, no_tls, Check, require, unless,
  first_error, each, contains_text, member, is_web, is_https, min_production_token_bytes,
  is_explicit,
}

abbrev pub is_production : Config → Bool
is_production c = text_eq c.environment (codes "production")

abbrev pub is_negative : Signed → Bool
is_negative (nonneg n) = false
is_negative (negative n) = true

-- `<= 0`
abbrev pub not_positive : Signed → Bool
not_positive (nonneg n) = n == 0
not_positive (negative n) = true

-- `<`
abbrev pub lower : Signed → Signed → Bool
lower (nonneg m) (nonneg n) = ltb m n
lower (nonneg m) (negative n) = false
lower (negative m) (nonneg n) = true
lower (negative m) (negative n) = ltb n m

abbrev pub tokens : Keys → List Text
tokens = map (λ k. k.0)

abbrev pub identities_of : Keys → List Text
identities_of = map (λ k. k.1)

module _ (std : Std) where
  -- An absolute http(s) URL, with https in production.
  unfoldable pub url_check : ConfigError → ConfigError → Bool → Text → Check
  unfolding first_error
  url_check malformed insecure production raw = first_error (
      require (is_web (std.parse_url raw)) malformed
      ∷ require (not production || is_https (std.parse_url raw)) insecure
      ∷ [])

  unfoldable pub same_site_check : Config → Text → Check
  same_site_check c mode =
      if text_eq mode [] || text_eq mode (codes "lax") || text_eq mode (codes "strict")
      then none
      else if text_eq mode (codes "none")
      then require (has_prefix c.oidc.redirect_url (codes "https://")) same_site_insecure
      else some same_site_unknown

  -- `validateOIDC`
  unfoldable pub validate_oidc : Config → Check
  unfolding first_error oidc_any_set url_check same_site_check
  validate_oidc c =
      let o = c.oidc in
      unless (not (oidc_any_set o)) (
        first_error (
          require (is_set o.issuer) oidc_without_issuer
          ∷ require (is_set o.client_id && is_set o.client_secret && is_set o.redirect_url)
              oidc_incomplete
          ∷ url_check oidc_url oidc_insecure (is_production c) o.issuer
          ∷ url_check oidc_url oidc_insecure (is_production c) o.redirect_url
          ∷ require (not (is_empty o.reviewer_groups) || not (is_empty o.admin_groups))
              oidc_no_groups
          ∷ same_site_check c (std.to_lower o.cookie_same_site)
          ∷ require (any is_explicit c.allowed_origins) no_explicit_origin
          ∷ []))

  unfoldable pub optional_url : Bool → Text → Check
  unfolding url_check
  optional_url production raw =
      unless (text_eq raw []) (url_check notify_url notify_insecure production raw)

  -- `validateNotify`
  unfoldable pub validate_notify : Config → Check
  unfolding first_error optional_url
  validate_notify c = first_error (
      optional_url (is_production c) c.console_url
      ∷ optional_url (is_production c) c.notify.slack_webhook_url
      ∷ optional_url (is_production c) c.notify.webhook_url
      ∷ require
          (not (
            is_production c
            && is_set c.notify.webhook_url
            && ltb (length c.notify.webhook_secret) min_production_token_bytes))
          webhook_unsigned
      ∷ [])

  -- One reviewer of Slack: an email, and no agent in any case.
  unfoldable pub slack_reviewer_check : Keys → Text → Check
  unfolding first_error contains_text
  slack_reviewer_check agents r = first_error (
      require (contains_text (codes "@") r) slack_not_email
      ∷ require (not (member (map std.to_lower (identities_of agents)) (std.to_lower r)))
          slack_agent
      ∷ [])

  -- `validateSlack`
  unfoldable pub validate_slack : Config → Check
  unfolding first_error each slack_any_set slack_reviewer_check
  validate_slack c =
      let s = c.slack in
      unless (not (slack_any_set s)) (
        first_error (
          require (is_set s.bot_token && is_set s.signing_secret && is_set s.channel_id)
            slack_incomplete
          ∷ require (not (is_empty s.reviewers)) slack_no_reviewers
          ∷ each (slack_reviewer_check c.api_keys) s.reviewers
          ∷ require (not (is_production c && text_eq s.team_id [])) slack_no_team
          ∷ []))

-- The loops over the keys of reviewers and of admins: no token was seen before.
unfoldable pub unseen : List Text → Keys → Check
unfolding first_error
unseen seen [] = none
unseen seen ((token, id) ∷ rest) =
    first_error (require (not (member seen token)) shared_token ∷ unseen (token ∷ seen) rest ∷ [])

unfoldable pub distinct_tokens : Config → Check
unfolding first_error unseen
distinct_tokens c = first_error (
    unseen (tokens c.api_keys) c.reviewer_api_keys
    ∷ unseen (tokens c.reviewer_api_keys ++ tokens c.api_keys) c.admin_api_keys
    ∷ [])

unfoldable pub separate_identities : Config → Check
unfolding first_error each
separate_identities c =
    let check =
      λ (k : Text × Text). require (not (member (identities_of c.api_keys) k.1)) shared_identity in
    first_error (each check c.reviewer_api_keys ∷ each check c.admin_api_keys ∷ [])

abbrev pub token_check : Text × Text → Check
token_check k = require (not (ltb (length k.0) min_production_token_bytes)) short_token

-- The checks of production, unless development credentials are allowed.
unfoldable pub production_checks : Config → Check
unfolding first_error each contains_text
production_checks c = first_error (
    require
      (not (
        contains_text (codes "sslmode=disable") c.postgres_dsn
        && contains_text (codes "localhost") c.postgres_dsn))
      local_dsn
    ∷ each (λ k. require (not (has_prefix k.0 (codes "sk_dev_"))) dev_credential) c.api_keys
    ∷ each token_check c.api_keys
    ∷ each token_check c.reviewer_api_keys
    ∷ each token_check c.admin_api_keys
    ∷ require ((is_set c.tls_cert_file && is_set c.tls_key_file) || c.tls_terminated_upstream)
        no_tls
    ∷ [])

abbrev known_levels : List Text
known_levels = [] ∷ codes "debug" ∷ codes "info" ∷ codes "warn" ∷ codes "error" ∷ []

module _ (std : Std) where
  -- The checks of `Validate` before it fills in defaults.
  abbrev pub check_list : Bool → Config → List Check
  check_list dev_allowed c =
      require (is_set c.target_url) target_unset
      ∷ require (is_web (std.parse_url c.target_url)) target_malformed
      ∷ require (member known_levels (std.to_lower c.log_level)) log_level_unknown
      ∷ require (not (is_negative c.policy_reload_interval)) negative_reload
      ∷ require (not (is_empty c.api_keys)) no_agent_key
      ∷ require
          (not (is_empty c.reviewer_api_keys)
            || not (is_empty c.admin_api_keys)
            || is_set c.oidc.issuer)
          no_human
      ∷ validate_oidc std c
      ∷ validate_notify std c
      ∷ validate_slack std c
      ∷ distinct_tokens c
      ∷ separate_identities c
      ∷ require (not (is_production c && member c.allowed_origins (codes "*"))) wildcard_origin
      ∷ unless (not (is_production c && not dev_allowed)) (production_checks c)
      ∷ []

  unfoldable pub checks : Bool → Config → Check
  unfolding first_error validate_oidc validate_notify validate_slack distinct_tokens
      separate_identities production_checks
  checks dev_allowed c = first_error (check_list dev_allowed c)
