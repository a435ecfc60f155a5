-- ===== src/Config/Passed.antt =====
-- A configuration that `Validate` accepts has passed every check, and keeps what they are about.
use kite_rail.Prelude.{
  ◌≡◌, ◌⊎◌, inl, inr, refl, Bool, true, false, not, ◌&&◌, none, some, Bool-cases,
}
use kite_rail.Prelude.Text.{codes}
use kite_rail.Prelude.Numbers.{nonneg}
use kite_rail.Prelude.Std.{Std}
use kite_rail.Config.{Config, Check, wildcard_origin, member, is_set}
use kite_rail.Config.Validate.{
  valid, check_pool, fill_limits, fill_times, fill_scopes, fill_oidc, fill_defaults, conclude,
  validate,
}
use kite_rail.Config.Rules.{
  is_production, lower, validate_oidc, validate_notify, validate_slack, distinct_tokens,
  separate_identities, production_checks, check_list, checks,
}
use kite_rail.Config.Checks.{first_error-none, require-not, unless-not}

pub record Passed (std : Std) (dev_allowed : Bool) (c : Config) : Type 0 where
  pub oidc : validate_oidc std c ≡ none
  pub notify : validate_notify std c ≡ none
  pub slack : validate_slack std c ≡ none
  pub tokens : distinct_tokens c ≡ none
  pub identities : separate_identities c ≡ none
  pub origins : (is_production c && member c.allowed_origins (codes "*")) ≡ false
  pub production : (is_production c && not dev_allowed) ≡ true → production_checks c ≡ none

checks-Passed :
    (std : Std) (dev_allowed : Bool) (c : Config)
    → checks std dev_allowed c ≡ none
    → Passed std dev_allowed c
unfolding checks
checks-Passed std dev_allowed c h =
    let p = first_error-none (check_list std dev_allowed c) h in
    record {
      oidc = p.1.1.1.1.1.1.0;
      notify = p.1.1.1.1.1.1.1.0;
      slack = p.1.1.1.1.1.1.1.1.0;
      tokens = p.1.1.1.1.1.1.1.1.1.0;
      identities = p.1.1.1.1.1.1.1.1.1.1.0;
      origins = require-not _ wildcard_origin p.1.1.1.1.1.1.1.1.1.1.1.0;
      production =
          unless-not (is_production c && not dev_allowed) (production_checks c)
            p.1.1.1.1.1.1.1.1.1.1.1.1.0;
    }

-- Everything but the limits and the settings of single sign-on is the same, and of these the
-- credentials, addresses and groups.
abbrev pub Same : Config → Config → Type 0
Same c c' =
    (c'.api_keys ≡ c.api_keys)
    × (c'.reviewer_api_keys ≡ c.reviewer_api_keys)
    × (c'.admin_api_keys ≡ c.admin_api_keys)
    × (c'.allowed_origins ≡ c.allowed_origins)
    × (c'.environment ≡ c.environment)
    × (c'.slack ≡ c.slack)
    × (c'.notify ≡ c.notify)
    × (c'.tls_cert_file ≡ c.tls_cert_file)
    × (c'.tls_key_file ≡ c.tls_key_file)
    × (c'.tls_terminated_upstream ≡ c.tls_terminated_upstream)

abbrev pub few_connections : Config → Bool
few_connections c = lower (nonneg 0) c.pg_max_open_conns && lower c.pg_max_open_conns (nonneg 2)

check_pool-valid :
    (c c' : Config) → check_pool c ≡ valid c' → (c' ≡ c) × (few_connections c' ≡ false)
unfolding check_pool
check_pool-valid c c' h = elim (Bool-cases (few_connections c)) [
  | inl few ↦ cc (rw few at h)
  | inr enough ↦ let same : c' ≡ c = cc (rw enough at h) in (same, rw same enough)
]

-- The configuration with the settings of single sign-on filled in.
abbrev pub with_oidc : Config → Config
with_oidc c = record c { oidc = fill_scopes (fill_times c.oidc) }

pub fill_defaults-cases :
    (c c' : Config)
    → fill_defaults c ≡ valid c'
    → (few_connections c' ≡ false)
      × (((is_set c.oidc.issuer ≡ false) × (c' ≡ c))
          ⊎ ((lower (fill_times c.oidc).session_ttl (fill_times c.oidc).session_idle_ttl ≡ false)
              × (c' ≡ with_oidc c)))
unfolding fill_defaults fill_oidc
fill_defaults-cases c c' h = elim (Bool-cases (is_set c.oidc.issuer)) [
  | inr off ↦ let pool = check_pool-valid c c' (rw off at h) in (pool.1, inl (off, pool.0))
  | inl on ↦
      elim (Bool-cases
        (lower (fill_times c.oidc).session_ttl (fill_times c.oidc).session_idle_ttl)) [
          | inl exceeds ↦ cc (rw (on, exceeds) at h)
          | inr within ↦
              let pool = check_pool-valid (with_oidc c) c' (rw (on, within) at h) in
              (pool.1, inr (within, pool.0))
        ]
]

fill_defaults-Same : (c c' : Config) → fill_defaults c ≡ valid c' → Same c c'
fill_defaults-Same c c' h = elim (fill_defaults-cases c c' h).1 [
  | inl (off, same) ↦ rw same (refl, refl, refl, refl, refl, refl, refl, refl, refl, refl)
  | inr (within, same) ↦ rw same (refl, refl, refl, refl, refl, refl, refl, refl, refl, refl)
]

fill_limits-Same : (c c' : Config) → Same (fill_limits c) c' → Same c c'
unfolding fill_limits
fill_limits-Same c c' s = s

pub validate-Passed :
    (std : Std) (dev_allowed : Bool) (c c' : Config)
    → validate std dev_allowed c ≡ valid c'
    → Passed std dev_allowed c × Same c c' × (fill_defaults (fill_limits c) ≡ valid c')
unfolding validate conclude
validate-Passed std dev_allowed c c' h = go (checks std dev_allowed c) refl h
  where
    go :
        (o : Check)
        → checks std dev_allowed c ≡ o
        → conclude c o ≡ valid c'
        → Passed std dev_allowed c × Same c c' × (fill_defaults (fill_limits c) ≡ valid c')
    go none e done = (
      checks-Passed std dev_allowed c e,
      fill_limits-Same c c' (fill_defaults-Same (fill_limits c) c' done),
      done,
    )
    go (some x) e done = cc
