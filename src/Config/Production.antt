-- ===== src/Config/Production.antt =====
-- What `Validate` enforces in production.
use kite_rail.Prelude.{
  ◌≡◌, refl, sym, ap, ◌∙◌, Bool, true, false, not, ◌&&◌, ◌||◌, none, List, [], ◌∷◌, All, ltb,
  length,
}
use kite_rail.Prelude.Text.{Text, codes, text_eq, has_prefix}
use kite_rail.Prelude.Std.{Std}
use kite_rail.Config.{
  Keys, Config, Check, require, each, member, contains_text, is_set, min_production_token_bytes,
  local_dsn, dev_credential, short_token, no_tls,
}
use kite_rail.Config.Validate.{valid, validate}
use kite_rail.Config.Rules.{is_production, token_check, production_checks}
use kite_rail.Config.Checks.{first_error-none, require-none, require-not, each-none, All-map}
use kite_rail.Config.Passed.{Same, validate-Passed}

abbrev LongEnough : Text × Text → Type 0
LongEnough k = ltb (length k.0) min_production_token_bytes ≡ false

tokens_long : (keys : Keys) → each token_check keys ≡ none → All LongEnough keys
tokens_long keys h =
    All-map (λ k. token_check k ≡ none) LongEnough keys (λ k. require-not _ short_token)
      (each-none token_check keys h)

-- What the checks of production enforce of the credentials and of the transport.
pub record Hardened (c : Config) : Type 0 where
  pub agents : All LongEnough c.api_keys
  pub reviewers : All LongEnough c.reviewer_api_keys
  pub admins : All LongEnough c.admin_api_keys
  pub no_dev : All (λ (k : Text × Text). has_prefix k.0 (codes "sk_dev_") ≡ false) c.api_keys
  pub tls : ((is_set c.tls_cert_file && is_set c.tls_key_file) || c.tls_terminated_upstream) ≡ true

abbrev dev_check : Text × Text → Check
dev_check k = require (not (has_prefix k.0 (codes "sk_dev_"))) dev_credential

abbrev production_list : Config → List Check
production_list c =
    require
      (not (
        contains_text (codes "sslmode=disable") c.postgres_dsn
        && contains_text (codes "localhost") c.postgres_dsn))
      local_dsn
    ∷ each dev_check c.api_keys
    ∷ each token_check c.api_keys
    ∷ each token_check c.reviewer_api_keys
    ∷ each token_check c.admin_api_keys
    ∷ require ((is_set c.tls_cert_file && is_set c.tls_key_file) || c.tls_terminated_upstream)
        no_tls
    ∷ []

production_checks-Hardened : (c : Config) → production_checks c ≡ none → Hardened c
unfolding production_checks
production_checks-Hardened c h =
    let p = first_error-none (production_list c) h in
    record {
      agents = tokens_long c.api_keys p.1.1.0;
      reviewers = tokens_long c.reviewer_api_keys p.1.1.1.0;
      admins = tokens_long c.admin_api_keys p.1.1.1.1.0;
      no_dev =
          All-map (λ k. dev_check k ≡ none)
            (λ (k : Text × Text). has_prefix k.0 (codes "sk_dev_") ≡ false) c.api_keys
            (λ k. require-not _ dev_credential) (each-none dev_check c.api_keys p.1.0);
      tls = require-none _ no_tls p.1.1.1.1.1.0;
    }

Hardened-Same : (c c' : Config) → Same c c' → Hardened c → Hardened c'
Hardened-Same c c'
      (agents, reviewers, admins, origins, environment, slack, notify, cert, key, upstream) s =
    record {
      agents = rw agents s.agents;
      reviewers = rw reviewers s.reviewers;
      admins = rw admins s.admins;
      no_dev = rw agents s.no_dev;
      tls = rw (cert, key, upstream) s.tls;
    }

no_wildcard : (p : Bool) (m : Bool) → (p && m) ≡ false → p ≡ true → m ≡ false
no_wildcard true m h e = h
no_wildcard false m h e = cc

-- A configuration for production that `validate` returns while development credentials are not
-- allowed has no wildcard among its origins, only tokens of at least 24 bytes, no agent token with
-- the development prefix, and TLS, by files or upstream.
pub validate-Hardened :
    (std : Std) (c c' : Config)
    → validate std false c ≡ valid c'
    → is_production c' ≡ true
    → (member c'.allowed_origins (codes "*") ≡ false) × Hardened c'
validate-Hardened std c c' h e =
    let (passed, same, done) = validate-Passed std false c c' h in
    let before = sym (ap (λ t. text_eq t (codes "production")) same.4) ∙ e in
    (
      rw same.3 (no_wildcard (is_production c) _ passed.origins before),
      Hardened-Same c c' same (production_checks-Hardened c (passed.production (rw before refl))),
    )
