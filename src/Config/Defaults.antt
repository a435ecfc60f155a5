-- ===== src/Config/Defaults.antt =====
-- The defaults that `Validate` fills in.
use kite_rail.Prelude.{◌≡◌, inl, inr, refl, subst, Bool, true, false, ℕ, Bool-cases, List}
use kite_rail.Prelude.Text.{Text, codes, text_eq}
use kite_rail.Prelude.Numbers.{Signed, nonneg}
use kite_rail.Prelude.Std.{Std}
use kite_rail.Config.{Config, is_set, member}
use kite_rail.Config.Validate.{
  or_default, fill_limits, fill_times, fill_scopes, with_openid, valid, validate,
}
use kite_rail.Config.Rules.{not_positive, lower}
use kite_rail.Config.Passed.{few_connections, fill_defaults-cases, validate-Passed}

-- A positive duration or size.
abbrev pub Positive : Signed → Type 0
Positive d = not_positive d ≡ false

or_default-Positive : (d : Signed) (n : ℕ) → Positive (nonneg n) → Positive (or_default d n)
or_default-Positive d n h = elim (Bool-cases (not_positive d)) [
  | inl unset ↦ rw unset h
  | inr set ↦ rw set set
]

with_openid-member : (scopes : List Text) → member (with_openid scopes) (codes "openid") ≡ true
unfolding with_openid text_eq
with_openid-member scopes = elim (Bool-cases (member scopes (codes "openid"))) [
  | inl there ↦ rw (there, there) refl
  | inr absent ↦ rw absent refl
]

-- The limits, and with single sign-on the lifetimes of a session, its idle time within the whole,
-- and the scopes.
pub record Bounded (c : Config) : Type 0 where
  pub body : Positive c.max_request_body_bytes
  pub read : Positive c.read_timeout
  pub read_header : Positive c.read_header_timeout
  pub write : Positive c.write_timeout
  pub idle : Positive c.idle_timeout
  pub drain : Positive c.shutdown_drain_delay
  pub pool : few_connections c ≡ false
  pub ttl :
      is_set c.oidc.issuer ≡ true → Positive c.oidc.session_ttl × Positive c.oidc.session_idle_ttl
  pub idle_within :
      is_set c.oidc.issuer ≡ true → lower c.oidc.session_ttl c.oidc.session_idle_ttl ≡ false
  pub openid : is_set c.oidc.issuer ≡ true → member c.oidc.scopes (codes "openid") ≡ true

-- In a configuration that `validate` returns, every timeout and the limit of a body are positive,
-- and the database has no pool of exactly one connection. If it has single sign-on, the lifetimes of
-- a session are positive, its idle time does not exceed the whole, and `openid` is among the scopes.
pub validate-Bounded :
    (std : Std) (dev_allowed : Bool) (c c' : Config)
    → validate std dev_allowed c ≡ valid c'
    → Bounded c'
unfolding fill_limits fill_times fill_scopes
validate-Bounded std dev_allowed c c' h =
    let (pool, cases) =
      fill_defaults-cases (fill_limits c) c' (validate-Passed std dev_allowed c c' h).2 in
    elim cases [
      | inl (off, same) ↦ rw same (record {
        body = or_default-Positive c.max_request_body_bytes 1048576 refl;
        read = or_default-Positive c.read_timeout 10000000000 refl;
        read_header = or_default-Positive c.read_header_timeout 5000000000 refl;
        write = or_default-Positive c.write_timeout 30000000000 refl;
        idle = or_default-Positive c.idle_timeout 120000000000 refl;
        drain = or_default-Positive c.shutdown_drain_delay 5000000000 refl;
        pool = subst (λ x. few_connections x ≡ false) same pool;
        ttl = λ on. cc;
        idle_within = λ on. cc;
        openid = λ on. cc;
      })
      | inr (within, same) ↦ rw same (record {
        body = or_default-Positive c.max_request_body_bytes 1048576 refl;
        read = or_default-Positive c.read_timeout 10000000000 refl;
        read_header = or_default-Positive c.read_header_timeout 5000000000 refl;
        write = or_default-Positive c.write_timeout 30000000000 refl;
        idle = or_default-Positive c.idle_timeout 120000000000 refl;
        drain = or_default-Positive c.shutdown_drain_delay 5000000000 refl;
        pool = subst (λ x. few_connections x ≡ false) same pool;
        ttl = λ on. (
          or_default-Positive c.oidc.session_ttl 28800000000000 refl,
          or_default-Positive c.oidc.session_idle_ttl 3600000000000 refl,
        );
        idle_within = λ on. within;
        openid = λ on. with_openid-member _;
      })
    ]
