-- ===== src/Config/Validate.antt =====
-- The defaults of `Validate`, backend/internal/config/config.go, and the whole of it.
use kite_rail.Prelude.{ℕ, Bool, ◌&&◌, none, some, List, [], ◌∷◌, if◌then◌else◌}
use kite_rail.Prelude.Text.{Text, codes}
use kite_rail.Prelude.Numbers.{Signed, nonneg}
use kite_rail.Prelude.Std.{Std}
use kite_rail.Config.{
  Oidc, Config, is_set, ConfigError, idle_exceeds_ttl, too_few_connections, Check, member,
}
use kite_rail.Config.Rules.{checks, lower, not_positive}

abbrev pub or_default : Signed → ℕ → Signed
or_default d n = if not_positive d then nonneg n else d

abbrev pub or_text : Text → Text → Text
or_text [] t = t
or_text (c ∷ s) t = c ∷ s

abbrev pub or_list : List Text → List Text → List Text
or_list [] t = t
or_list (c ∷ s) t = c ∷ s

-- The timeouts and the size of a body, in nanoseconds and bytes.
unfoldable pub fill_limits : Config → Config
fill_limits c = record c {
  max_request_body_bytes = or_default c.max_request_body_bytes 1048576;
  read_timeout = or_default c.read_timeout 10000000000;
  read_header_timeout = or_default c.read_header_timeout 5000000000;
  write_timeout = or_default c.write_timeout 30000000000;
  idle_timeout = or_default c.idle_timeout 120000000000;
  shutdown_drain_delay = or_default c.shutdown_drain_delay 5000000000;
}

unfoldable pub fill_times : Oidc → Oidc
fill_times o = record o {
  groups_claim = or_text o.groups_claim (codes "groups");
  identity_claim = or_text o.identity_claim (codes "email");
  session_ttl = or_default o.session_ttl 28800000000000;
  session_idle_ttl = or_default o.session_idle_ttl 3600000000000;
}

unfoldable pub with_openid : List Text → List Text
with_openid scopes = if member scopes (codes "openid") then scopes else codes "openid" ∷ scopes

unfoldable pub fill_scopes : Oidc → Oidc
unfolding with_openid
fill_scopes o = record o {
  provider_name = or_text o.provider_name (codes "SSO");
  scopes = with_openid (or_list o.scopes (codes "openid" ∷ codes "email" ∷ codes "profile" ∷ []));
}

pub data Validated : Type 0 where
  valid : Config → Validated
  invalid : ConfigError → Validated

-- The last check.
unfoldable pub check_pool : Config → Validated
check_pool c =
    if lower (nonneg 0) c.pg_max_open_conns && lower c.pg_max_open_conns (nonneg 2)
    then invalid too_few_connections
    else valid c

unfoldable pub fill_oidc : Config → Oidc → Validated
unfolding fill_scopes check_pool
fill_oidc c o =
    if lower o.session_ttl o.session_idle_ttl
    then invalid idle_exceeds_ttl
    else check_pool (record c { oidc = fill_scopes o })

unfoldable pub fill_defaults : Config → Validated
unfolding fill_times fill_oidc check_pool
fill_defaults c = if is_set c.oidc.issuer then fill_oidc c (fill_times c.oidc) else check_pool c

unfoldable pub conclude : Config → Check → Validated
unfolding fill_limits fill_defaults
conclude c none = fill_defaults (fill_limits c)
conclude c (some e) = invalid e

-- `Validate`; the first argument is whether development credentials are allowed.
unfoldable pub validate : Std → Bool → Config → Validated
unfolding checks conclude
validate std dev_allowed c = conclude c (checks std dev_allowed c)
