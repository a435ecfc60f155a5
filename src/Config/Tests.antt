-- ===== src/Config/Tests.antt =====
-- A production start, from the variables and a key file to the configuration.
use kite_rail.Prelude.{
  ◌≡◌, ◌≢◌, inl, inr, refl, true, false, none, some, [], ◌∷◌, map, Holds, if◌then◌else◌,
}
use kite_rail.Prelude.Text.{codes, text_eq, has_prefix}
use kite_rail.Prelude.Headers
use kite_rail.Prelude.Std.{Std}
use kite_rail.Config.{Config, member}
use kite_rail.Config.Validate.{Validated, valid, invalid}
use kite_rail.Config.Rules.{is_production}
use kite_rail.Config.Legacy.{
  Variables, lookup_env, apply_legacy_env, legacy_value, or_else, apply_legacy_env-legacy_value,
}
use kite_rail.Config.Environment.{Source, getenv}
use kite_rail.Config.Load.{environment_of, dev_allowed, secret_files, load}
use kite_rail.Config.Settings.{default_config}
use kite_rail.Config.Secrets.{load-Unreadable}
use kite_rail.Config.Duties.{Apart}
use kite_rail.Config.Production.{Hardened}
use kite_rail.Config.Defaults.{Bounded}
use kite_rail.Config.Loaded.{load-Apart, load-Hardened, load-Bounded}

abbrev std : Std
std = record {
  to_lower = map Headers.to_lower;
  trim_space = λ s. s;
  parse_url = λ s. some (record {
    scheme = codes "https";
    host = codes "idp.example.com";
    hostname = codes "idp.example.com";
    has_user = false;
    path = [];
  });
  set_query = λ t k v. t;
}

abbrev variables : Variables
variables =
    (codes "KITERAIL_TARGET_URL", codes "https://mcp.internal")
    ∷ (codes "ELODEA_ENVIRONMENT", codes "production")
    ∷ (codes "ELODEA_POSTGRES_DSN", codes "postgres://db")
    ∷ (codes "ELODEA_ALLOWED_ORIGINS", codes "https://console")
    ∷ (codes "ELODEA_TLS_TERMINATED_UPSTREAM", codes "true")
    ∷ (codes "ELODEA_API_KEYS", codes "aaaaaaaaaaaaaaaaaaaaaaaaaaaa:billing")
    ∷ (codes "ELODEA_REVIEWER_API_KEYS_FILE", codes "/run/keys")
    ∷ (codes "ELODEA_OIDC_ISSUER", codes "https://idp")
    ∷ (codes "ELODEA_OIDC_CLIENT_ID", codes "elodea")
    ∷ (codes "ELODEA_OIDC_CLIENT_SECRET", codes "s")
    ∷ (codes "ELODEA_OIDC_REDIRECT_URL", codes "https://elodea/auth")
    ∷ (codes "ELODEA_OIDC_ADMIN_GROUPS", codes "admins")
    ∷ []

abbrev source : Source
source = record {
  variables = variables;
  read_file = λ path.
      if text_eq path (codes "/run/keys")
      then some (codes "bbbbbbbbbbbbbbbbbbbbbbbbbbbb:ada")
      else none;
  unmarshal = λ t c. some c;
  parse_duration = λ t. none;
  parse_bool = λ t. some true;
  to_upper = λ t. t;
}

abbrev config_of : Validated → Config
config_of (valid c) = c
config_of (invalid e) = default_config

abbrev loaded : Config
loaded = config_of (load std source [])

loaded_lem : load std source [] ≡ valid loaded
unfolding load text_eq apply_legacy_env has_prefix Headers.to_lower
loaded_lem = refl

load-Apart_example : Apart std loaded
load-Apart_example = load-Apart std source [] loaded loaded_lem

load-Bounded_example : Bounded loaded
load-Bounded_example = load-Bounded std source [] loaded loaded_lem

strict : dev_allowed source ≡ false
unfolding getenv text_eq apply_legacy_env has_prefix
strict = refl

for_production : is_production loaded ≡ true
unfolding load text_eq apply_legacy_env has_prefix Headers.to_lower
for_production = refl

load-Hardened_example : (member loaded.allowed_origins (codes "*") ≡ false) × Hardened loaded
load-Hardened_example = load-Hardened std source [] loaded loaded_lem strict for_production

-- The same start without the key file.
abbrev broken : Source
broken = record source { read_file = λ path. none }

reviewer_keys-Holds :
    Holds (codes "ELODEA_REVIEWER_API_KEYS_FILE") (map (λ f. f.0) (secret_files std))
unfolding secret_files
reviewer_keys-Holds = inr (inr (inr (inr (inr (inr (inr (inr (inl refl))))))))

path_set : getenv (environment_of broken) (codes "ELODEA_REVIEWER_API_KEYS_FILE") ≢ []
unfolding getenv text_eq apply_legacy_env has_prefix
path_set h = cc

load-Unreadable_example : load std broken [] ≢ valid default_config
load-Unreadable_example =
    load-Unreadable std broken [] (codes "ELODEA_REVIEWER_API_KEYS_FILE") reviewer_keys-Holds
      (path_set, refl) default_config

apply_legacy_env-legacy_value_example :
    lookup_env (codes "ELODEA_TARGET_URL") (apply_legacy_env (λ t. t) variables)
    ≡ or_else
        (λ t. t)
        (lookup_env (codes "ELODEA_TARGET_URL") variables)
        (legacy_value (λ t. t) (codes "ELODEA_TARGET_URL") variables)
apply_legacy_env-legacy_value_example =
    apply_legacy_env-legacy_value (λ t. t) (codes "ELODEA_TARGET_URL") variables
