-- ===== src/Config/Load.antt =====
-- `Load` of backend/internal/config/config.go. Where the source ranges over a map of settings, the
-- order decides which error is reported, not the result; here it is one of its orders.
use kite_rail.Prelude.{◌==◌, Bool, Option, none, some, List, [], ◌∷◌, map, if◌then◌else◌}
use kite_rail.Prelude.Text.{Text, codes, text_eq}
use kite_rail.Prelude.Std.{Std}
use kite_rail.Config.{Config, unreadable, malformed_yaml, malformed_duration, malformed_bool}
use kite_rail.Config.Validate.{Validated, valid, invalid, validate}
use kite_rail.Config.Legacy.{Variables, apply_legacy_env}
use kite_rail.Config.Environment.{
  Source, getenv, load_key_pairs, list_env, then_with, parsed, FileSetting, from_files, comma,
  newline,
}
use kite_rail.Config.Settings.{Getenv, default_config, with_env}

-- The settings that a parser reads.
unfoldable pub with_parsed : Source → Getenv → Config → Validated
unfolding parsed
with_parsed src env c =
    then_with
      (parsed src.parse_duration malformed_duration (env (codes "ELODEA_POLICY_RELOAD_INTERVAL"))
        (λ d. record c { policy_reload_interval = d }) c)
      (λ c.
        then_with
          (parsed src.parse_bool malformed_bool (env (codes "ELODEA_TLS_TERMINATED_UPSTREAM"))
            (λ b. record c { tls_terminated_upstream = b }) c)
          (λ c.
            then_with
              (parsed src.parse_duration malformed_duration (env (codes "ELODEA_SESSION_TTL"))
                (λ d. record c { oidc = record (c.oidc) { session_ttl = d } }) c)
              (λ c.
                parsed src.parse_duration malformed_duration (env (codes "ELODEA_SESSION_IDLE_TTL"))
                  (λ d. record c { oidc = record (c.oidc) { session_idle_ttl = d } }) c)))

abbrev commas_for_newlines : Text → Text
commas_for_newlines = map (λ c. if c == newline then comma else c)

-- The secrets that files may hold.
unfoldable pub secret_files : Std → List FileSetting
unfolding load_key_pairs
secret_files std =
    (codes "ELODEA_POSTGRES_DSN_FILE", λ t c. record c { postgres_dsn = t })
    ∷ (codes "ELODEA_TARGET_AUTH_TOKEN_FILE", λ t c. record c { target_auth_token = t })
    ∷ (
      codes "ELODEA_OIDC_CLIENT_SECRET_FILE",
      λ t c. record c { oidc = record (c.oidc) { client_secret = t } },
    )
    ∷ (
      codes "ELODEA_NOTIFY_SLACK_WEBHOOK_URL_FILE",
      λ t c. record c { notify = record (c.notify) { slack_webhook_url = t } },
    )
    ∷ (
      codes "ELODEA_NOTIFY_WEBHOOK_SECRET_FILE",
      λ t c. record c { notify = record (c.notify) { webhook_secret = t } },
    )
    ∷ (
      codes "ELODEA_SLACK_BOT_TOKEN_FILE",
      λ t c. record c { slack = record (c.slack) { bot_token = t } },
    )
    ∷ (
      codes "ELODEA_SLACK_SIGNING_SECRET_FILE",
      λ t c. record c { slack = record (c.slack) { signing_secret = t } },
    )
    ∷ (
      codes "ELODEA_API_KEYS_FILE",
      λ t c. record c { api_keys = load_key_pairs std (commas_for_newlines t) c.api_keys },
    )
    ∷ (
      codes "ELODEA_REVIEWER_API_KEYS_FILE",
      λ t c. record c {
        reviewer_api_keys = load_key_pairs std (commas_for_newlines t) c.reviewer_api_keys;
      },
    )
    ∷ (
      codes "ELODEA_ADMIN_API_KEYS_FILE",
      λ t c. record c {
        admin_api_keys = load_key_pairs std (commas_for_newlines t) c.admin_api_keys;
      },
    )
    ∷ []

unfoldable pub with_keys : Std → Getenv → Config → Config
unfolding load_key_pairs list_env
with_keys std env c = record c {
  allowed_origins = list_env std (env (codes "ELODEA_ALLOWED_ORIGINS")) c.allowed_origins;
  api_keys = load_key_pairs std (env (codes "ELODEA_API_KEYS")) c.api_keys;
  reviewer_api_keys =
      load_key_pairs std (env (codes "ELODEA_REVIEWER_API_KEYS")) c.reviewer_api_keys;
  admin_api_keys = load_key_pairs std (env (codes "ELODEA_ADMIN_API_KEYS")) c.admin_api_keys;
}

unfoldable pub unmarshalled : Source → Option Text → Validated
unmarshalled src none = invalid unreadable
unmarshalled src (some content) = elim (src.unmarshal content default_config) [
  | none ↦ invalid malformed_yaml
  | some c ↦ valid c
]

unfoldable pub load_file : Source → Text → Validated
unfolding unmarshalled
load_file src path =
    if text_eq path [] then valid default_config else unmarshalled src (src.read_file path)

abbrev pub environment_of : Source → Variables
environment_of src = apply_legacy_env src.to_upper src.variables

abbrev pub dev_allowed : Source → Bool
dev_allowed src =
    text_eq (getenv (environment_of src) (codes "ELODEA_ALLOW_DEV_CREDENTIALS")) (codes "1")

-- `Load`, with the variables of the old prefix applied first.
unfoldable pub load : Std → Source → Text → Validated
unfolding load_file with_env with_parsed from_files secret_files with_keys validate getenv
load std src path =
    let env = environment_of src in
    then_with (load_file src path) (λ c.
      then_with (with_parsed src (getenv env) (with_env std (getenv env) c)) (λ c.
        then_with (from_files src std env (secret_files std) c)
          (λ c. validate std (dev_allowed src) (with_keys std (getenv env) c))))
