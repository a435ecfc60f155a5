-- ===== src/Slack.antt =====
-- Approval and denial of held actions from Slack, backend/internal/slackapp/slackapp.go: what does
-- not depend on state. The decoding of the form and of its JSON are parameters; the texts of the
-- messages and logging are left out.
pub mod World
pub mod Service
pub mod Emails
pub mod Signature
pub mod Decisions
pub mod Authorised
mod Tests
use kite_rail.Prelude.{
  ℕ, ◌+◌, ◌*◌, Bool, true, false, not, ◌&&◌, ◌||◌, Option, none, some, List, [], ◌∷◌, ◌++◌, any,
  leb, ltb, filter, if◌then◌else◌,
}
use kite_rail.Prelude.Text.{Text, codes, text_eq, strip_suffix, hex}
use kite_rail.Prelude.Numbers.{Signed, nonneg, negative, parse_int}
use kite_rail.Prelude.Std.{Url, Std}
use kite_rail.Quarantine.Store.{StoreError, already_resolved, not_found}
use kite_rail.Quarantine.Handler.{Decision, done, refused, store_error, audit_unavailable}

pub record Config : Type 0 where
  pub signing_secret : Text
  -- Empty, if any workspace is accepted.
  pub team_id : Text
  pub reviewers : List Text

-- The set of reviewers that `New` makes of the configured ones.
unfoldable pub reviewer_set : Std → List Text → List Text
reviewer_set std [] = []
reviewer_set std (r ∷ rest) =
    let name = std.to_lower (std.trim_space r) in
    let others = reviewer_set std rest in if text_eq name [] then others else name ∷ others

abbrev pub contains : List Text → Text → Bool
contains xs x = any (λ y. text_eq y x) xs

-- `maxSignatureAge` and `emailCacheTTL`, in nanoseconds like all times.
abbrev pub second : ℕ
second = 1000000000

abbrev pub max_signature_age : ℕ
max_signature_age = 300000000000

abbrev pub email_cache_ttl : ℕ
email_cache_ttl = 600000000000

-- `Sign`, for an HMAC-SHA-256 of a key and a message.
unfoldable pub sign : (Text → Text → Text) → Text → Text → Text → Text
sign hmac secret timestamp body =
    codes "v0=" ++ hex (hmac secret ((codes "v0:" ++ (timestamp ++ codes ":")) ++ body))

-- Whether a time of so many seconds since the epoch lies within five minutes of now.
unfoldable pub is_recent : ℕ → Signed → Bool
is_recent now (nonneg ts) =
    not (ltb (ts * second + max_signature_age) now)
    && not (ltb (now + max_signature_age) (ts * second))
is_recent now (negative n) = not (ltb max_signature_age (now + (n + 1) * second))

unfoldable pub parsed_recent : ℕ → Option Signed → Bool
unfolding is_recent
parsed_recent now none = false
parsed_recent now (some ts) = is_recent now ts

unfoldable pub verify : (Text → Text → Text) → Config → ℕ → Text → Text → Text → Bool
unfolding parsed_recent sign
verify hmac cfg now timestamp signature body =
    parsed_recent now (parse_int timestamp)
    && not (text_eq cfg.signing_secret [])
    && text_eq (sign hmac cfg.signing_secret timestamp body) signature

-- A block of the message, by its `block_id`, if that reads as JSON.
pub record Block : Type 0 where
  pub block_id : Option Text
  pub raw : Text

pub record Action : Type 0 where
  pub action_id : Text
  pub value : Text

pub record Interaction : Type 0 where
  pub type : Text
  pub team : Text
  pub user : Text
  pub response_url : Text
  pub actions : List Action
  pub blocks : List Block

-- What happened; the texts for the thread are left out.
pub data Outcome : Type 0 where
  unconfirmed : Outcome
  not_reviewer : Text → Outcome
  approved_by denied_by : Text → Outcome
  already_decided missing : Outcome
  unaudited : Outcome
  failed : Outcome

-- Whether the outcome replaces the buttons.
unfoldable pub is_resolved : Outcome → Bool
is_resolved unconfirmed = false
is_resolved (not_reviewer email) = false
is_resolved failed = false
is_resolved _ = true

-- The outcome of a decision by a reviewer; true is an approval.
unfoldable pub outcome_of : Bool → Text → Decision → Outcome
outcome_of true email done = approved_by email
outcome_of false email done = denied_by email
outcome_of approve email (refused (store_error already_resolved)) = already_decided
outcome_of approve email (refused (store_error not_found)) = missing
outcome_of approve email (refused audit_unavailable) = unaudited
outcome_of approve email (refused (store_error e)) = failed

abbrev pub is_decision_block : Option Text → Bool
is_decision_block none = false
is_decision_block (some id) = text_eq id (codes "elodea_decision")

-- The blocks that stay, before the one that reports the outcome.
unfoldable pub kept_blocks : Outcome → List Block → List Block
unfolding is_resolved
kept_blocks o = filter (λ b. not (is_resolved o && is_decision_block b.block_id))

abbrev is_some : Option Text → Bool
is_some none = false
is_some (some s) = true

unfoldable pub in_domain : Text → Text → Bool
in_domain host domain = text_eq host domain || is_some (strip_suffix (codes "." ++ domain) host)

-- `slackHost`
unfoldable pub slack_host : Url → Bool
unfolding in_domain
slack_host u =
    text_eq u.scheme (codes "https")
    && (in_domain u.hostname (codes "slack.com") || in_domain u.hostname (codes "slack-gov.com"))
