-- ===== src/Slack/Service.antt =====
-- The handler of interactions, the decision behind it, the emails of Slack users, and the update of
-- the message, in backend/internal/slackapp/slackapp.go.
use kite_rail.Prelude.{
  ℕ, ◌+◌, true, false, not, ◌&&◌, Option, none, some, List, [], ◌∷◌, ltb, if◌then◌else◌,
}
use kite_rail.Prelude.Text.{Text, codes, text_eq}
use kite_rail.Prelude.Http.{Method, is_post}
use kite_rail.Prelude.Headers.{Headers}
use kite_rail.Prelude.Headers
use kite_rail.Prelude.Std.{Url, Std}
use kite_rail.Quarantine.Handler.{Decision, approve_held, deny_held}
use kite_rail.Quarantine.Handler
use kite_rail.Slack.{
  Config, reviewer_set, contains, email_cache_ttl, verify, Block, Action, Interaction, Outcome,
  unconfirmed, not_reviewer, is_resolved, outcome_of, kept_blocks, slack_host,
}
use kite_rail.Slack.World.{
  UserInfo, user_info, CachedEmail, Env, M, pure, ◌>>=◌, ◌>>◌, ask, on_inner, cached, remember,
  post_update,
}

-- What the app is made of, with the functions of the packages that it calls.
pub record App : Type 0 where
  pub cfg : Config
  pub std : Std
  pub hmac : Text → Text → Text
  -- The `payload` of the form in a body, and the interaction in it; `none` is an error.
  pub parse_form : Text → Option Text
  pub parse_interaction : Text → Option Interaction
  pub decider : Handler.Handler

pub record Request : Type 0 where
  pub method : Method
  pub headers : Headers
  -- `none`, if the body exceeds the limit.
  pub body : Option Text

abbrev pub action_approve : Text
action_approve = codes "elodea_approve"

abbrev pub action_deny : Text
action_deny = codes "elodea_deny"

-- The email of an active account that is no bot's.
unfoldable pub confirmed : Std → UserInfo → Option Text
confirmed std (user_info true false false email) =
    if text_eq email [] then none else some (std.to_lower email)
confirmed std _ = none

module _ (env : Env) (app : App) where
  unfoldable pub keep_email : Text → Option Text → M (Option Text)
  unfolding remember
  keep_email user none = pure none
  keep_email user (some email) = do
    now ← ask env.now
    remember (record { user = user; email = email; expires = now + email_cache_ttl })
    pure (some email)

  unfoldable pub ask_slack : Text → M (Option Text)
  unfolding keep_email
  ask_slack user = do
    info ← ask (λ n. env.users_info n user)
    keep_email user (confirmed app.std info)

  -- The cached email, unless it has expired.
  unfoldable pub from_cache : Text → Option CachedEmail → M (Option Text)
  unfolding ask_slack
  from_cache user none = ask_slack user
  from_cache user (some c) = do
    now ← ask env.now
    if ltb now c.expires then pure (some c.email) else ask_slack user

  unfoldable pub email : Text → M (Option Text)
  unfolding from_cache cached
  email user s = if text_eq user [] then (none, s) else from_cache user (cached user s.emails) s

  unfoldable pub decide_as : Text → Text → Option Text → M Outcome
  decide_as action_id id none = pure unconfirmed
  decide_as action_id id (some email) =
      if not (contains (reviewer_set app.std app.cfg.reviewers) email)
      then pure (not_reviewer email)
      else if text_eq action_id action_approve
      then on_inner (approve_held env.inner app.decider id email)
        >>= (λ d. pure (outcome_of true email d))
      else on_inner (deny_held env.inner app.decider id email (codes "Denied in Slack"))
        >>= (λ d. pure (outcome_of false email d))

  unfoldable pub decide : Text → Text → Text → M Outcome
  unfolding decide_as
  decide user action_id id = email user >>= decide_as action_id id

  unfoldable pub respond_to : Text → Outcome → List Block → Option Url → M (Unit {0})
  respond_to url outcome blocks none = pure tt
  respond_to url outcome blocks (some u) =
      if slack_host u
      then post_update (record {
        url = url;
        outcome = outcome;
        blocks = if is_resolved outcome then some blocks else none;
      })
      else pure tt

  unfoldable pub respond : Text → Outcome → List Block → M (Unit {0})
  unfolding respond_to
  respond url outcome blocks = respond_to url outcome blocks (app.std.parse_url url)

  -- The decision and the update of the message; the answer is 200 in any case.
  unfoldable pub act : Interaction → Action → M ℕ
  unfolding respond
  act i a = do
    outcome ← decide i.user a.action_id a.value
    if text_eq i.response_url []
        then pure 200
        else respond i.response_url outcome (kept_blocks outcome i.blocks) >> pure 200

  unfoldable pub with_actions : Interaction → List Action → M ℕ
  unfolding act
  with_actions i [] = pure 200
  with_actions i (a ∷ rest) =
      if not (text_eq i.type (codes "block_actions"))
      then pure 200
      else if not (text_eq a.action_id action_approve) && not (text_eq a.action_id action_deny)
      then pure 200
      else act i a

  unfoldable pub with_interaction : Option Interaction → M ℕ
  unfolding with_actions
  with_interaction none = pure 400
  with_interaction (some i) =
      if not (text_eq app.cfg.team_id []) && not (text_eq i.team app.cfg.team_id)
      then pure 403
      else with_actions i i.actions

  unfoldable pub with_form : Option Text → M ℕ
  unfolding with_interaction
  with_form none = pure 400
  with_form (some payload) = with_interaction (app.parse_interaction payload)

  unfoldable pub with_body : Headers → Option Text → M ℕ
  unfolding with_form
  with_body headers none = pure 413
  with_body headers (some raw) = do
    now ← ask env.now
    if verify app.hmac app.cfg now (Headers.get (codes "X-Slack-Request-Timestamp") headers)
          (Headers.get (codes "X-Slack-Signature") headers) raw
        then with_form (app.parse_form raw)
        else pure 401

  -- `ServeHTTP`; the result is the status.
  unfoldable pub serve_http : Request → M ℕ
  unfolding with_body
  serve_http r = if is_post r.method then with_body r.headers r.body else pure 405

  unfoldable pub serve_all : List Request → M (Unit {0})
  unfolding serve_http
  serve_all [] = pure tt
  serve_all (r ∷ rest) = serve_http r >>= (λ _. serve_all rest)
