-- ===== src/Slack/Authorised.antt =====
-- Which interactions decide a held action.
use kite_rail.Prelude.{◌+◌, ◌≡◌, ◌⊎◌, true, Option, some, List, [], ◌∷◌, All}
use kite_rail.Prelude.Text.{Text, codes}
use kite_rail.Prelude.Http.{is_post}
use kite_rail.Prelude.Headers.{Headers}
use kite_rail.Prelude.Headers
use kite_rail.Slack.{Action, Interaction, Outcome}
use kite_rail.Slack.World.{AppState, Env}
use kite_rail.Slack.Service.{App, Request}
use kite_rail.Slack.Signature.{IsSigned}
use kite_rail.Slack.Decisions.{DecidedBy}
use kite_rail.Slack.Emails.{Vouched}

module _ (env : Env) (app : App) where
  -- The interaction that an accepted body holds, with its first button.
  abbrev pub Clicked : Option Text → Interaction → Action → Type 0
  Clicked payload i a =
      (form : Text) × (rest : List Action) × (payload ≡ some form)
      × (app.parse_interaction form ≡ some i)
      × ((app.cfg.team_id ≡ []) ⊎ (i.team ≡ app.cfg.team_id))
      × (i.type ≡ codes "block_actions")
      × (i.actions ≡ a ∷ rest)

  abbrev Outcomes : Option Text → AppState → AppState → Type 0
  Outcomes payload s s' =
      All (Vouched env app.std) s'.emails
      × ((s'.inner ≡ s.inner)
          ⊎ ((i : Interaction) × (a : Action) × (outcome : Outcome) × Clicked payload i a
              × DecidedBy env app i.user a.action_id a.value s outcome s'.inner))

  -- The held actions are as before, or the request is a signed one from the workspace, and a reviewer
  -- has decided by its button.
  abbrev pub Authorised : Request → AppState → AppState → Type 0
  Authorised r s s' =
      (s'.inner ≡ s.inner)
      ⊎ ((raw : Text) × (i : Interaction) × (a : Action) × (outcome : Outcome) × (is_post r.method
            ≡ true)
          × (r.body ≡ some raw)
          × IsSigned app (env.now s.calls) r.headers raw
          × Clicked (app.parse_form raw) i a
          × DecidedBy env app i.user a.action_id a.value (record s { calls = s.calls + 1 }) outcome
              s'.inner)
