-- ===== src/Slack/Decisions.antt =====
-- Who decides a held action by a button.
use kite_rail.Prelude.{
  ◌≡◌, ◌⊎◌, inl, inr, refl, sym, subst, Bool, true, false, Option, none, some, List, [], ◌∷◌, All,
  any, Bool-cases,
}
use kite_rail.Prelude.Text.{Text, codes, text_eq, text_eq_iff}
use kite_rail.Prelude.Std.{Url, Std}
use kite_rail.Quarantine.World.{World}
use kite_rail.Quarantine.Handler.{Decision}
use kite_rail.Quarantine.Handler.Decisions.{
  Verdict, approval, denial, Decided, decide_held, decide_held-Decided,
}
use kite_rail.Slack.{
  reviewer_set, contains, Block, Action, Interaction, Outcome, outcome_of, slack_host, kept_blocks,
}
use kite_rail.Slack.World.{AppState, Env, post_update}
use kite_rail.Slack.Service.{
  App, action_approve, action_deny, email, decide_as, decide, respond_to, respond, act,
}
use kite_rail.Slack.Emails.{Vouched, Known, Kept, email-Kept}

-- The email is a configured one, up to case and surrounding space.
abbrev pub Reviewer : Std → List Text → Text → Type 0
Reviewer std [] address = ⊥
Reviewer std (r ∷ rest) address =
    (std.to_lower (std.trim_space r) ≡ address) ⊎ Reviewer std rest address

contains-Reviewer :
    (std : Std) (rs : List Text) (address : Text)
    → contains (reviewer_set std rs) address ≡ true
    → Reviewer std rs address
unfolding reviewer_set
contains-Reviewer std [] address h = cc
contains-Reviewer std (r ∷ rest) address h =
    elim (Bool-cases (text_eq (std.to_lower (std.trim_space r)) [])) [
      | inl empty ↦ inr (contains-Reviewer std rest address (rw empty at h))
      | inr given ↦ elim (Bool-cases (text_eq (std.to_lower (std.trim_space r)) address)) [
        | inl here ↦ inl ((text_eq_iff _ _).0 here)
        | inr other ↦ inr (contains-Reviewer std rest address (rw (given, other, any) at h))
      ]
    ]

-- The button and the verdict that it stands for.
abbrev pub Means : Text → Verdict → Type 0
Means action_id v =
    ((action_id ≡ action_approve) × (v ≡ approval))
    ⊎ ((action_id ≡ action_deny) × (v ≡ denial (codes "Denied in Slack")))

abbrev pub is_approval : Verdict → Bool
is_approval approval = true
is_approval (denial reason) = false

module _ (env : Env) (app : App) where
  -- A reviewer whom Slack has confirmed has decided the action by the button, and the outcome is that
  -- of the decision.
  abbrev pub DecidedBy : Text → Text → Text → AppState → Outcome → World → Type 0
  DecidedBy user action_id id s outcome w =
      (address : Text) × (v : Verdict) × (d : Decision) × Known env app.std user address s.calls
      × Reviewer app.std app.cfg.reviewers address
      × Means action_id v
      × Decided app.decider.uuid app.decider.has_ledger v id address s.inner (d, w)
      × (outcome ≡ outcome_of (is_approval v) address d)

  abbrev Result : Text → Text → Text → AppState → Outcome × AppState → Type 0
  Result user action_id id s (outcome, s') =
      All (Vouched env app.std) s'.emails
      × ((s'.inner ≡ s.inner) ⊎ DecidedBy user action_id id s outcome s'.inner)

  decide_as-Result :
      (user action_id id : Text) (o : Option Text) (s s1 : AppState)
      → Kept env app s.calls user s (o, s1)
      → (text_eq action_id action_approve ≡ true) ⊎ (text_eq action_id action_deny ≡ true)
      → Result user action_id id s (decide_as env app action_id id o s1)
  unfolding decide_as
  decide_as-Result user action_id id none s s1 (h, same, quiet, known) button = (h, inl same)
  decide_as-Result user action_id id (some address) s s1 (h, same, quiet, known) button =
      elim (Bool-cases (contains (reviewer_set app.std app.cfg.reviewers) address)) [
        | inr stranger ↦ rw stranger (h, inl same)
        | inl reviewer ↦ rw reviewer (elim (Bool-cases (text_eq action_id action_approve)) [
          | inl yes_ ↦ rw yes_ (
            h,
            inr (
              address,
              approval,
              _,
              known address refl,
              contains-Reviewer _ _ _ reviewer,
              inl ((text_eq_iff _ _).0 yes_, refl),
              subst
                  (λ w.
                    Decided app.decider.uuid app.decider.has_ledger approval id address w
                      (decide_held env.inner app.decider approval id address s1.inner))
                  same (decide_held-Decided env.inner app.decider approval id address s1.inner),
              refl,
            ),
          )
          | inr other ↦ rw other (
            h,
            inr (
              address,
              denial (codes "Denied in Slack"),
              _,
              known address refl,
              contains-Reviewer _ _ _ reviewer,
              inr (denying other button, refl),
              subst
                  (λ w.
                    Decided app.decider.uuid app.decider.has_ledger
                      (denial (codes "Denied in Slack")) id address w
                      (decide_held env.inner app.decider (denial (codes "Denied in Slack")) id
                        address s1.inner))
                  same
                  (decide_held-Decided env.inner app.decider (denial (codes "Denied in Slack")) id
                    address s1.inner),
              refl,
            ),
          )
        ])
      ]
    where
      denying :
          text_eq action_id action_approve ≡ false
          → (text_eq action_id action_approve ≡ true) ⊎ (text_eq action_id action_deny ≡ true)
          → action_id ≡ action_deny
      denying other (inl approve) = cc
      denying other (inr deny) = (text_eq_iff _ _).0 deny

  decide-Result :
      (user action_id id : Text) (s : AppState)
      → All (Vouched env app.std) s.emails
      → (text_eq action_id action_approve ≡ true) ⊎ (text_eq action_id action_deny ≡ true)
      → Result user action_id id s (decide env app user action_id id s)
  unfolding decide
  decide-Result user action_id id s h button =
      decide_as-Result user action_id id (email env app user s).0 s (email env app user s).1
        (email-Kept env app user s h) button

  -- The update of a message touches neither the cache nor the held actions.
  respond-quiet :
      (url : Text) (o : Outcome) (blocks : List Block) (s : AppState)
      → ((respond env app url o blocks s).1.emails ≡ s.emails)
        × ((respond env app url o blocks s).1.inner ≡ s.inner)
  unfolding respond post_update
  respond-quiet url o blocks s = go (app.std.parse_url url)
    where
      go :
          (u : Option Url)
          → ((respond_to env app url o blocks u s).1.emails ≡ s.emails)
            × ((respond_to env app url o blocks u s).1.inner ≡ s.inner)
      go none = (refl, refl)
      go (some u) = elim (Bool-cases (slack_host u)) [
        | inl slack ↦ rw slack (refl, refl)
        | inr foreign ↦ rw foreign (refl, refl)
      ]

  abbrev pub Decides : Interaction → Action → AppState → World → Type 0
  Decides i a s w =
      (w ≡ s.inner) ⊎ ((outcome : Outcome) × DecidedBy i.user a.action_id a.value s outcome w)

  concluded :
      (i : Interaction) (a : Action) (s : AppState) (outcome : Outcome) (w : World)
      → (w ≡ s.inner) ⊎ DecidedBy i.user a.action_id a.value s outcome w
      → Decides i a s w
  concluded i a s outcome w (inl same) = inl same
  concluded i a s outcome w (inr by) = inr (outcome, by)

  abbrev pub Acted : Interaction → Action → AppState → AppState → Type 0
  Acted i a s s' = All (Vouched env app.std) s'.emails × Decides i a s s'.inner

  pub act-Acted :
      (i : Interaction) (a : Action) (s : AppState)
      → All (Vouched env app.std) s.emails
      → (text_eq a.action_id action_approve ≡ true) ⊎ (text_eq a.action_id action_deny ≡ true)
      → Acted i a s (act env app i a s).1
  unfolding act
  act-Acted i a s h button =
      let d = decide env app i.user a.action_id a.value s in
      let (vouched, decided) = decide-Result i.user a.action_id a.value s h button in
      let told = concluded i a s d.0 d.1.inner decided in
      elim (Bool-cases (text_eq i.response_url [])) [
        | inl silent ↦ rw silent (vouched, told)
        | inr asked ↦
            let quiet = respond-quiet i.response_url d.0 (kept_blocks d.0 i.blocks) d.1 in
            rw asked (
              subst (All (Vouched env app.std)) (sym quiet.0) vouched,
              subst (Decides i a s) (sym quiet.1) told,
            )
      ]
