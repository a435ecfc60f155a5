-- ===== src/Config/Duties.antt =====
-- Which tokens and identities an accepted configuration keeps apart.
use kite_rail.Prelude.{
  ◌≡◌, ◌≢◌, ◌⊎◌, inl, inr, sym, subst, Bool, true, false, not, ◌&&◌, ◌||◌, none, List, [], ◌∷◌,
  ◌++◌, map, All, Holds, Holds-left, Holds-right, Bool-cases,
}
use kite_rail.Prelude.Text.{Text, codes, text_eq, text_eq_iff, ne_of_text_eq}
use kite_rail.Prelude.Std.{Std}
use kite_rail.Config.{
  Keys, Config, SlackConfig, Check, require, each, member, shared_token, shared_identity,
  slack_any_set, contains_text, slack_not_email, slack_agent, slack_incomplete, slack_no_reviewers,
  slack_no_team, is_set, is_empty,
}
use kite_rail.Config.Validate.{valid, validate}
use kite_rail.Config.Rules.{
  is_production, tokens, identities_of, unseen, distinct_tokens, separate_identities,
  slack_reviewer_check, validate_slack,
}
use kite_rail.Config.Checks.{
  first_error-none, require-not, unless-not, each-none, All-map, not_member,
}
use kite_rail.Config.Passed.{Passed, Same, validate-Passed}

abbrev pub Disjoint : List Text → List Text → Type 0
Disjoint xs ys = (t : Text) → Holds t xs → ¬ Holds t ys

unseen-Disjoint :
    (seen : List Text) (keys : Keys) → unseen seen keys ≡ none → Disjoint (tokens keys) seen
unfolding unseen
unseen-Disjoint seen [] h t m there = absurd m
unseen-Disjoint seen ((token, id) ∷ rest) h t (inl here) there =
    let p =
      first_error-none
        (require (not (member seen token)) shared_token ∷ unseen (token ∷ seen) rest ∷ []) h in
    not_member seen token (require-not _ shared_token p.0)
      (subst (λ x. Holds x seen) (sym here) there)
unseen-Disjoint seen ((token, id) ∷ rest) h t (inr m) there =
    let p =
      first_error-none
        (require (not (member seen token)) shared_token ∷ unseen (token ∷ seen) rest ∷ []) h in
    unseen-Disjoint (token ∷ seen) rest p.1.0 t m (inr there)

pub separate-Disjoint :
    (agents keys : Keys)
    → All
        (λ (k : Text × Text).
          require (not (member (identities_of agents) k.1)) shared_identity ≡ none)
        keys
    → Disjoint (identities_of keys) (identities_of agents)
separate-Disjoint agents [] h t m there = absurd m
separate-Disjoint agents (k ∷ rest) h t (inl here) there =
    not_member (identities_of agents) k.1 (require-not _ shared_identity h.0)
      (subst (λ x. Holds x (identities_of agents)) (sym here) there)
separate-Disjoint agents (k ∷ rest) h t (inr m) there = separate-Disjoint agents rest h.1 t m there

tokens_apart :
    (c : Config)
    → distinct_tokens c ≡ none
    → Disjoint (tokens c.reviewer_api_keys) (tokens c.api_keys)
      × Disjoint (tokens c.admin_api_keys) (tokens c.reviewer_api_keys ++ tokens c.api_keys)
unfolding distinct_tokens
tokens_apart c h =
    let p =
      first_error-none
        (unseen (tokens c.api_keys) c.reviewer_api_keys
          ∷ unseen (tokens c.reviewer_api_keys ++ tokens c.api_keys) c.admin_api_keys
          ∷ [])
        h in
    (
      unseen-Disjoint (tokens c.api_keys) c.reviewer_api_keys p.0,
      unseen-Disjoint (tokens c.reviewer_api_keys ++ tokens c.api_keys) c.admin_api_keys p.1.0,
    )

abbrev identity_check : List Text → Text × Text → Check
identity_check agents k = require (not (member agents k.1)) shared_identity

identities_apart :
    (c : Config)
    → separate_identities c ≡ none
    → Disjoint (identities_of c.reviewer_api_keys) (identities_of c.api_keys)
      × Disjoint (identities_of c.admin_api_keys) (identities_of c.api_keys)
unfolding separate_identities
identities_apart c h =
    let check = identity_check (identities_of c.api_keys) in
    let p =
      first_error-none (each check c.reviewer_api_keys ∷ each check c.admin_api_keys ∷ []) h in
    (
      separate-Disjoint c.api_keys c.reviewer_api_keys (each-none check c.reviewer_api_keys p.0),
      separate-Disjoint c.api_keys c.admin_api_keys (each-none check c.admin_api_keys p.1.0),
    )

-- A reviewer of Slack is an agent's identity in no case.
abbrev pub NotAgent : Std → Config → Text → Type 0
NotAgent std c r = ¬ Holds (std.to_lower r) (map std.to_lower (identities_of c.api_keys))

reviewer-NotAgent :
    (std : Std) (c : Config) (r : Text)
    → slack_reviewer_check std c.api_keys r ≡ none
    → NotAgent std c r
unfolding slack_reviewer_check
reviewer-NotAgent std c r h =
    let agents = map std.to_lower (identities_of c.api_keys) in
    let p =
      first_error-none
        (require (contains_text (codes "@") r) slack_not_email
          ∷ require (not (member agents (std.to_lower r))) slack_agent
          ∷ [])
        h in
    not_member agents (std.to_lower r) (require-not _ slack_agent p.1.0)

empty_All : {A : Type 0} (P : A → Type 0) (xs : List A) → not (is_empty xs) ≡ false → All P xs
empty_All P [] h = tt
empty_All P (x ∷ xs) h = cc

last_of : (a b : Bool) → (a || b) ≡ false → b ≡ false
last_of true b h = cc
last_of false b h = h

unset_reviewers :
    (P : Text → Type 0) (s : SlackConfig) → slack_any_set s ≡ false → All P s.reviewers
unfolding slack_any_set
unset_reviewers P s h = empty_All P s.reviewers (
    last_of
      (is_set s.bot_token || is_set s.signing_secret || is_set s.channel_id || is_set s.team_id)
      (not (is_empty s.reviewers)) h)

abbrev slack_checks : Std → Config → List Check
slack_checks std c =
    require (is_set c.slack.bot_token && is_set c.slack.signing_secret && is_set c.slack.channel_id)
      slack_incomplete
    ∷ require (not (is_empty c.slack.reviewers)) slack_no_reviewers
    ∷ each (slack_reviewer_check std c.api_keys) c.slack.reviewers
    ∷ require (not (is_production c && text_eq c.slack.team_id [])) slack_no_team
    ∷ []

reviewers_apart :
    (std : Std) (c : Config) → validate_slack std c ≡ none → All (NotAgent std c) c.slack.reviewers
unfolding validate_slack
reviewers_apart std c h = elim (Bool-cases (slack_any_set c.slack)) [
  | inl on ↦
      let p = first_error-none (slack_checks std c) (unless-not (slack_any_set c.slack) _ h on) in
      All-map (λ r. slack_reviewer_check std c.api_keys r ≡ none) (NotAgent std c) c.slack.reviewers
        (reviewer-NotAgent std c)
        (each-none (slack_reviewer_check std c.api_keys) c.slack.reviewers p.1.1.0)
  | inr off ↦ unset_reviewers (NotAgent std c) c.slack off
]

-- The Slack app, which trims its reviewers, meets no agent's identity in this one, in any case; unless
-- it has space around it.
abbrev pub SlackApart : Std → Config → Text → Type 0
SlackApart std c r =
    (std.trim_space r ≢ r)
    ⊎ ¬ Holds (std.to_lower (std.trim_space r)) (map std.to_lower (identities_of c.api_keys))

NotAgent-SlackApart : (std : Std) (c : Config) (r : Text) → NotAgent std c r → SlackApart std c r
NotAgent-SlackApart std c r h = elim (Bool-cases (text_eq (std.trim_space r) r)) [
  | inr spaced ↦ inl (ne_of_text_eq spaced)
  | inl trimmed ↦ inr (
      subst (λ t. ¬ Holds (std.to_lower t) (map std.to_lower (identities_of c.api_keys)))
        (sym ((text_eq_iff (std.trim_space r) r).0 trimmed)) h)
]

-- Tokens of different roles, and identities of agents and of those who review.
pub record Apart (std : Std) (c : Config) : Type 0 where
  pub reviewer_tokens : Disjoint (tokens c.reviewer_api_keys) (tokens c.api_keys)
  pub admin_tokens : Disjoint (tokens c.admin_api_keys) (tokens c.api_keys)
  pub admin_reviewer_tokens : Disjoint (tokens c.admin_api_keys) (tokens c.reviewer_api_keys)
  pub reviewers : Disjoint (identities_of c.reviewer_api_keys) (identities_of c.api_keys)
  pub admins : Disjoint (identities_of c.admin_api_keys) (identities_of c.api_keys)
  pub slack_reviewers : All (SlackApart std c) c.slack.reviewers

checked-Apart :
    (std : Std) (dev_allowed : Bool) (c : Config) → Passed std dev_allowed c → Apart std c
checked-Apart std dev_allowed c p =
    let t = tokens_apart c p.tokens in
    let i = identities_apart c p.identities in
    record {
      reviewer_tokens = t.0;
      admin_tokens =
          λ x m n. t.1 x m (Holds-right (tokens c.reviewer_api_keys) (tokens c.api_keys) x n);
      admin_reviewer_tokens =
          λ x m n. t.1 x m (Holds-left (tokens c.reviewer_api_keys) (tokens c.api_keys) x n);
      reviewers = i.0;
      admins = i.1;
      slack_reviewers =
          All-map (NotAgent std c) (SlackApart std c) c.slack.reviewers (NotAgent-SlackApart std c)
            (reviewers_apart std c p.slack);
    }

Apart-Same : (std : Std) (c c' : Config) → Same c c' → Apart std c → Apart std c'
Apart-Same std c c'
      (agents, reviewers, admins, origins, environment, slack, notify, cert, key, upstream) s =
    record {
      reviewer_tokens = rw (reviewers, agents) s.reviewer_tokens;
      admin_tokens = rw (admins, agents) s.admin_tokens;
      admin_reviewer_tokens = rw (admins, reviewers) s.admin_reviewer_tokens;
      reviewers = rw (reviewers, agents) s.reviewers;
      admins = rw (admins, agents) s.admins;
      slack_reviewers = rw (slack, agents) s.slack_reviewers;
    }

-- In a configuration that `validate` returns, defaults included, no token of a reviewer or admin key
-- is one of an agent key or of the other role, and no identity of a reviewer or admin key equals one
-- of an agent key letter for letter. A reviewer of Slack is no agent's identity when both are compared
-- as the Slack app compares them, trimmed and in lower case, unless it was written with space around.
pub validate-Apart :
    (std : Std) (dev_allowed : Bool) (c c' : Config)
    → validate std dev_allowed c ≡ valid c'
    → Apart std c'
validate-Apart std dev_allowed c c' h =
    let (passed, same, done) = validate-Passed std dev_allowed c c' h in
    Apart-Same std c c' same (checked-Apart std dev_allowed c passed)
