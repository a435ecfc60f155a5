-- ===== src/Slack/World.antt =====
-- The state of the Slack app: the emails that it has cached, the updates of messages that it has
-- sent, and the world that the reviewer API acts on. The environment answers by the number of a call.
use kite_rail.Prelude.{ℕ, ◌+◌, Bool, Option, none, some, List, [], ◌∷◌, if◌then◌else◌}
use kite_rail.Prelude.Text.{Text, text_eq}
use kite_rail.Slack.{Outcome, Block}
use kite_rail.Quarantine.World

-- The answer to `users.info`: an error of the call, or whether it is ok, whether the account is
-- deleted or a bot's, and its email.
pub data UserInfo : Type 0 where
  call_failed : UserInfo
  user_info : Bool → Bool → Bool → Text → UserInfo

pub record CachedEmail : Type 0 where
  pub user : Text
  pub email : Text
  pub expires : ℕ

-- A message that was posted to a `response_url`, and the blocks before the outcome; none, if the
-- buttons stay.
pub record Update : Type 0 where
  pub url : Text
  pub outcome : Outcome
  pub blocks : Option (List Block)

pub record AppState : Type 0 where
  pub emails : List CachedEmail
  pub updates : List Update
  pub inner : World.World
  pub calls : ℕ

pub record Env : Type 0 where
  pub now : ℕ → ℕ
  pub users_info : ℕ → Text → UserInfo
  -- The environment of the reviewer API.
  pub inner : World.Env

abbrev pub M : Type 0 → Type 0
M A = AppState → A × AppState

abbrev pub pure : {A : Type 0} → A → M A
pure a s = (a, s)

infixl 5 ◌>>=◌ ◌>>◌
abbrev pub ◌>>=◌ : {A B : Type 0} → M A → (A → M B) → M B
◌>>=◌ m f s = let (a, s') = m s in f a s'

abbrev pub ◌>>◌ : {B : Type 0} → M (Unit {0}) → M B → M B
m >> k = m >>= λ _. k

abbrev pub ask : {A : Type 0} → (ℕ → A) → M A
ask f s = (f s.calls, record s { calls = s.calls + 1 })

-- A call of the reviewer API.
abbrev pub on_inner : {A : Type 0} → World.M A → M A
on_inner m s = let (a, w) = m s.inner in (a, record s { inner = w; calls = s.calls + 1 })

-- `emails[user]`, as a map.
unfoldable pub cached : Text → List CachedEmail → Option CachedEmail
cached user [] = none
cached user (c ∷ rest) = if text_eq c.user user then some c else cached user rest

unfoldable pub remember : CachedEmail → M (Unit {0})
remember c s = (tt, record s { emails = c ∷ s.emails })

unfoldable pub post_update : Update → M (Unit {0})
post_update u s = (tt, record s { updates = u ∷ s.updates; calls = s.calls + 1 })
