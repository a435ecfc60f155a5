-- ===== src/Slack/Emails.antt =====
-- The email that stands for a Slack user is one that Slack itself has given for the user lately.
use kite_rail.Prelude.{
  ℕ, ◌+◌, ◌≤◌, ◌<◌, ◌≡◌, ◌≢◌, ◌⊎◌, inl, inr, refl, sym, subst, true, false, Option, none, some,
  List, [], ◌∷◌, All, ltb, arith, Bool-cases,
}
use mathlib.Core.Option.{some-injective}
use kite_rail.Prelude.Text.{Text, text_eq, text_eq_iff, ne_of_text_eq}
use kite_rail.Prelude.Std.{Std}
use kite_rail.Slack.{email_cache_ttl}
use kite_rail.Slack.World.{UserInfo, call_failed, user_info, CachedEmail, AppState, Env, cached}
use kite_rail.Slack.Service.{App, confirmed, keep_email, ask_slack, from_cache, email}

-- At this call Slack has named the email, in any case, of an active account that is no bot's.
abbrev pub Confirmed : Env → Std → Text → Text → ℕ → Type 0
Confirmed env std user address n =
    (raw : Text) × (env.users_info n user ≡ user_info true false false raw)
    × (raw ≢ [])
    × (address ≡ std.to_lower raw)

-- A cached email was confirmed, and expires ten minutes behind that.
abbrev pub Vouched : Env → Std → CachedEmail → Type 0
Vouched env std c =
    (n : ℕ) × Confirmed env std c.user c.email n × (c.expires ≡ env.now (n + 1) + email_cache_ttl)

-- For an email that is asked for at a call: it is confirmed from then on, or it was confirmed and ten
-- minutes have not passed since.
abbrev pub Known : Env → Std → Text → Text → ℕ → Type 0
Known env std user address k =
    (n : ℕ) × Confirmed env std user address n
    × ((k ≤ n) ⊎ (env.now k < env.now (n + 1) + email_cache_ttl))

confirmed-Confirmed :
    (std : Std) (info : UserInfo) (address : Text)
    → confirmed std info ≡ some address
    → (raw : Text) × (info ≡ user_info true false false raw)
      × (raw ≢ [])
      × (address ≡ std.to_lower raw)
unfolding confirmed
confirmed-Confirmed std call_failed address h = cc
confirmed-Confirmed std (user_info false deleted bot raw) address h = cc
confirmed-Confirmed std (user_info true true bot raw) address h = cc
confirmed-Confirmed std (user_info true false true raw) address h = cc
confirmed-Confirmed std (user_info true false false raw) address h =
    elim (Bool-cases (text_eq raw [])) [
      | inl empty ↦ cc (rw empty at h)
      | inr given ↦
          let named : std.to_lower raw ≡ address = cc (rw given at h) in
          (raw, refl, ne_of_text_eq given, sym named)
    ]

ltb→lt : (a b : ℕ) → ltb a b ≡ true → a < b
ltb→lt a b h = ground arith

module _ (env : Env) (app : App) where
  -- The cache stays vouched for, nothing else happens, and an email that is returned is known.
  abbrev pub Kept : ℕ → Text → AppState → Option Text × AppState → Type 0
  Kept k user s (o, s') =
      All (Vouched env app.std) s'.emails
      × (s'.inner ≡ s.inner)
      × (s'.updates ≡ s.updates)
      × ((address : Text) → o ≡ some address → Known env app.std user address k)

  ask_slack-Kept :
      (k : ℕ) (user : Text) (s : AppState)
      → k ≤ s.calls
      → All (Vouched env app.std) s.emails
      → Kept k user s (ask_slack env app user s)
  unfolding ask_slack
  ask_slack-Kept k user s order h = go (confirmed app.std (env.users_info s.calls user)) refl
    where
      go :
          (o : Option Text)
          → confirmed app.std (env.users_info s.calls user) ≡ o
          → Kept k user s (keep_email env app user o (record s { calls = s.calls + 1 }))
      go none e = (h, refl, refl, (λ a same. cc same))
      go (some address) e =
          let by_slack = confirmed-Confirmed app.std (env.users_info s.calls user) address e in
          (
            ((s.calls, by_slack, refl), h),
            refl,
            refl,
            (λ a same. (
              s.calls,
              subst (λ x. Confirmed env app.std user x s.calls) (some-injective _ _ same) by_slack,
              inl order,
            )),
          )

  cached-Vouched :
      (user : Text) (entries : List CachedEmail) (c : CachedEmail)
      → All (Vouched env app.std) entries
      → cached user entries ≡ some c
      → Vouched env app.std c × (c.user ≡ user)
  unfolding cached
  cached-Vouched user [] c h e = cc
  cached-Vouched user (x ∷ rest) c h e = elim (Bool-cases (text_eq x.user user)) [
    | inl same ↦
        let here : x ≡ c = some-injective _ _ (rw same at e) in
        subst (λ c. Vouched env app.std c × (c.user ≡ user)) here (h.0, (text_eq_iff _ _).0 same)
    | inr other ↦ cached-Vouched user rest c h.1 (rw other at e)
  ]

  from_cache-Kept :
      (user : Text) (o : Option CachedEmail) (s : AppState)
      → All (Vouched env app.std) s.emails
      → ((c : CachedEmail) → o ≡ some c → Vouched env app.std c × (c.user ≡ user))
      → Kept s.calls user s (from_cache env app user o s)
  unfolding from_cache
  from_cache-Kept user none s h vouched = ask_slack-Kept s.calls user s (omega arith) h
  from_cache-Kept user (some c) s h vouched = elim (Bool-cases (ltb (env.now s.calls) c.expires)) [
    | inr stale ↦
        rw stale (ask_slack-Kept s.calls user (record s { calls = s.calls + 1 }) (omega arith) h)
    | inl fresh ↦
        let ((n, by_slack, until), same) = vouched c refl in
        rw fresh (
          h,
          refl,
          refl,
          (λ a e. (
            n,
            subst (λ x. Confirmed env app.std user x n) (some-injective _ _ e)
                (subst (λ u. Confirmed env app.std u c.email n) same by_slack),
            inr (subst (λ t. env.now s.calls < t) until (ltb→lt _ _ fresh)),
          )),
        )
  ]

  -- What `email` returns is known, and it keeps the cache vouched for.
  pub email-Kept :
      (user : Text) (s : AppState)
      → All (Vouched env app.std) s.emails
      → Kept s.calls user s (email env app user s)
  unfolding email
  email-Kept user s h = elim (Bool-cases (text_eq user [])) [
    | inl nobody ↦ rw nobody (h, refl, refl, (λ a e. cc e))
    | inr given ↦ rw given (
        from_cache-Kept user (cached user s.emails) s h (λ c e. cached-Vouched user s.emails c h e))
  ]
