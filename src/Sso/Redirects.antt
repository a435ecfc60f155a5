-- ===== src/Sso/Redirects.antt =====
-- Where the sign-in flow may send the browser.
use kite_rail.Prelude.{
  Holds, All-Holds, ℕ, ◌≡◌, ◌≢◌, ◌⊎◌, inl, inr, refl, sym, subst, true, false, not, ◌&&◌, Option,
  none, some, List, [], ◌∷◌, ◌++◌, any, All, All-filter, arith, Bool-cases, if_both,
}
use kite_rail.Prelude.Text.{Text, codes, text_eq, text_eq_iff, ne_of_text_eq, has_prefix}
use kite_rail.Prelude.Http.{query_get}
use kite_rail.Prelude.Headers
use kite_rail.Prelude.Std.{Url, Std}
use kite_rail.Sso.{
  Config, Failure, failure_code, default_return, safe_path, checked_return, parsed_return,
  valid_return_to, member,
}
use kite_rail.Sso.Table.{Attempt, create_login_attempt}
use kite_rail.Sso.World.{World, Env, or_old, store_attempt, on_sessions}
use kite_rail.Sso.Service.{
  Request, Reply, redirected, login_to, login, callback, session_token, logout, Event,
  login_request, callback_request, logout_request, session_check, purge_tick, Answer, replied,
  handle, run,
}
use kite_rail.Sso.Callback.{callback-Answered}
use kite_rail.Sso.Attempts.{handle-keeps}

-- An allowed origin that is no wildcard, with a path that is absolute and names no other host.
abbrev pub AllowedReturn : Config → Text → Type 0
AllowedReturn cfg t =
    (origin path : Text) × Holds origin cfg.allowed_origins
    × (origin ≢ codes "*")
    × (origin ≢ [])
    × (has_prefix path (codes "/") ≡ true)
    × (has_prefix path (codes "//") ≡ false)
    × (t ≡ origin ++ path)

member-Holds : (xs : List Text) (x : Text) → member xs x ≡ true → Holds x xs
member-Holds [] x h = cc
member-Holds (y ∷ xs) x h = elim (Bool-cases (text_eq y x)) [
  | inl same ↦ inl ((text_eq_iff y x).0 same)
  | inr other ↦ inr (member-Holds xs x (rw (other, any) at h))
]

safe_path-IsSafe :
    (path : Text)
    → (has_prefix (safe_path path) (codes "/") ≡ true)
      × (has_prefix (safe_path path) (codes "//") ≡ false)
unfolding safe_path has_prefix
safe_path-IsSafe path = ground arith

one_slash :
    (has_prefix (codes "/") (codes "/") ≡ true) × (has_prefix (codes "/") (codes "//") ≡ false)
unfolding has_prefix
one_slash = (refl, refl)

default_return-Allowed :
    (cfg : Config) (origins : List Text) (t : Text)
    → ((o : Text) → Holds o origins → Holds o cfg.allowed_origins)
    → default_return origins ≡ some t
    → AllowedReturn cfg t
unfolding default_return
default_return-Allowed cfg [] t inside h = cc
default_return-Allowed cfg (o ∷ rest) t inside h = elim (Bool-cases (text_eq o (codes "*"))) [
  | inl star ↦ default_return-Allowed cfg rest t (λ x there. inside x (inr there)) (rw star at h)
  | inr origin ↦ elim (Bool-cases (text_eq o [])) [
    | inl empty ↦
        default_return-Allowed cfg rest t (λ x there. inside x (inr there))
          (rw (origin, empty) at h)
    | inr given ↦ (
      o,
      codes "/",
      inside o (inl refl),
      ne_of_text_eq origin,
      ne_of_text_eq given,
      one_slash.0,
      one_slash.1,
      cc (rw (origin, given) at h),
    )
  ]
]

-- A scheme of the web starts no wildcard.
web_origin :
    (scheme rest : Text)
    → (not (text_eq scheme (codes "http")) && not (text_eq scheme (codes "https"))) ≡ false
    → (scheme ++ rest ≢ codes "*") × (scheme ++ rest ≢ [])
web_origin scheme rest h = elim (Bool-cases (text_eq scheme (codes "http"))) [
  | inl http ↦ rw ((text_eq_iff scheme _).0 http) ((λ e. cc e), (λ e. cc e))
  | inr other ↦ elim (Bool-cases (text_eq scheme (codes "https"))) [
    | inl https ↦ rw ((text_eq_iff scheme _).0 https) ((λ e. cc e), (λ e. cc e))
    | inr neither ↦ cc (rw (other, neither) at h)
  ]
]

module _ (std : Std) (cfg : Config) where
  checked_return-Allowed :
      (u : Url) (t : Text) → checked_return std cfg u ≡ some t → AllowedReturn cfg t
  unfolding checked_return
  checked_return-Allowed u t h =
      elim (Bool-cases
        (not (text_eq u.scheme (codes "http")) && not (text_eq u.scheme (codes "https")))) [
          | inl other ↦ cc (rw other at h)
          | inr web ↦ elim (Bool-cases (text_eq u.host [])) [
            | inl empty ↦ cc (rw (web, empty) at h)
            | inr host ↦ elim (Bool-cases u.has_user) [
              | inl user ↦ cc (rw (web, host, user) at h)
              | inr plain ↦
                  elim (Bool-cases
                    (member cfg.allowed_origins (u.scheme ++ (codes "://" ++ u.host)))) [
                      | inr foreign ↦ cc (rw (web, host, plain, foreign) at h)
                      | inl allowed ↦
                          let origin = u.scheme ++ (codes "://" ++ u.host) in
                          let no_wildcard = web_origin u.scheme (codes "://" ++ u.host) web in
                          let path = safe_path-IsSafe u.path in
                          (
                            origin,
                            safe_path u.path,
                            member-Holds cfg.allowed_origins origin allowed,
                            no_wildcard.0,
                            no_wildcard.1,
                            path.0,
                            path.1,
                            cc (rw (web, host, plain, allowed) at h),
                          )
                    ]
            ]
          ]
        ]

  valid_return_to-Allowed :
      (raw t : Text) → valid_return_to std cfg raw ≡ some t → AllowedReturn cfg t
  unfolding valid_return_to parsed_return
  valid_return_to-Allowed raw t h = elim (Bool-cases (text_eq raw [])) [
    | inl empty ↦
        default_return-Allowed cfg cfg.allowed_origins t (λ o there. there) (rw empty at h)
    | inr given ↦ go (std.parse_url raw) (rw given at h)
  ]
    where
      go : (o : Option Url) → parsed_return std cfg o ≡ some t → AllowedReturn cfg t
      go none e = cc
      go (some u) e = checked_return-Allowed u t e

-- What may answer a request: no redirection but to the provider, to an allowed address, or to one
-- with a failure code.
abbrev pub SafeAnswer : Std → Config → Answer → Type 0
SafeAnswer std cfg (replied (redirected location c)) =
    (t : Text) × AllowedReturn cfg t
    × ((location ≡ t)
        ⊎ ((code : Failure) × (location ≡ std.set_query t (codes "sso_error") (failure_code code))))
SafeAnswer std cfg answer = Unit

module _ (env : Env) (std : Std) (cfg : Config) (sha256 : Text → Text) where
  abbrev Rows : List Attempt → Type 0
  Rows rows = All (λ a. AllowedReturn cfg a.return_to) rows

  create-Rows :
      (a : Attempt) (rows : List Attempt) (n : ℕ) (raw : Text)
      → a.state ≡ env.random n
      → valid_return_to std cfg raw ≡ some a.return_to
      → Rows rows
      → Rows (or_old (create_login_attempt a rows) rows)
  unfolding create_login_attempt
  create-Rows a rows n raw drawn valid h =
      elim (Bool-cases (any (λ r. text_eq r.state a.state) rows)) [
        | inl taken ↦ rw taken h
        | inr fresh ↦ rw fresh (valid_return_to-Allowed std cfg raw a.return_to valid, h)
      ]

  Rows-Holds :
      (rows : List Attempt) (a : Attempt) → Rows rows → Holds a rows → AllowedReturn cfg a.return_to
  Rows-Holds rows a h there = All-Holds (λ a. AllowedReturn cfg a.return_to) rows a h there

  abbrev Safe : Reply → Type 0
  Safe reply = SafeAnswer std cfg (replied reply)

  callback-Safe :
      (r : Request) (w : World) → Rows w.attempts → Safe (callback env std cfg sha256 r w).0
  callback-Safe r w h = elim (callback-Answered env std cfg sha256 r w) [
    | inl refused ↦ subst Safe (sym refused.0) tt
    | inr (a, (there, same, alive, deleted), inl (code, kept, e)) ↦
        subst Safe (sym e) (a.return_to, Rows-Holds w.attempts a h there, inr (code, refl))
    | inr (a, (there, same, alive, deleted), inr (subject, identity, role, n, ev, stored, e)) ↦
        subst Safe (sym e) (a.return_to, Rows-Holds w.attempts a h there, inl refl)
  ]

  login-Safe : (r : Request) (w : World) → Safe (login env std cfg sha256 r w).0
  unfolding login
  login-Safe r w = elim (Bool-cases (env.discovered w.calls)) [
    | inr unknown ↦ rw unknown tt
    | inl known ↦
        rw known (start (valid_return_to std cfg (query_get (codes "return_to") r.params)) _)
  ]
    where
      start : (o : Option Text) (w' : World) → Safe (login_to env std cfg sha256 o w').0
      start none w' = tt
      start (some t) w' = if_both Safe (store_attempt env _ _).0 tt tt

  logout-Safe : (r : Request) (w : World) → Safe (logout env std cfg sha256 r w).0
  unfolding logout
  logout-Safe r w =
      elim (Bool-cases
        (text_eq (Headers.get (codes "X-Requested-With") r.headers) (codes "elodea"))) [
          | inr forged ↦ rw forged tt
          | inl sent ↦
              rw sent (elim (Bool-cases (text_eq (session_token env std cfg sha256 r) [])) [
                | inl absent ↦ rw absent tt
                | inr given ↦ rw given (if_both Safe (on_sessions env _ w).0 tt tt)
              ])
        ]

  handle-Safe :
      (e : Event) (w : World)
      → Rows w.attempts
      → SafeAnswer std cfg (handle env std cfg sha256 e w).0
  unfolding handle
  handle-Safe (login_request r) w h = login-Safe r w
  handle-Safe (callback_request r) w h = callback-Safe r w h
  handle-Safe (logout_request r) w h = logout-Safe r w
  handle-Safe (session_check r) w h = tt
  handle-Safe purge_tick w h = tt

  run-Rows :
      (es : List Event) (w : World)
      → Rows w.attempts
      → All (SafeAnswer std cfg) (run env std cfg sha256 es w).0
  unfolding run
  run-Rows [] w h = tt
  run-Rows (e ∷ es) w h = (
    handle-Safe e w h,
    run-Rows es _ (
        handle-keeps env std cfg sha256 Rows (All-filter (λ a. AllowedReturn cfg a.return_to))
          create-Rows e w h),
  )

  -- From a table without attempts, whatever requests come, every answer that redirects the browser and
  -- is not the way to the identity provider sends it to an allowed address, alone or with a failure
  -- code: an origin that the configuration allows, which is neither the wildcard nor empty, with a path
  -- that starts with one slash.
  pub run-Safe :
      (es : List Event) (w : World)
      → w.attempts ≡ []
      → All (SafeAnswer std cfg) (run env std cfg sha256 es w).0
  run-Safe es w start = run-Rows es w (subst Rows (sym start) tt)
