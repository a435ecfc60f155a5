-- ===== src/Sso/SignedOut.antt =====
-- A session that was signed out never authenticates a request again.
use kite_rail.Prelude.{
  All-Holds, ℕ, ◌+◌, ◌≡◌, ◌≢◌, inl, inr, refl, ◌∙◌, sym, ap, subst, Bool, false, ◌&&◌, ◌||◌, Option,
  none, some, List, [], ◌∷◌, ltb, All, All-filter, Bool-cases, Option-cases, if_both,
}
use kite_rail.Prelude.Text.{Text, codes, text_eq, text_eq_iff}
use kite_rail.Prelude.Headers
use kite_rail.Prelude.Std.{Std}
use kite_rail.Auth.{reviewer, admin, role_eq}
use kite_rail.Sso.{Config, hash_token, role_of, Cookie, valid_return_to}
use kite_rail.Prelude.Http.{query_get}
use kite_rail.Sso.Table.{
  Session, inserted, is_none, touch_session, revoke_session, delete_expired_sessions,
}
use kite_rail.Sso.World.{World, Env, store_attempt, active, on_sessions, purge_attempts}
use kite_rail.Sso.Service.{
  Request, signed_out, login_to, login, callback, logout, touch, admit, session_token,
  authenticate_session, purge, Event, login_request, callback_request, logout_request,
  session_check, purge_tick, handle, run, touch_interval,
}
use kite_rail.Sso.Callback.{callback-Answered}
use kite_rail.Sso.Sessions.{authenticate_session-Active}

-- Every session under this hash is revoked.
abbrev pub Revoked : Text → List Session → Type 0
Revoked hash rows = All (λ s. s.id_hash ≡ hash → (t : ℕ) × (s.revoked_at ≡ some t)) rows

touch-Revoked :
    (hash other : Text) (now : ℕ) (rows : List Session)
    → Revoked hash rows
    → Revoked hash (touch_session now other rows)
unfolding touch_session
touch-Revoked hash other now [] h = tt
touch-Revoked hash other now (s ∷ rows) h =
    elim (Bool-cases (text_eq s.id_hash other && is_none s.revoked_at)) [
      | inl live ↦ rw live (h.0, touch-Revoked hash other now rows h.1)
      | inr dead ↦ rw dead (h.0, touch-Revoked hash other now rows h.1)
    ]

revoke-Revoked :
    (hash other : Text) (now : ℕ) (rows : List Session)
    → Revoked hash rows
    → Revoked hash (revoke_session now other rows)
unfolding revoke_session
revoke-Revoked hash other now [] h = tt
revoke-Revoked hash other now (s ∷ rows) h =
    elim (Bool-cases (text_eq s.id_hash other && is_none s.revoked_at)) [
      | inl live ↦ rw live ((λ e. (now, refl)), revoke-Revoked hash other now rows h.1)
      | inr dead ↦ rw dead (h.0, revoke-Revoked hash other now rows h.1)
    ]

-- Revoking a session revokes every row with its hash.
revoked :
    (hash : Text) (now : ℕ) (rows : List Session) → Revoked hash (revoke_session now hash rows)
unfolding revoke_session
revoked hash now [] = tt
revoked hash now (s ∷ rows) = elim (Bool-cases (text_eq s.id_hash hash && is_none s.revoked_at)) [
  | inl live ↦ rw live ((λ e. (now, refl)), revoked hash now rows)
  | inr dead ↦ rw dead ((λ e. old s e dead), revoked hash now rows)
]
  where
    old :
        (s : Session)
        → s.id_hash ≡ hash
        → (text_eq s.id_hash hash && is_none s.revoked_at) ≡ false
        → (t : ℕ) × (s.revoked_at ≡ some t)
    old s e dead = elim (Option-cases s.revoked_at) [
      | inr there ↦ there
      | inl live ↦ cc (rw ((text_eq_iff s.id_hash hash).1 e, live) at dead)
    ]

module _ (env : Env) (std : Std) (cfg : Config) (sha256 : Text → Text) where
  module _ (hash : Text) (fresh : (n : ℕ) → hash_token sha256 (env.random n) ≢ hash) where
    abbrev Kept : World → Type 0
    Kept w = Revoked hash w.sessions

    callback-Kept : (r : Request) (w : World) → Kept w → Kept (callback env std cfg sha256 r w).1
    unfolding inserted
    callback-Kept r w h = elim (callback-Answered env std cfg sha256 r w) [
      | inl refused ↦ subst (Revoked hash) (sym refused.1) h
      | inr (a, consumed, inl (code, kept, e)) ↦ subst (Revoked hash) (sym kept) h
      | inr (a, consumed, inr (subject, identity, role, n, ev, stored, e)) ↦
          subst (Revoked hash) (sym stored) ((λ same. absurd (fresh n same)), h)
    ]

    on_sessions-Kept :
        (f : ℕ → List Session → List Session) (w : World)
        → ((now : ℕ) (rows : List Session) → Revoked hash rows → Revoked hash (f now rows))
        → Kept w
        → Kept (on_sessions env f w).1
    unfolding on_sessions
    on_sessions-Kept f w keeps h = elim (Bool-cases (env.store_fails w.calls)) [
      | inl fault ↦ rw fault h
      | inr fine ↦ rw fine (keeps (env.db_now w.calls) w.sessions h)
    ]

    login-Kept : (r : Request) (w : World) → Kept w → Kept (login env std cfg sha256 r w).1
    unfolding login store_attempt
    login-Kept r w h = elim (Bool-cases (env.discovered w.calls)) [
      | inr unknown ↦ rw unknown h
      | inl known ↦
          rw known (start (valid_return_to std cfg (query_get (codes "return_to") r.params)) _ h)
    ]
      where
        start : (o : Option Text) (w' : World) → Kept w' → Kept (login_to env std cfg sha256 o w').1
        start none w' h = h
        start (some t) w' h = h

    logout-Kept : (r : Request) (w : World) → Kept w → Kept (logout env std cfg sha256 r w).1
    unfolding logout
    logout-Kept r w h =
        elim (Bool-cases
          (text_eq (Headers.get (codes "X-Requested-With") r.headers) (codes "elodea"))) [
            | inr forged ↦ rw forged h
            | inl sent ↦
                rw sent (elim (Bool-cases (text_eq (session_token env std cfg sha256 r) [])) [
                  | inl absent ↦ rw absent h
                  | inr given ↦ rw given (on_sessions-Kept _ w (revoke-Revoked hash _) h)
                ])
          ]

    admit-Kept :
        (now : ℕ) (other : Text) (o : Option Session) (w : World)
        → Kept w
        → Kept (admit env std cfg sha256 now other o w).1
    unfolding admit touch
    admit-Kept now other none w h = h
    admit-Kept now other (some s) w h =
        elim (Bool-cases (role_eq (role_of s.role) reviewer || role_eq (role_of s.role) admin)) [
          | inr stranger ↦ rw stranger h
          | inl human ↦ rw human (elim (Bool-cases (ltb (s.last_seen_at + touch_interval) now)) [
            | inr recent ↦ rw recent h
            | inl old ↦ rw old (on_sessions-Kept _ w (touch-Revoked hash other) h)
          ])
        ]

    authenticate-Kept :
        (r : Request) (w : World) → Kept w → Kept (authenticate_session env std cfg sha256 r w).1
    unfolding authenticate_session active
    authenticate-Kept r w h = elim (Bool-cases (text_eq (session_token env std cfg sha256 r) [])) [
      | inl absent ↦ rw absent h
      | inr given ↦ rw given (admit-Kept _ _ _ (record w { calls = w.calls + 1 + 1 }) h)
    ]

    purge-Kept : (w : World) → Kept w → Kept (purge env std cfg sha256 w).1
    unfolding purge purge_attempts delete_expired_sessions
    purge-Kept w h =
        on_sessions-Kept _ (purge_attempts env w).1 (λ now rows. All-filter _ _ rows)
          (if_both (λ (x : Bool × World). Kept x.1) (env.store_fails w.calls) h h)

    handle-Kept : (e : Event) (w : World) → Kept w → Kept (handle env std cfg sha256 e w).1
    unfolding handle
    handle-Kept (login_request r) w h = login-Kept r w h
    handle-Kept (callback_request r) w h = callback-Kept r w h
    handle-Kept (logout_request r) w h = logout-Kept r w h
    handle-Kept (session_check r) w h = authenticate-Kept r w h
    handle-Kept purge_tick w h = purge-Kept w h

    run-Kept : (es : List Event) (w : World) → Kept w → Kept (run env std cfg sha256 es w).1
    unfolding run
    run-Kept [] w h = h
    run-Kept (e ∷ es) w h = run-Kept es _ (handle-Kept e w h)

  logout-Revoked :
      (r : Request) (w : World) (c : Cookie)
      → session_token env std cfg sha256 r ≢ []
      → (logout env std cfg sha256 r w).0 ≡ signed_out c
      → Revoked
          (hash_token sha256 (session_token env std cfg sha256 r))
          (logout env std cfg sha256 r w).1.sessions
  unfolding logout on_sessions
  logout-Revoked r w c given out =
      elim (Bool-cases
        (text_eq (Headers.get (codes "X-Requested-With") r.headers) (codes "elodea"))) [
          | inr forged ↦ cc (rw forged at out)
          | inl sent ↦ elim (Bool-cases (text_eq (session_token env std cfg sha256 r) [])) [
            | inl absent ↦ absurd (given ((text_eq_iff _ _).0 absent))
            | inr present ↦ elim (Bool-cases (env.store_fails w.calls)) [
              | inl fault ↦ cc (rw (sent, present, fault) at out)
              | inr fine ↦ rw (sent, present, fine) (revoked _ _ w.sessions)
            ]
          ]
        ]

  -- No identity comes of a token whose sessions are all revoked.
  unknown :
      (r : Request) (w : World)
      → Revoked (hash_token sha256 (session_token env std cfg sha256 r)) w.sessions
      → (authenticate_session env std cfg sha256 r w).0 ≡ none
  unknown r w h = elim (Option-cases (authenticate_session env std cfg sha256 r w).0) [
    | inl stranger ↦ stranger
    | inr (i, known) ↦
        let (s, token, whose, ne, there, (same, live, alive, busy), id, role, human) =
          authenticate_session-Active env std cfg sha256 r w i known in
        let (t, dead) = All-Holds _ w.sessions s h there (same ∙ ap (hash_token sha256) whose) in
        cc (live, dead)
  ]

-- Once a sign-out of a session cookie has succeeded, no request with that cookie is authenticated any
-- more, whatever reaches the service in between and however its calls go, as long as no token drawn
-- later has the same hash.
pub logout-final :
    (env later : Env) (std : Std) (cfg : Config) (sha256 : Text → Text) (after : List Event)
    (r again : Request) (c : Cookie) (w : World)
    → session_token env std cfg sha256 r ≢ []
    → (logout env std cfg sha256 r w).0 ≡ signed_out c
    → session_token later std cfg sha256 again ≡ session_token env std cfg sha256 r
    → ((n : ℕ)
        → hash_token sha256 (later.random n)
          ≢ hash_token sha256 (session_token env std cfg sha256 r))
    → (authenticate_session later std cfg sha256 again
        (run later std cfg sha256 after (logout env std cfg sha256 r w).1).1).0
      ≡ none
logout-final env later std cfg sha256 after r again c w given out same fresh =
    let w1 = (logout env std cfg sha256 r w).1 in
    unknown later std cfg sha256 again (run later std cfg sha256 after w1).1 (
      subst (λ t. Revoked (hash_token sha256 t) (run later std cfg sha256 after w1).1.sessions)
        (sym same)
        (run-Kept later std cfg sha256 _ fresh after w1
          (logout-Revoked env std cfg sha256 r w c given out)))
