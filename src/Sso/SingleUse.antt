-- ===== src/Sso/SingleUse.antt =====
-- The state of a sign-in is good for one callback.
use kite_rail.Prelude.{
  All-Holds, ℕ, ◌≡◌, ◌≢◌, inl, inr, refl, ◌∙◌, sym, subst, Bool, true, false, not, none, some, List,
  [], ◌∷◌, any, filter, All, All-filter, Bool-cases, Option-cases,
}
use kite_rail.Prelude.Text.{Text, codes, text_eq, text_eq_iff, ne_of_text_eq}
use kite_rail.Prelude.Http.{query_get}
use kite_rail.Prelude.Std.{Std}
use kite_rail.Sso.{Config}
use kite_rail.Sso.Table.{Attempt, create_login_attempt, is_open, find, consume_login_attempt}
use kite_rail.Sso.World.{World, Env, or_old, consume}
use kite_rail.Sso.Service.{Request, failure, callback, after_consume, Event, run}
use kite_rail.Sso.Callback.{is_open-parts, callback-Answered}
use kite_rail.Sso.Stages.{find-Holds}
use kite_rail.Sso.Attempts.{run-keeps}

-- No row with this state, and no state twice.
abbrev pub Absent : Text → List Attempt → Type 0
Absent state rows = All (λ r. r.state ≢ state) rows

abbrev pub Distinct : List Attempt → Type 0
Distinct [] = Unit
Distinct (r ∷ rows) = Absent r.state rows × Distinct rows

taken :
    (state : Text) (r : Attempt) (rows : List Attempt)
    → text_eq r.state state ≡ true
    → any (λ r. text_eq r.state state) (r ∷ rows) ≡ true
taken state r rows e = rw (e, any) refl

untaken :
    (state : Text) (r : Attempt) (rows : List Attempt)
    → text_eq r.state state ≡ false
    → any (λ r. text_eq r.state state) rows ≡ any (λ r. text_eq r.state state) (r ∷ rows)
untaken state r rows e = rw (e, any) refl

free :
    (state : Text) (rows : List Attempt)
    → any (λ r. text_eq r.state state) rows ≡ false
    → Absent state rows
free state [] h = tt
free state (r ∷ rows) h = elim (Bool-cases (text_eq r.state state)) [
  | inl same ↦ cc (taken state r rows same, h)
  | inr other ↦ (ne_of_text_eq other, free state rows (untaken state r rows other ∙ h))
]

create-Distinct :
    (a : Attempt) (rows : List Attempt)
    → Distinct rows
    → Distinct (or_old (create_login_attempt a rows) rows)
unfolding create_login_attempt
create-Distinct a rows h = elim (Bool-cases (any (λ r. text_eq r.state a.state) rows)) [
  | inl taken ↦ rw taken h
  | inr fresh ↦ rw fresh (free a.state rows fresh, h)
]

create-Absent :
    (state : Text) (a : Attempt) (rows : List Attempt)
    → a.state ≢ state
    → Absent state rows
    → Absent state (or_old (create_login_attempt a rows) rows)
unfolding create_login_attempt
create-Absent state a rows differs h = elim (Bool-cases (any (λ r. text_eq r.state a.state) rows)) [
  | inl taken ↦ rw taken h
  | inr fresh ↦ rw fresh (differs, h)
]

filter-Distinct :
    (p : Attempt → Bool) (rows : List Attempt) → Distinct rows → Distinct (filter p rows)
filter-Distinct p [] h = tt
filter-Distinct p (r ∷ rows) h = elim (Bool-cases (p r)) [
  | inl keep ↦ rw (keep, filter) (All-filter _ p rows h.0, filter-Distinct p rows h.1)
  | inr drop_ ↦ rw (drop_, filter) (filter-Distinct p rows h.1)
]

find-Absent :
    (now : ℕ) (state : Text) (rows : List Attempt)
    → Absent state rows
    → find (is_open now state) rows ≡ none
unfolding is_open
find-Absent now state [] h = refl
find-Absent now state (r ∷ rows) h = elim (Bool-cases (text_eq r.state state)) [
  | inl same ↦ absurd (h.0 ((text_eq_iff _ _).0 same))
  | inr other ↦ rw (other, find) (find-Absent now state rows h.1)
]

skipped :
    (now : ℕ) (state : Text) (r : Attempt) (rows : List Attempt)
    → is_open now state r ≡ false
    → find (is_open now state) rows ≡ find (is_open now state) (r ∷ rows)
skipped now state r rows e = rw (e, find) refl

-- What is found is deleted, and with distinct states nothing else has its state.
consumed-Absent :
    (now : ℕ) (state : Text) (rows : List Attempt) (a : Attempt)
    → Distinct rows
    → find (is_open now state) rows ≡ some a
    → Absent state (filter (λ x. not (is_open now state x)) rows)
consumed-Absent now state [] a d h = tt
consumed-Absent now state (r ∷ rows) a d h = elim (Bool-cases (is_open now state r)) [
  | inl open_ ↦
      rw (open_, filter)
        (All-filter _ _ rows (subst (λ s. Absent s rows) (is_open-parts now state r open_).0 d.0))
  | inr shut ↦
      let later = skipped now state r rows shut ∙ h in
      let (there, passes) = find-Holds (is_open now state) rows a later in
      rw (shut, filter)
        (
          λ same.
              All-Holds (λ x. x.state ≢ r.state) rows a d.0 there
                ((is_open-parts now state a passes).0 ∙ sym same),
          consumed-Absent now state rows a d.1 later,
        )
]

module _ (env : Env) (std : Std) (cfg : Config) (sha256 : Text → Text) where
  run-Distinct :
      (es : List Event) (w : World)
      → Distinct w.attempts
      → Distinct (run env std cfg sha256 es w).1.attempts
  run-Distinct es w h =
      run-keeps env std cfg sha256 Distinct filter-Distinct
        (λ a rows n raw state return_to d. create-Distinct a rows d) es w h

  run-Absent :
      (state : Text) (es : List Event) (w : World)
      → ((n : ℕ) → env.random n ≢ state)
      → Absent state w.attempts
      → Absent state (run env std cfg sha256 es w).1.attempts
  run-Absent state es w fresh h =
      run-keeps env std cfg sha256 (Absent state) (All-filter (λ r. r.state ≢ state))
        (λ a rows n raw drawn return_to d.
          create-Absent state a rows (λ e. fresh n (sym drawn ∙ e)) d)
        es w h

  unfound_refused :
      (r : Request) (w : World)
      → find (is_open (env.db_now w.calls) (query_get (codes "state") r.params)) w.attempts ≡ none
      → (callback env std cfg sha256 r w).0 ≡ failure 400
  unfolding callback after_consume consume consume_login_attempt
  unfound_refused r w h = elim (Bool-cases (env.store_fails w.calls)) [
    | inl fault ↦ rw fault refl
    | inr fine ↦ rw (fine, h) refl
  ]

  -- A callback that is not answered 400 leaves no attempt with its state.
  answered_consumes :
      (r : Request) (w : World)
      → Distinct w.attempts
      → (callback env std cfg sha256 r w).0 ≢ failure 400
      → Absent (query_get (codes "state") r.params) (callback env std cfg sha256 r w).1.attempts
  answered_consumes r w d answered = elim (callback-Answered env std cfg sha256 r w) [
    | inl refused ↦ absurd (answered refused.0)
    | inr (a, (there, same, alive, kept), settled) ↦
        let state = query_get (codes "state") r.params in
        subst (Absent state) (sym kept)
          (elim (Option-cases (find (is_open (env.db_now w.calls) state) w.attempts)) [
            | inl unfound ↦ absurd (answered (unfound_refused r w unfound))
            | inr (found, e) ↦ consumed-Absent (env.db_now w.calls) state w.attempts found d e
          ])
  ]

-- The service starts without attempts. After whatever has happened, a callback that is not answered
-- 400 uses up its state: as long as the random source does not draw that state again, and whatever
-- else happens, every later callback with it is answered 400.
pub callback-once :
    (env later : Env) (std : Std) (cfg : Config) (sha256 : Text → Text) (before after : List Event)
    (r again : Request) (w : World)
    → w.attempts ≡ []
    → (callback env std cfg sha256 r (run env std cfg sha256 before w).1).0 ≢ failure 400
    → query_get (codes "state") again.params ≡ query_get (codes "state") r.params
    → ((n : ℕ) → later.random n ≢ query_get (codes "state") r.params)
    → (callback later std cfg sha256 again
        (run later std cfg sha256 after
          (callback env std cfg sha256 r (run env std cfg sha256 before w).1).1).1).0
      ≡ failure 400
callback-once env later std cfg sha256 before after r again w start answered same fresh =
    let state = query_get (codes "state") r.params in
    let w1 = (run env std cfg sha256 before w).1 in
    let w2 = (callback env std cfg sha256 r w1).1 in
    let w3 = (run later std cfg sha256 after w2).1 in
    let distinct = run-Distinct env std cfg sha256 before w (subst Distinct (sym start) tt) in
    let gone = answered_consumes env std cfg sha256 r w1 distinct answered in
    unfound_refused later std cfg sha256 again w3 (
      find-Absent (later.db_now w3.calls) (query_get (codes "state") again.params) w3.attempts (
        subst (λ s. Absent s w3.attempts) (sym same)
          (run-Absent later std cfg sha256 state after w2 fresh gone)))
