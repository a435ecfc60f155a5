-- ===== src/Quarantine/Machine.antt =====
-- The life of a held action: how the statements on the quarantine table move its rows, against the
-- diagram in the comment above the status values in backend/internal/quarantine/store.go, which lacks
-- two edges.
use kite_rail.Prelude.{
  ℕ, ◌≡◌, ◌⊎◌, refl, ◌∙◌, inl, inr, Bool, true, false, ◌&&◌, Option, List, [], ◌∷◌, arith, All,
  Bool-cases,
}
use kite_rail.Prelude.Text.{Text}
use kite_rail.Quarantine.Table.{
  Row, Rows, Status, pending, approved, replaying, replayed, replay_failed, denied, status_eq,
  is_open, CreateParams, update_where, create_quarantine_entry, approve_quarantine_entry,
  deny_quarantine_entry, is_claimed, start_replaying, claim_approved_for_replay, mark_replay_failed,
  mark_replayed, return_to_approved, recover_stuck_replays,
}

-- The edges of the diagram.
infix 40 ◌⟶◌
pub data ◌⟶◌ : Status → Status → Type 0 where
  approve_pending : pending ⟶ approved
  approve_again : replay_failed ⟶ approved
  deny_pending : pending ⟶ denied
  claim : approved ⟶ replaying
  succeed : replaying ⟶ replayed
  give_up : replaying ⟶ replay_failed

abbrev pub is_terminal : Status → Bool
is_terminal replayed = true
is_terminal denied = true
is_terminal _ = false

-- The statements that change the table.
pub data Statement : Type 0 where
  create : ℕ → CreateParams → Statement
  approve : ℕ → Option Text → ℕ → Statement
  deny : ℕ → Option Text → Option Text → ℕ → Statement
  claim_oldest : (ℕ → Bool) → ℕ → Statement
  fail_replay : ℕ → Statement
  finish_replay : ℕ → ℕ → Statement
  release : ℕ → Statement
  recover : Statement

-- The edges that the diagram lacks, with the statements that take them.
pub data Unlisted : Statement → Status → Status → Type 0 where
  deny_failed :
      {now : ℕ} {by reason : Option Text} {id : ℕ}
      → Unlisted (deny now by reason id) replay_failed denied
  release_later : {id : ℕ} → Unlisted (release id) replaying approved
  recover_later : Unlisted recover replaying approved

-- What no statement changes in a row.
pub record SameRequest (r s : Row) : Type 0 where
  pub ids : s.id ≡ r.id
  pub agents : s.agent_id ≡ r.agent_id
  pub tools : s.tool_name ≡ r.tool_name
  pub payloads : s.payload ≡ r.payload
  pub created : s.created_at ≡ r.created_at
  pub headers : s.request_headers ≡ r.request_headers
  pub rules : s.policy_rule ≡ r.policy_rule
  pub explanations : s.explanation ≡ r.explanation

-- A row is left alone, or takes one edge and stays the same request.
abbrev pub Moves : Statement → Row → Row → Type 0
Moves q r s = (s ≡ r) ⊎ (((r.status ⟶ s.status) ⊎ Unlisted q r.status s.status) × SameRequest r s)

-- Row by row; rows are only added, and those are pending.
abbrev pub Evolves : Statement → Rows → Rows → Type 0
Evolves q [] ss = All (λ s. s.status ≡ pending) ss
Evolves q (r ∷ rs) [] = ⊥
Evolves q (r ∷ rs) (s ∷ ss) = Moves q r s × Evolves q rs ss

unfoldable pub execute : Statement → Rows → Rows
execute (create id p) rows = create_quarantine_entry id p rows
execute (approve now by id) rows = (approve_quarantine_entry now by id rows).0
execute (deny now by reason id) rows = (deny_quarantine_entry now by reason id rows).0
execute (claim_oldest locked limit) rows = (claim_approved_for_replay locked limit rows).0
execute (fail_replay id) rows = (mark_replay_failed id rows).0
execute (finish_replay now id) rows = (mark_replayed now id rows).0
execute (release id) rows = (return_to_approved id rows).0
execute recover rows = (recover_stuck_replays rows).0

and_right : (a b : Bool) → (a && b) ≡ true → b ≡ true
and_right a b h = ground arith

module _ (q : Statement) (p : Row → Bool) (f : Row → Row) where
  update_where-Evolves :
      (rows : Rows)
      → ((r : Row) → p r ≡ true → Moves q r (f r))
      → Evolves q rows (update_where p f rows).0
  unfolding update_where
  update_where-Evolves [] moves = tt
  update_where-Evolves (r ∷ rs) moves = elim (Bool-cases (p r)) [
    | inl hit ↦ rw hit (moves r hit, update_where-Evolves rs moves)
    | inr miss ↦ rw miss (inl refl, update_where-Evolves rs moves)
  ]

create-Evolves :
    (id : ℕ) (p : CreateParams) (rows : Rows)
    → Evolves (create id p) rows (create_quarantine_entry id p rows)
unfolding create_quarantine_entry
create-Evolves id p [] = (refl, tt)
create-Evolves id p (r ∷ rs) = (inl refl, create-Evolves id p rs)

open-approved : (s : Status) → is_open s ≡ true → s ⟶ approved
open-approved pending h = approve_pending
open-approved replay_failed h = approve_again
open-approved approved h = cc
open-approved _ h = cc

open-denied :
    (now : ℕ) (by reason : Option Text) (id : ℕ) (s : Status)
    → is_open s ≡ true
    → (s ⟶ denied) ⊎ Unlisted (deny now by reason id) s denied
open-denied now by reason id pending h = inl deny_pending
open-denied now by reason id replay_failed h = inr deny_failed
open-denied now by reason id approved h = cc
open-denied now by reason id _ h = cc

from_replaying :
    (q : Statement) (t s : Status)
    → (replaying ⟶ t) ⊎ Unlisted q replaying t
    → status_eq s replaying ≡ true
    → (s ⟶ t) ⊎ Unlisted q s t
from_replaying q t replaying e h = e
from_replaying q t _ e h = cc

from_approved : (s : Status) → status_eq s approved ≡ true → s ⟶ replaying
from_approved approved h = claim
from_approved _ h = cc

same_request :
    (r : Row) (status : Status) (at : Option ℕ) (by : Option Text) (reason : Option Text)
    (attempts : ℕ) (replayed_at : Option ℕ)
    → SameRequest r (record r {
      status = status;
      resolved_at = at;
      resolved_by = by;
      reason = reason;
      attempts = attempts;
      replayed_at = replayed_at;
    })
same_request r status at by reason attempts replayed_at = record {
  ids = refl;
  agents = refl;
  tools = refl;
  payloads = refl;
  created = refl;
  headers = refl;
  rules = refl;
  explanations = refl;
}

-- Every statement leaves each row alone or moves it along one edge without touching the held request,
-- and adds no row that is not pending. The edge is one of the diagram in the comment above the status
-- values, or one of the two that it lacks: a denial takes an action whose replay has failed to
-- denied, and a release or the recovery of stuck replays takes a replaying action back to approved.
pub execute-Evolves : (q : Statement) (rows : Rows) → Evolves q rows (execute q rows)
unfolding execute approve_quarantine_entry deny_quarantine_entry claim_approved_for_replay
    mark_replay_failed mark_replayed return_to_approved recover_stuck_replays start_replaying
    is_claimed
execute-Evolves (create id p) rows = create-Evolves id p rows
execute-Evolves (approve now by id) rows =
    update_where-Evolves _ _ _ rows
      λ r hit. inr (inl (open-approved r.status (and_right _ _ hit)), same_request r _ _ _ _ _ _)
execute-Evolves (deny now by reason id) rows = update_where-Evolves _ _ _ rows λ r hit.
    inr (open-denied now by reason id r.status (and_right _ _ hit), same_request r _ _ _ _ _ _)
execute-Evolves (claim_oldest locked limit) rows =
    update_where-Evolves _ _ _ rows
      λ r hit. inr (inl (from_approved r.status (and_right _ _ hit)), same_request r _ _ _ _ _ _)
execute-Evolves (fail_replay id) rows = update_where-Evolves _ _ _ rows λ r hit. inr (
  from_replaying (fail_replay id) _ r.status (inl give_up) (and_right _ _ hit),
  same_request r _ _ _ _ _ _,
)
execute-Evolves (finish_replay now id) rows = update_where-Evolves _ _ _ rows λ r hit. inr (
  from_replaying (finish_replay now id) _ r.status (inl succeed) (and_right _ _ hit),
  same_request r _ _ _ _ _ _,
)
execute-Evolves (release id) rows = update_where-Evolves _ _ _ rows λ r hit. inr (
  from_replaying (release id) _ r.status (inr release_later) (and_right _ _ hit),
  same_request r _ _ _ _ _ _,
)
execute-Evolves recover rows = update_where-Evolves _ _ _ rows λ r hit.
    inr (from_replaying recover _ r.status (inr recover_later) hit, same_request r _ _ _ _ _ _)

unfoldable pub execute_all : List Statement → Rows → Rows
execute_all [] rows = rows
execute_all (q ∷ qs) rows = execute_all qs (execute q rows)

-- Row by row, a replayed or denied row is what it was.
abbrev pub KeepsFinal : Rows → Rows → Type 0
KeepsFinal [] ss = Unit {0}
KeepsFinal (r ∷ rs) [] = ⊥
KeepsFinal (r ∷ rs) (s ∷ ss) = (is_terminal r.status ≡ true → s ≡ r) × KeepsFinal rs ss

no_edge : (q : Statement) (s t : Status) → is_terminal s ≡ true → ¬ ((s ⟶ t) ⊎ Unlisted q s t)
no_edge q _ _ h (inl approve_pending) = cc
no_edge q _ _ h (inl approve_again) = cc
no_edge q _ _ h (inl deny_pending) = cc
no_edge q _ _ h (inl claim) = cc
no_edge q _ _ h (inl succeed) = cc
no_edge q _ _ h (inl give_up) = cc
no_edge _ _ _ h (inr deny_failed) = cc
no_edge _ _ _ h (inr release_later) = cc
no_edge _ _ _ h (inr recover_later) = cc

final_stays : (q : Statement) (r s : Row) → Moves q r s → is_terminal r.status ≡ true → s ≡ r
final_stays q r s (inl same) h = same
final_stays q r s (inr (edge, kept)) h = absurd (no_edge q r.status s.status h edge)

KeepsFinal-trans :
    (q : Statement) (rs ss ts : Rows) → KeepsFinal rs ss → Evolves q ss ts → KeepsFinal rs ts
KeepsFinal-trans q [] ss ts h e = tt
KeepsFinal-trans q (r ∷ rs) [] ts h e = absurd h
KeepsFinal-trans q (r ∷ rs) (s ∷ ss) [] h e = absurd e
KeepsFinal-trans q (r ∷ rs) (s ∷ ss) (t ∷ ts) h e = (
  (λ final. let same = h.0 final in final_stays q s t e.0 (rw same final) ∙ same),
  KeepsFinal-trans q rs ss ts h.1 e.1,
)

KeepsFinal-refl : (rs : Rows) → KeepsFinal rs rs
KeepsFinal-refl [] = tt
KeepsFinal-refl (r ∷ rs) = ((λ final. refl), KeepsFinal-refl rs)

keeps_from :
    (qs : List Statement) (base rows : Rows)
    → KeepsFinal base rows
    → KeepsFinal base (execute_all qs rows)
unfolding execute_all
keeps_from [] base rows h = h
keeps_from (q ∷ qs) base rows h =
    keeps_from qs base (execute q rows) (KeepsFinal-trans q base rows _ h (execute-Evolves q rows))

-- No sequence of statements changes anything in a row that has been replayed or denied, and none
-- removes a row.
pub final_rows_frozen : (qs : List Statement) (rows : Rows) → KeepsFinal rows (execute_all qs rows)
final_rows_frozen qs rows = keeps_from qs rows rows (KeepsFinal-refl rows)
