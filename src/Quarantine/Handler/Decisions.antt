-- ===== src/Quarantine/Handler/Decisions.antt =====
-- What a reviewer's approval or denial has done when it returns.
use kite_rail.Prelude.{
  ℕ, ◌+◌, ◌≡◌, ◌≢◌, refl, sym, subst, inl, inr, Bool, true, false, ◌&&◌, some, List, [], ◌∷◌,
  if◌then◌else◌, Bool-cases, ap, ◌∙◌,
}
use mathlib.Core.Option.{some-injective}
use kite_rail.Prelude.Text.{Text, codes}
use kite_rail.Ledger.Entry.{LedgerEntry}
use kite_rail.Quarantine.Table.{Rows, approve_quarantine_entry, deny_quarantine_entry}
use kite_rail.Quarantine.Store.{
  Uuid, Result, ok, err, QuarantineEntry, null_string, get, approve, deny,
}
use kite_rail.Quarantine.World.{
  World, Effect, appended, Env, M, pure, ◌>>=◌, on_store, on_ledger, audit_entry, payload_hash,
}
use kite_rail.Quarantine.Handler.{
  Handler, store_error, audit_unavailable, Decision, done, refused, append_if, append_ledger,
  after_change, decide, approve_held, deny_held,
}
use kite_rail.Quarantine.Updates.{Executed, approve-Executed, deny-Executed, update_where_twice}

pub data Verdict : Type 0 where
  approval : Verdict
  denial : Text → Verdict

abbrev pub decision_text : Verdict → Text
decision_text approval = codes "approved"
decision_text (denial reason) = codes "denied"

abbrev pub rule_text : Verdict → Text
rule_text approval = codes "hitl_approval"
rule_text (denial reason) = codes "hitl_denial"

-- The statement that a verdict runs at a time for a reviewer.
abbrev pub statement : Verdict → ℕ → Text → ℕ → Rows → Rows × ℕ
statement approval now reviewer_id = approve_quarantine_entry now (null_string reviewer_id)
statement (denial reason) now reviewer_id =
    deny_quarantine_entry now (null_string reviewer_id) (null_string reason)

abbrev pub decide_held : Env → Handler → Verdict → Text → Text → M Decision
decide_held env h approval id reviewer_id = approve_held env h id reviewer_id
decide_held env h (denial reason) id reviewer_id = deny_held env h id reviewer_id reason

-- The held action was open and carries the verdict now; nothing else in the table has changed.
abbrev pub Changed : Uuid → Verdict → Text → Text → Rows → Rows → Type 0
Changed uuid v id reviewer_id rows rows' =
    (now : ℕ) × (qid : ℕ) × (uuid.parse id ≡ some qid)
    × ((statement v now reviewer_id qid rows).1 ≢ 0)
    × (rows' ≡ (statement v now reviewer_id qid rows).0)

-- The newest effect is the audit entry of the decision; without a ledger there is no new one.
abbrev pub Audited : Bool → Verdict → Text → List Effect → List Effect → Type 0
Audited false v reviewer_id before after = after ≡ before
Audited true v reviewer_id before after =
    (x : LedgerEntry) × (after ≡ appended x ∷ before)
    × (x.agent ≡ reviewer_id)
    × (x.decision ≡ decision_text v)
    × (x.policy_rule ≡ rule_text v)

-- By what the call returns: success means changed and, with a ledger, audited; the error of the
-- audit means changed and not audited; any other error means that nothing has happened.
abbrev pub Decided : Uuid → Bool → Verdict → Text → Text → World → Decision × World → Type 0
Decided uuid has_ledger v id reviewer_id w (done, u) =
    Changed uuid v id reviewer_id w.rows u.rows
    × Audited has_ledger v reviewer_id w.history u.history
Decided uuid has_ledger v id reviewer_id w (refused audit_unavailable, u) =
    Changed uuid v id reviewer_id w.rows u.rows × (has_ledger ≡ true) × (u.history ≡ w.history)
Decided uuid has_ledger v id reviewer_id w (refused (store_error e), u) =
    (u.rows ≡ w.rows) × (u.history ≡ w.history)

module _ (env : Env) (h : Handler) (v : Verdict) (id reviewer_id : Text) where
  append_if-Decided :
      (has_ledger : Bool) (entry : QuarantineEntry) (w u : World)
      → Changed h.uuid v id reviewer_id w.rows u.rows
      → u.history ≡ w.history
      → Decided h.uuid has_ledger v id reviewer_id w
          (append_if env h has_ledger entry reviewer_id (decision_text v) (rule_text v) u)
  unfolding append_if on_ledger
  append_if-Decided false entry w u changed same = (changed, same)
  append_if-Decided true entry w u changed same =
      let x =
        audit_entry reviewer_id entry.tool_name (decision_text v) (rule_text v)
          (payload_hash h.sha256 entry.payload) entry.id [] in
      let after = λ (b : Bool). Decided h.uuid true v id reviewer_id w (
        ((λ (u : World).
              if b
              then (false, record u { calls = u.calls + 1 })
              else (true, record u { history = appended x ∷ u.history; calls = u.calls + 1 }))
            >>= (λ (accepted : Bool). pure (if accepted then done else refused audit_unavailable)))
          u) in
      elim (Bool-cases (env.ledger_fails u.calls)) [
        | inl down ↦ subst after (sym down) (changed, refl, same)
        | inr up ↦
            subst after (sym up) (changed, (x, ap (λ l. appended x ∷ l) same, refl, refl, refl))
      ]

  after_change-Decided :
      (entry : QuarantineEntry) (now : ℕ) (w u : World) (r : Result (Unit {0}) × Rows)
      → Executed h.uuid id (statement v now reviewer_id) w.rows r
      → u.rows ≡ r.1
      → u.history ≡ w.history
      → Decided h.uuid h.has_ledger v id reviewer_id w
          (after_change env h entry reviewer_id (decision_text v) (rule_text v) r.0 u)
  unfolding after_change append_ledger
  after_change-Decided entry now w u (err e, rows) executed moved same = (moved ∙ executed, same)
  after_change-Decided entry now w u (ok a, rows) (qid, parsed, hit, as_said) moved same =
      append_if-Decided h.has_ledger entry w u (now, qid, parsed, hit, moved ∙ as_said) same

  decide-Decided :
      (change : Bool → ℕ → Rows → Result (Unit {0}) × Rows)
      → ((fault : Bool) (now : ℕ) (rows : Rows)
          → Executed h.uuid id (statement v now reviewer_id) rows (change fault now rows))
      → (r : Result QuarantineEntry) (w u : World) → u.rows ≡ w.rows
      → u.history ≡ w.history
      → Decided h.uuid h.has_ledger v id reviewer_id w
          (decide env h change reviewer_id (decision_text v) (rule_text v) r u)
  unfolding decide on_store
  decide-Decided change executed (err e) w u still same = (still, same)
  decide-Decided change executed (ok entry) w u still same =
      let r = change (env.store_fails u.calls) (env.now u.calls) u.rows in
      after_change-Decided entry (env.now u.calls) w (record u { rows = r.1; calls = u.calls + 1 })
        r
        (subst (λ rows. Executed h.uuid id (statement v (env.now u.calls) reviewer_id) rows r) still
          (executed _ _ _))
        refl same

-- For a verdict, an approval or a denial with a reason, on a held action: if the call returns
-- success, then the id is that of an open row, the table is as the verdict's statement makes it, and
-- with a ledger configured the newest effect is the audit entry of this reviewer and this verdict.
-- If it returns that the audit is unavailable, there is a ledger, the change has been made and
-- nothing has been recorded. On every other error neither the table nor the ledger has changed.
pub decide_held-Decided :
    (env : Env) (h : Handler) (v : Verdict) (id reviewer_id : Text) (w : World)
    → Decided h.uuid h.has_ledger v id reviewer_id w (decide_held env h v id reviewer_id w)
unfolding approve_held deny_held on_store
decide_held-Decided env h approval id reviewer_id w =
    decide-Decided env h approval id reviewer_id
      (λ fault now rows. approve h.uuid fault now id reviewer_id rows)
      (λ fault now rows. approve-Executed h.uuid fault now id reviewer_id rows)
      (get h.uuid (env.store_fails w.calls) id w.rows) w (record w { calls = w.calls + 1 }) refl
      refl
decide_held-Decided env h (denial reason) id reviewer_id w =
    decide-Decided env h (denial reason) id reviewer_id
      (λ fault now rows. deny h.uuid fault now id reviewer_id reason rows)
      (λ fault now rows. deny-Executed h.uuid fault now id reviewer_id reason rows)
      (get h.uuid (env.store_fails w.calls) id w.rows) w (record w { calls = w.calls + 1 }) refl
      refl

&&-false : (b : Bool) → (b && false) ≡ false
&&-false true = refl
&&-false false = refl

-- The first verdict closes the row for either statement.
statement_twice :
    (v₁ v₂ : Verdict) (now₁ now₂ : ℕ) (by₁ by₂ : Text) (qid : ℕ) (rows : Rows)
    → (statement v₂ now₂ by₂ qid (statement v₁ now₁ by₁ qid rows).0).1 ≡ 0
unfolding approve_quarantine_entry deny_quarantine_entry
statement_twice approval approval now₁ now₂ by₁ by₂ qid rows =
    update_where_twice _ _ _ rows λ r hit. &&-false _
statement_twice approval (denial t) now₁ now₂ by₁ by₂ qid rows =
    update_where_twice _ _ _ rows λ r hit. &&-false _
statement_twice (denial s) approval now₁ now₂ by₁ by₂ qid rows =
    update_where_twice _ _ _ rows λ r hit. &&-false _
statement_twice (denial s) (denial t) now₁ now₂ by₁ by₂ qid rows =
    update_where_twice _ _ _ rows λ r hit. &&-false _

-- Once a verdict has changed the table, no later verdict on the same action succeeds while nothing
-- else has changed the table in between, whoever sends it and however the calls of the store go.
pub decided_once :
    (env : Env) (h : Handler) (v₁ v₂ : Verdict) (id by₁ by₂ : Text) (rows : Rows) (u u' : World)
    → Changed h.uuid v₁ id by₁ rows u.rows
    → ¬ (decide_held env h v₂ id by₂ u ≡ (done, u'))
decided_once env h v₁ v₂ id by₁ by₂ rows u u' (now₁, qid₁, parsed₁, hit₁, first) e =
    let (now₂, qid₂, parsed₂, hit₂, second) =
      (subst (Decided h.uuid h.has_ledger v₂ id by₂ u) e
        (decide_held-Decided env h v₂ id by₂ u)).0 in
    hit₂ (
      subst (λ rows. (statement v₂ now₂ by₂ qid₂ rows).1 ≡ 0) (sym first)
        (subst (λ q. (statement v₂ now₂ by₂ q (statement v₁ now₁ by₁ qid₁ rows).0).1 ≡ 0)
          (some-injective _ _ (sym parsed₁ ∙ parsed₂))
          (statement_twice v₁ v₂ now₁ now₂ by₁ by₂ qid₁ rows)))
