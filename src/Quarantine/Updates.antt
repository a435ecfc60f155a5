-- ===== src/Quarantine/Updates.antt =====
-- What the number of matched rows says of an update, and the store calls that are built on it.
use kite_rail.Prelude.{
  ℕ, ◌≡◌, ◌≢◌, refl, sym, subst, inl, inr, Bool, true, false, Option, none, some, [], ◌∷◌, arith,
  ap₂, ◌==◌, ==_iff, if◌then◌else◌, Bool-cases,
}
use kite_rail.Prelude.Text.{Text}
use kite_rail.Quarantine.Table.{
  Row, Rows, update_where, approve_quarantine_entry, deny_quarantine_entry,
}
use kite_rail.Quarantine.Store.{
  Uuid, StoreError, already_resolved, not_found, Result, ok, err, null_string, require_affected,
  executed, at_id, on_id, approve, deny,
}

module _ (p : Row → Bool) (f : Row → Row) where
  -- An update that matches no row leaves the table as it is.
  pub update_where-none :
      (rows : Rows) → (update_where p f rows).1 ≡ 0 → (update_where p f rows).0 ≡ rows
  unfolding update_where
  update_where-none [] h = refl
  update_where-none (r ∷ rs) h = elim (Bool-cases (p r)) [
    | inl hit ↦ absurd (ground arith)
    | inr miss ↦ rw miss (ap₂ ◌∷◌ refl (update_where-none rs (ground arith)))
  ]

  -- If an update makes its own condition false, a second one finds nothing to do.
  pub update_where_twice :
      (g : Row → Row) (rows : Rows)
      → ((r : Row) → p r ≡ true → p (f r) ≡ false)
      → (update_where p g (update_where p f rows).0).1 ≡ 0
  unfolding update_where
  update_where_twice g [] resolves = refl
  update_where_twice g (r ∷ rs) resolves = elim (Bool-cases (p r)) [
    | inl hit ↦ rw hit (rw (resolves r hit) (update_where_twice g rs resolves))
    | inr miss ↦ rw miss (rw miss (update_where_twice g rs resolves))
  ]

-- What a call of the store has done to the table: changed it as the statement does, on at least one
-- row, or nothing.
abbrev pub Executed :
    (Uuid) → Text → (ℕ → Rows → Rows × ℕ) → Rows → Result (Unit {0}) × Rows → Type 0
Executed uuid id statement rows (ok a, rows') =
    (qid : ℕ) × (uuid.parse id ≡ some qid)
    × ((statement qid rows).1 ≢ 0)
    × (rows' ≡ (statement qid rows).0)
Executed uuid id statement rows (err e, rows') = rows' ≡ rows

module _ (uuid : Uuid) (e bad : StoreError) (statement : ℕ → Rows → Rows × ℕ)
    (unchanged : (qid : ℕ) (rows : Rows)
      → (statement qid rows).1 ≡ 0
      → (statement qid rows).0 ≡ rows) where
  executed-Executed :
      (fault : Bool) (id : Text) (qid : ℕ) (rows : Rows)
      → uuid.parse id ≡ some qid
      → Executed uuid id statement rows (executed fault e (statement qid) rows)
  unfolding executed require_affected
  executed-Executed true id qid rows parsed = refl
  executed-Executed false id qid rows parsed = elim (Bool-cases ((statement qid rows).1 == 0)) [
    | inl nothing ↦
        subst
          (λ b.
            Executed uuid id statement rows ((if b then err e else ok tt), (statement qid rows).0))
          (sym nothing) (unchanged qid rows ((==_iff _ _).0 nothing))
    | inr some_row ↦
        subst
          (λ b.
            Executed uuid id statement rows ((if b then err e else ok tt), (statement qid rows).0))
          (sym some_row) (qid, parsed, (λ z. cc ((==_iff _ _).1 z)), refl)
  ]

  pub on_id-Executed :
      (fault : Bool) (id : Text) (rows : Rows)
      → Executed uuid id statement rows
          (on_id uuid bad id (λ qid. executed fault e (statement qid)) rows)
  unfolding on_id
  on_id-Executed fault id rows = go (uuid.parse id) refl
    where
      go :
          (o : Option ℕ)
          → uuid.parse id ≡ o
          → Executed uuid id statement rows
              (at_id bad (λ qid. executed fault e (statement qid)) o rows)
      go none p = refl
      go (some qid) p = executed-Executed fault id qid rows p

pub approve-Executed :
    (uuid : Uuid) (fault : Bool) (now : ℕ) (id by : Text) (rows : Rows)
    → Executed uuid id
        (approve_quarantine_entry now (null_string by))
        rows
        (approve uuid fault now id by rows)
unfolding approve approve_quarantine_entry
approve-Executed uuid fault now id by rows =
    on_id-Executed uuid already_resolved not_found (approve_quarantine_entry now (null_string by))
      (λ qid. update_where-none _ _) fault id rows

pub deny-Executed :
    (uuid : Uuid) (fault : Bool) (now : ℕ) (id by reason : Text) (rows : Rows)
    → Executed uuid id
        (deny_quarantine_entry now (null_string by) (null_string reason))
        rows
        (deny uuid fault now id by reason rows)
unfolding deny deny_quarantine_entry
deny-Executed uuid fault now id by reason rows =
    on_id-Executed uuid already_resolved not_found
      (deny_quarantine_entry now (null_string by) (null_string reason))
      (λ qid. update_where-none _ _) fault id rows
