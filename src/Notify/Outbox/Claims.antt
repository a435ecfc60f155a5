-- ===== src/Notify/Outbox/Claims.antt =====
-- A claim takes rows that are due, and keeps the table sound.
use kite_rail.Prelude.{
  ℕ, zero, suc, ◌+◌, ◌≤◌, ◌<◌, ◌≡◌, refl, sym, ◌∙◌, ap₂, Bool, true, false, ◌||◌, List, [], ◌∷◌,
  filter, take, any, All, Bool-cases, inl, inr, arith,
}
use kite_rail.Prelude.Text.{Text, text_eq_iff}
use kite_rail.Notify.Outbox.{
  Row, Rows, has_key, is_due, insert_by_age, oldest_first, due_rows, is_claimed, lease,
  update_where, claim_due_notifications,
}
use kite_rail.Notify.Outbox.Keys.{
  attempts_of, count_key, Distinct, Within, Sound, Keeps, update_where-Distinct, claim_counts,
  has_key-swap,
}

any-take {ℓ} :
    {A : Type ℓ} (p : A → Bool) (n : ℕ) (xs : List A) → any p (take n xs) ≡ true → any p xs ≡ true
any-take p zero xs h = cc
any-take p (suc n) [] h = h
any-take p (suc n) (x ∷ xs) h = ground (arith, any-take p n xs)

any-filter {ℓ} :
    {A : Type ℓ} (p q : A → Bool) (xs : List A) → any p xs ≡ false → any p (filter q xs) ≡ false
any-filter p q [] h = refl
any-filter p q (x ∷ xs) h = ground (arith, any-filter p q xs)

any-insert :
    (p : Row → Bool) (r : Row) (rows : Rows) → any p (insert_by_age r rows) ≡ (p r || any p rows)
unfolding insert_by_age
any-insert p r [] = ground arith
any-insert p r (s ∷ rows) = ground (arith, any-insert p r rows)

any-oldest : (p : Row → Bool) (rows : Rows) → any p (oldest_first rows) ≡ any p rows
unfolding oldest_first
any-oldest p [] = refl
any-oldest p (r ∷ rows) = ground (arith, any-insert p r (oldest_first rows), any-oldest p rows)

All-both {ℓ κ} :
    {A : Type ℓ} {P Q R : A → Type κ}
    → ((x : A) → P x → Q x → R x)
    → (xs : List A) → All P xs
    → All Q xs
    → All R xs
All-both f [] p q = tt
All-both f (x ∷ xs) p q = (f x p.0 q.0, All-both f xs p.1 q.1)

-- A row that joins with one of these passes the test, as the rows have different keys.
abbrev Joins : (Row → Bool) → Rows → Row → Type 0
Joins due rows r = any (has_key r.quarantine_id r.channel) (filter due rows) ≡ true → due r ≡ true

others :
    (x : Row) (rows : Rows)
    → any (has_key x.quarantine_id x.channel) rows ≡ false
    → All (λ r. has_key r.quarantine_id r.channel x ≡ false) rows
others x [] h = tt
others x (r ∷ rows) h = (ground (arith, has_key-swap x r), others x rows (ground arith))

joined_due : (due : Row → Bool) (rows : Rows) → Distinct rows → All (Joins due rows) rows
joined_due due [] d = tt
joined_due due (x ∷ rows) d = (
  λ h. ground (arith, any-filter (has_key x.quarantine_id x.channel) due rows),
  All-both (λ r other joins h. joins (ground arith)) rows (others x rows d.0)
      (joined_due due rows d.1),
)

-- Rows below the limit may be counted up.
update-Within :
    (n now : ℕ) (p : Row → Bool) (rows : Rows)
    → All (λ r. p r ≡ true → r.attempts < n) rows
    → Within n rows
    → Within n (update_where p (lease now) rows)
unfolding update_where lease
update-Within n now p [] below within = tt
update-Within n now p (r ∷ rows) below within = elim (Bool-cases (p r)) [
  | inl chosen ↦
      rw chosen (ground (arith, below.0 chosen), update-Within n now p rows below.1 within.1)
  | inr other ↦ rw other (within.0, update-Within n now p rows below.1 within.1)
]

due_below :
    (locked : Row → Bool) (n now : ℕ) (r : Row) → is_due locked n now r ≡ true → r.attempts < n
unfolding is_due
due_below locked n now r h = ground arith

lease-Keeps : (now : ℕ) → Keeps (lease now)
unfolding lease
lease-Keeps now r = (refl, refl)

module _ (locked : Row → Bool) (n batch_size now : ℕ) (rows : Rows) where
  joined :
      (r : Row)
      → is_claimed (due_rows locked n batch_size now rows) r ≡ true
      → any (has_key r.quarantine_id r.channel) (filter (is_due locked n now) rows) ≡ true
  unfolding is_claimed due_rows
  joined r h = sym (any-oldest _ _) ∙ any-take _ batch_size _ h

  -- A claim keeps keys distinct and attempts within the limit.
  pub claim-Sound : Sound n rows → Sound n (claim_due_notifications locked n batch_size now rows).0
  unfolding claim_due_notifications
  claim-Sound s = (
    update_where-Distinct _ (lease now) (lease-Keeps now) rows s.0,
    update-Within n now _ rows
        (All-both (λ r joins w h. due_below locked n now r (joins (joined r h))) rows
          (joined_due (is_due locked n now) rows s.0) s.1)
        s.1,
  )

  -- It counts each row that it returns.
  pub claim-counts :
      (id : ℕ) (channel : Text)
      → attempts_of id channel (claim_due_notifications locked n batch_size now rows).0
        ≡ attempts_of id channel rows
          + count_key id channel (claim_due_notifications locked n batch_size now rows).1
  unfolding claim_due_notifications
  claim-counts id channel = claim_counts id channel _ now rows

absent-attempts :
    (id : ℕ) (channel : Text) (rows : Rows)
    → any (has_key id channel) rows ≡ false
    → attempts_of id channel rows ≡ 0
unfolding attempts_of
absent-attempts id channel [] h = refl
absent-attempts id channel (r ∷ rows) h = ground (arith, absent-attempts id channel rows)

same_key :
    (id : ℕ) (channel : Text) (r : Row) (rows : Rows)
    → has_key id channel r ≡ true
    → any (has_key r.quarantine_id r.channel) rows ≡ false
    → any (has_key id channel) rows ≡ false
unfolding has_key
same_key id channel r rows here others_absent =
    let i : r.quarantine_id ≡ id = ground arith in
    let c : r.channel ≡ channel = (text_eq_iff r.channel channel).0 (ground arith) in
    ap₂ (λ x y. any (has_key x y) rows) (sym i) (sym c) ∙ others_absent

-- The attempts of a key are those of its one row.
pub attempts_of-le :
    (n id : ℕ) (channel : Text) (rows : Rows) → Sound n rows → attempts_of id channel rows ≤ n
unfolding attempts_of
attempts_of-le n id channel [] s = omega arith
attempts_of-le n id channel (r ∷ rows) s = elim (Bool-cases (has_key id channel r)) [
  | inr other ↦ rw other (omega (arith, attempts_of-le n id channel rows (s.0.1, s.1.1)))
  | inl here ↦
      rw here
        (ground (arith, absent-attempts id channel rows (same_key id channel r rows here s.0.0)))
]
