-- ===== src/Notify/Outbox/Updates.antt =====
-- The updates of a delivery keep the table sound and its attempts.
use kite_rail.Prelude.{ℕ, ◌≡◌, refl, Bool, [], ◌∷◌, Bool-cases, inl, inr, arith}
use kite_rail.Prelude.Text.{Text}
use kite_rail.Notify.Outbox.{
  Row, Rows, update_where, mark_notification_delivered, mark_notification_failed,
}
use kite_rail.Notify.Outbox.Keys.{
  attempts_of, attempts_of-update, Within, Sound, Keeps, update_where-Distinct,
}

update_where-Within :
    (n : ℕ) (p : Row → Bool) (f : Row → Row)
    → ((r : Row) → (f r).attempts ≡ r.attempts)
    → (rows : Rows) → Within n rows
    → Within n (update_where p f rows)
unfolding update_where
update_where-Within n p f same [] w = tt
update_where-Within n p f same (r ∷ rows) w = elim (Bool-cases (p r)) [
  | inl chosen ↦ rw chosen (ground (arith, same r, w.0), update_where-Within n p f same rows w.1)
  | inr other ↦ rw other (w.0, update_where-Within n p f same rows w.1)
]

-- Between two tables, the attempts of a key stay and soundness is kept.
abbrev pub Counts : ℕ → Text → ℕ → Rows → Rows → Type 0
Counts id channel n rows rows' =
    (attempts_of id channel rows' ≡ attempts_of id channel rows) × (Sound n rows → Sound n rows')

update_where-Counts :
    (id : ℕ) (channel : Text) (n : ℕ) (p : Row → Bool) (f : Row → Row)
    → Keeps f
    → ((r : Row) → (f r).attempts ≡ r.attempts)
    → (rows : Rows) → Counts id channel n rows (update_where p f rows)
update_where-Counts id channel n p f keeps same rows = (
  attempts_of-update id channel p f keeps same rows,
  λ s. (update_where-Distinct p f keeps rows s.0, update_where-Within n p f same rows s.1),
)

module _ (id : ℕ) (channel : Text) (n i : ℕ) (c : Text) (rows : Rows) where
  pub delivered-Counts :
      (now : ℕ) → Counts id channel n rows (mark_notification_delivered now i c rows)
  unfolding mark_notification_delivered
  delivered-Counts now = update_where-Counts id channel n _ _ (λ r. (refl, refl)) (λ r. refl) rows

  pub failed-Counts :
      (next : ℕ) (cause : Text)
      → Counts id channel n rows (mark_notification_failed next cause i c rows)
  unfolding mark_notification_failed
  failed-Counts next cause =
      update_where-Counts id channel n _ _ (λ r. (refl, refl)) (λ r. refl) rows
