-- ===== src/Notify/Outbox/Keys.antt =====
-- Each key has one row, whose attempts stay within the limit.
use kite_rail.Prelude.{
  ℕ, ◌+◌, ◌≤◌, ◌≡◌, refl, ◌∙◌, ap₂, ◌==◌, Bool, false, ◌&&◌, [], ◌∷◌, ◌++◌, map, filter, any, All,
  Bool-cases, inl, inr, arith, if◌then◌else◌,
}
use kite_rail.Prelude.Text.{Text, text_eq, text_eq_iff}
use kite_rail.Notify.Outbox.{Row, Rows, has_key, lease, update_where}

-- How many attempts the table counts for a key.
unfoldable pub attempts_of : ℕ → Text → Rows → ℕ
attempts_of id channel [] = 0
attempts_of id channel (r ∷ rows) =
    (if has_key id channel r then r.attempts else 0) + attempts_of id channel rows

unfoldable pub count_key : ℕ → Text → Rows → ℕ
count_key id channel [] = 0
count_key id channel (r ∷ rows) =
    (if has_key id channel r then 1 else 0) + count_key id channel rows

-- No two rows have the same key.
abbrev pub Distinct : Rows → Type 0
Distinct [] = Unit
Distinct (r ∷ rows) = (any (has_key r.quarantine_id r.channel) rows ≡ false) × Distinct rows

-- Each row has at most `n` attempts.
abbrev pub Within : ℕ → Rows → Type 0
Within n rows = All (λ r. r.attempts ≤ n) rows

-- An update that keeps keys and attempts.
abbrev pub Keeps : (Row → Row) → Type 0
Keeps f = (r : Row) → ((f r).quarantine_id ≡ r.quarantine_id) × ((f r).channel ≡ r.channel)

has_key-Keeps :
    (id : ℕ) (channel : Text) (f : Row → Row)
    → Keeps f
    → (r : Row) → has_key id channel (f r) ≡ has_key id channel r
unfolding has_key
has_key-Keeps id channel f keeps r =
    ap₂ (λ i c. (i == id) && text_eq c channel) (keeps r).0 (keeps r).1

any-update :
    (id : ℕ) (channel : Text) (p : Row → Bool) (f : Row → Row)
    → Keeps f
    → (rows : Rows)
    → any (has_key id channel) (update_where p f rows) ≡ any (has_key id channel) rows
unfolding update_where
any-update id channel p f keeps [] = refl
any-update id channel p f keeps (r ∷ rows) = elim (Bool-cases (p r)) [
  | inl chosen ↦
      rw chosen
        (ground (arith, has_key-Keeps id channel f keeps r, any-update id channel p f keeps rows))
  | inr other ↦ rw other (ground (arith, any-update id channel p f keeps rows))
]

pub update_where-Distinct :
    (p : Row → Bool) (f : Row → Row)
    → Keeps f
    → (rows : Rows) → Distinct rows
    → Distinct (update_where p f rows)
unfolding update_where
update_where-Distinct p f keeps [] d = tt
update_where-Distinct p f keeps (r ∷ rows) d = elim (Bool-cases (p r)) [
  | inl chosen ↦
      rw (chosen, (keeps r).0, (keeps r).1)
        (
          any-update r.quarantine_id r.channel p f keeps rows ∙ d.0,
          update_where-Distinct p f keeps rows d.1,
        )
  | inr other ↦ rw other (
    any-update r.quarantine_id r.channel p f keeps rows ∙ d.0,
    update_where-Distinct p f keeps rows d.1,
  )
]

pub attempts_of-append :
    (id : ℕ) (channel : Text) (rows more : Rows)
    → attempts_of id channel (rows ++ more)
      ≡ attempts_of id channel rows + attempts_of id channel more
unfolding attempts_of
attempts_of-append id channel [] more = omega arith
attempts_of-append id channel (r ∷ rows) more =
    omega (arith, attempts_of-append id channel rows more)

-- The updates of a delivery keep what is counted.
pub attempts_of-update :
    (id : ℕ) (channel : Text) (p : Row → Bool) (f : Row → Row)
    → Keeps f
    → ((r : Row) → (f r).attempts ≡ r.attempts)
    → (rows : Rows) → attempts_of id channel (update_where p f rows) ≡ attempts_of id channel rows
unfolding attempts_of update_where
attempts_of-update id channel p f keeps same [] = refl
attempts_of-update id channel p f keeps same (r ∷ rows) = elim (Bool-cases (p r)) [
  | inl chosen ↦ rw chosen (
      ground (
        arith,
        has_key-Keeps id channel f keeps r,
        same r,
        attempts_of-update id channel p f keeps same rows,
      ))
  | inr other ↦ rw (other, attempts_of-update id channel p f keeps same rows) refl
]

has_key-lease :
    (id : ℕ) (channel : Text) (now : ℕ) (r : Row)
    → has_key id channel (lease now r) ≡ has_key id channel r
unfolding has_key lease
has_key-lease id channel now r = refl

-- A claim adds to the attempts of a key as many as it returns rows of it.
pub claim_counts :
    (id : ℕ) (channel : Text) (p : Row → Bool) (now : ℕ) (rows : Rows)
    → attempts_of id channel (update_where p (lease now) rows)
      ≡ attempts_of id channel rows + count_key id channel (map (lease now) (filter p rows))
unfolding attempts_of update_where count_key lease
claim_counts id channel p now [] = refl
claim_counts id channel p now (r ∷ rows) = elim (Bool-cases (p r)) [
  | inl chosen ↦
      rw (chosen, filter)
        (ground (arith, has_key-lease id channel now r, claim_counts id channel p now rows))
  | inr other ↦ rw (other, filter) (ground (arith, claim_counts id channel p now rows))
]

pub has_key-swap :
    (r s : Row) → has_key r.quarantine_id r.channel s ≡ has_key s.quarantine_id s.channel r
unfolding has_key
has_key-swap r s = ground (arith, text_eq_iff r.channel s.channel, text_eq_iff s.channel r.channel)

-- What enqueueing keeps: distinct keys, the limit, and every count.
abbrev pub Sound : ℕ → Rows → Type 0
Sound n rows = Distinct rows × Within n rows
