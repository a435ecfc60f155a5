-- ===== src/Notify/Escape.antt =====
-- An escaped text cannot open a link or a mention, and stands for the text that was escaped.
use kite_rail.Prelude.{
  ℕ, ◌≡◌, ◌≢◌, ◌⊎◌, refl, inl, inr, false, [], ◌∷◌, ◌++◌, All, All-append, ◌==◌, ==_iff, Bool-cases,
  arith,
}
use kite_rail.Prelude.Text.{Text, codes}
use kite_rail.Notify.{entity, slack_escape}

-- No byte opens or closes a control sequence of Slack's.
abbrev pub IsInert : Text → Type 0
IsInert s = All (λ c. (c ≢ b'<') × (c ≢ b'>')) s

-- A byte that has no meaning of its own in Slack's messages.
abbrev pub IsPlain : ℕ → Type 0
IsPlain c = (c ≢ b'&') × (c ≢ b'<') × (c ≢ b'>')

-- What Slack shows for a text: plain bytes as they are, and the three entities as one byte each.
pub data Shows : Text → Text → Type 0 where
  nothing : Shows [] []
  plain : {c : ℕ} {s t : Text} → IsPlain c → Shows s t → Shows (c ∷ s) (c ∷ t)
  ampersand : {s t : Text} → Shows s t → Shows (codes "&amp;" ++ s) (b'&' ∷ t)
  less : {s t : Text} → Shows s t → Shows (codes "&lt;" ++ s) (b'<' ∷ t)
  greater : {s t : Text} → Shows s t → Shows (codes "&gt;" ++ s) (b'>' ∷ t)

-- The entity of a byte, by what the byte is.
entity-cases :
    (c : ℕ)
    → ((c ≡ b'&') × (entity c ≡ codes "&amp;"))
      ⊎ (((c ≡ b'<') × (entity c ≡ codes "&lt;"))
          ⊎ (((c ≡ b'>') × (entity c ≡ codes "&gt;")) ⊎ (IsPlain c × (entity c ≡ c ∷ []))))
unfolding entity
entity-cases c = elim (Bool-cases (c == b'&')) [
  | inl a ↦ inl ((==_iff c b'&').0 a, rw a refl)
  | inr not_a ↦ elim (Bool-cases (c == b'<')) [
    | inl l ↦ inr (inl ((==_iff c b'<').0 l, rw (not_a, l) refl))
    | inr not_l ↦ elim (Bool-cases (c == b'>')) [
      | inl g ↦ inr (inr (inl ((==_iff c b'>').0 g, rw (not_a, not_l, g) refl)))
      | inr not_g ↦ inr (
          inr (
            inr (
              (
                (λ p. cc ((==_iff c b'&').1 p)),
                (λ p. cc ((==_iff c b'<').1 p)),
                (λ p. cc ((==_iff c b'>').1 p)),
              ),
              rw (not_a, not_l, not_g) refl,
            )))
    ]
  ]
]

other_code : (c d : ℕ) → (c == d) ≡ false → c ≢ d
other_code c d h p = cc ((==_iff c d).1 p)

entity-IsInert : (c : ℕ) → IsInert (entity c)
entity-IsInert c = elim (entity-cases c) [
  | inl (p, e) ↦ rw e (ground arith)
  | inr (inl (p, e)) ↦ rw e (ground arith)
  | inr (inr (inl (p, e))) ↦ rw e (ground arith)
  | inr (inr (inr (p, e))) ↦ rw e ((p.1, p.2), tt)
]

Shows-entity : (c : ℕ) (s t : Text) → Shows s t → Shows (entity c ++ s) (c ∷ t)
Shows-entity c s t h = elim (entity-cases c) [
  | inl (p, e) ↦ rw (e, p) (ampersand h)
  | inr (inl (p, e)) ↦ rw (e, p) (less h)
  | inr (inr (inl (p, e))) ↦ rw (e, p) (greater h)
  | inr (inr (inr (p, e))) ↦ rw e (plain p h)
]

-- An escaped text holds neither `<` nor `>`, so that no link and no mention stands in it, and what
-- Slack shows for it is the text that was escaped.
pub slack_escape-Shows : (s : Text) → IsInert (slack_escape s) × Shows (slack_escape s) s
unfolding slack_escape
slack_escape-Shows [] = (tt, nothing)
slack_escape-Shows (c ∷ s) =
    let (inert, shown) = slack_escape-Shows s in
    (All-append _ (entity c) (slack_escape s) (entity-IsInert c) inert, Shows-entity c _ s shown)
