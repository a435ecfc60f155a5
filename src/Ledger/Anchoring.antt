-- ===== src/Ledger/Anchoring.antt =====
-- What an anchor that was recorded outside the database proves of a later table.
use kite_rail.Prelude.{
  ◌≡◌, ◌≢◌, ◌⊎◌, inl, inr, refl, ◌∙◌, ap, Bool, true, none, some, List, [], ◌∷◌, ◌++◌, All, any,
  ==_iff, Bool-cases, subst,
}
use kite_rail.Prelude.Text.{Text}
use kite_rail.Ledger.Timestamp.{IsStored}
use kite_rail.Ledger.Entry.{LedgerEntry}
use kite_rail.Ledger.Chain.{head_hash, IsChain, Collision, AllStored, head_determines_chain}
use kite_rail.Ledger.Verify.{Anchor, VerifyReport, verify_chain}
use kite_rail.Ledger.Verify.Sound.{Agrees, mentions}
use kite_rail.Ledger.Verify.Accepts.{verify_chain_exact}

-- A row that passes a test, with what stands before and behind it.
abbrev Located : (LedgerEntry → Bool) → List LedgerEntry → Type 0
Located p rows =
    (newer : List LedgerEntry) × (x : LedgerEntry) × (older : List LedgerEntry) × (rows
      ≡ newer ++ (x ∷ older))
    × (p x ≡ true)

any-Located :
    (p : LedgerEntry → Bool) (rows : List LedgerEntry) → any p rows ≡ true → Located p rows
any-Located p [] h = cc
any-Located p (e ∷ es) h = elim (Bool-cases (p e)) [
  | inl here ↦ ([], e, es, refl, here)
  | inr there ↦
      let (newer, x, older, split, passes) = any-Located p es (rw (there, any) at h) in
      (e ∷ newer, x, older, ap (λ l. e ∷ l) split, passes)
]

All-suffix {ℓ} :
    (P : LedgerEntry → Type ℓ) (newer tail : List LedgerEntry) → All P (newer ++ tail) → All P tail
All-suffix P [] tail h = h
All-suffix P (e ∷ newer) tail h = All-suffix P newer tail h.1

module _ (sha256 : Text → Text) where
  IsChain-suffix :
      (newer tail : List LedgerEntry) → IsChain sha256 (newer ++ tail) → IsChain sha256 tail
  IsChain-suffix [] tail h = h
  IsChain-suffix (e ∷ newer) tail h = IsChain-suffix newer tail h.2

  -- If SHA-256 never returns the empty text, and the timestamps of both tables have whole
  -- microseconds below a second, and months, days, hours, minutes and seconds of at most two digits,
  -- in any year, then a table that verifies, without a failing read, against an anchor taken from the
  -- newest entry of an earlier chain still ends in that whole chain, unless two different texts with
  -- one digest are at hand.
  pub anchor_detects_rewriting :
      (nonempty : (s : Text) → sha256 s ≢ [])
      → (e : LedgerEntry) (old rows : List LedgerEntry) (r : VerifyReport)
      → IsChain sha256 (e ∷ old)
      → AllStored (e ∷ old)
      → AllStored rows
      → verify_chain sha256 (some (record { seq_num = e.seq_num; hash = e.hash })) none rows
        ≡ some r
      → r.valid ≡ true
      → ((newer : List LedgerEntry) × (rows ≡ newer ++ (e ∷ old))) ⊎ Collision sha256
  unfolding head_hash
  anchor_detects_rewriting nonempty e old rows r chain stored stored' ran valid =
      let anchor : Anchor = record { seq_num = e.seq_num; hash = e.hash } in
      let (r', ran', exact, count) = verify_chain_exact sha256 (some anchor) rows in
      let same : r ≡ r' = cc in
      let valid' : r'.valid ≡ true = cc in
      let (chained, agreed, present) = exact.0 valid' in
      let (newer, x, older, split, passes) = any-Located (mentions (some anchor)) rows present in
      let tail = x ∷ older in
      let chain' = IsChain-suffix newer tail (subst (λ l. IsChain sha256 l) split chained) in
      let kept =
        All-suffix (λ d. IsStored d.timestamp) newer tail (subst AllStored split stored') in
      let agree =
        All-suffix (Agrees (some anchor)) newer tail
          (subst (All (Agrees (some anchor))) split agreed) in
      let hashes : x.hash ≡ e.hash = agree.0 ((==_iff x.seq_num e.seq_num).0 passes) in
      elim (head_determines_chain sha256 nonempty tail (e ∷ old) chain' chain kept stored hashes) [
        | inl equal ↦ inl (newer, split ∙ ap (λ l. newer ++ l) equal)
        | inr collision ↦ inr collision
      ]
