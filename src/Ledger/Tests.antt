-- ===== src/Ledger/Tests.antt =====
-- A ledger of three entries under a toy digest, and what the theorems say of it.
use kite_rail.Prelude.{
  ℕ, ◌≡◌, ◌≢◌, ◌⊎◌, ◌↔◌, refl, true, false, none, some, List, [], ◌∷◌, ◌++◌, arith, length, ◌<◌,
  ◌==◌, if◌then◌else◌, zero, suc,
}
use kite_rail.Prelude.Text.{Text, codes, text_eq, decimal, hex, pad}
use kite_rail.Prelude.Numbers.{nonneg}
use kite_rail.Ledger.Timestamp.{Time, IsStored, is_zero, normalize_timestamp, format}
use kite_rail.Ledger.Entry.{LedgerEntry, hashed_fields, encode, calculate_hash}
use kite_rail.Ledger.Encoding.{SameContents, hashed_fields-injective}
use kite_rail.Ledger.Verify.{Anchor, VerifyReport, verify_chain, verify}
use kite_rail.Ledger.Verify.Accepts.{Accepts, verify_chain_exact}
use kite_rail.Ledger.Chain.{head_hash, IsChain, Collision, AllStored}
use kite_rail.Ledger.Anchoring.{anchor_detects_rewriting}
use kite_rail.Ledger.Append.{
  serialization_failure, Faults, Attempts, insert_failed, ok, seal_entry, append_once,
  is_serialization_failure, append,
}
use kite_rail.Ledger.Append.Extends.{
  extended, Appended, AtAttempt, append_extends, append_all, append_all-verify,
}
use kite_rail.Ledger.Append.Liveness.{Conflicts, append_succeeds}
use kite_rail.Ledger.Page.{PageQuery}

abbrev toy_digest : Text → Text
toy_digest s = 7 ∷ s

toy_digest-ne-nil : (s : Text) → toy_digest s ≢ []
toy_digest-ne-nil s p = cc

abbrev noon : Time
noon = record {
  year = nonneg 2026;
  month = 3;
  day = 1;
  hour = 12;
  minute = 0;
  second = 0;
  nanosecond = 5000;
}

-- What a caller hands to `Append`.
abbrev draft : Text → LedgerEntry
draft agent = record {
  seq_num = 0;
  timestamp = noon;
  agent = agent;
  tool = codes "pay";
  decision = codes "allow";
  policy_rule = codes "r";
  payload_hash = codes "f0";
  prev_hash = [];
  hash = [];
  request_id = [];
  policy_version = codes "v1";
}

abbrev first : LedgerEntry
first = seal_entry toy_digest noon (0, []) (draft (codes "a"))

abbrev second : LedgerEntry
second = seal_entry toy_digest noon (1, first.hash) (draft (codes "b"))

abbrev third : LedgerEntry
third = seal_entry toy_digest noon (2, second.hash) (draft (codes "a"))

abbrev two : List LedgerEntry
two = second ∷ first ∷ []

abbrev three : List LedgerEntry
three = third ∷ two

abbrev anchor : Anchor
anchor = record { seq_num = second.seq_num; hash = second.hash }

abbrev good : VerifyReport
good = record {
  valid = true;
  entries = 3;
  head_seq = 3;
  head_hash = third.hash;
  first_invalid_seq = 0;
  reason = none;
}

two-IsChain : IsChain toy_digest two
unfolding seal_entry head_hash calculate_hash hashed_fields
two-IsChain = (refl, refl, (refl, refl, tt))

three-IsChain : IsChain toy_digest three
unfolding seal_entry head_hash calculate_hash hashed_fields
three-IsChain = (refl, refl, two-IsChain)

noon-IsStored : IsStored noon
noon-IsStored = record {
  month_range = omega arith;
  day_range = omega arith;
  hour_range = omega arith;
  minute_range = omega arith;
  second_range = omega arith;
  nanosecond_range = omega arith;
  microseconds = refl;
}

two-AllStored : AllStored two
unfolding seal_entry normalize_timestamp is_zero
two-AllStored = (noon-IsStored, (noon-IsStored, tt))

three-AllStored : AllStored three
unfolding seal_entry normalize_timestamp is_zero
three-AllStored = (noon-IsStored, two-AllStored)

three-good : verify_chain toy_digest (some anchor) none three ≡ some good
unfolding verify_chain seal_entry calculate_hash hashed_fields text_eq hex encode decimal format
    normalize_timestamp is_zero pad
three-good = refl

anchor_detects_rewriting_example :
    ((newer : List LedgerEntry) × (three ≡ newer ++ two)) ⊎ Collision toy_digest
anchor_detects_rewriting_example =
    anchor_detects_rewriting toy_digest toy_digest-ne-nil second (first ∷ []) three good two-IsChain
      two-AllStored three-AllStored three-good refl

verify_chain_exact_example :
    (r : VerifyReport) × (verify_chain toy_digest (some anchor) none three ≡ some r)
    × ((r.valid ≡ true) ↔ Accepts toy_digest (some anchor) three)
    × (r.valid ≡ true → r.entries ≡ length three)
verify_chain_exact_example = verify_chain_exact toy_digest (some anchor) three

hashed_fields-injective_example : SameContents first (record first { hash = codes "forged" })
unfolding seal_entry normalize_timestamp is_zero calculate_hash hex encode hashed_fields
hashed_fields-injective_example =
    hashed_fields-injective first (record first { hash = codes "forged" }) noon-IsStored
      noon-IsStored refl

abbrev no_fault : Faults
no_fault = record { begins = none; locks = none; reads_tip = none; inserts = none; commits = none }

-- Postgres reports a conflict at the first attempt.
abbrev contended : Attempts
contended = record {
  faults =
      λ k. if k == 0 then record no_fault { inserts = some serialization_failure } else no_fault;
  now = λ k. noon;
  cancelled = λ k. false;
}

append_extends_example :
    IsChain toy_digest (append toy_digest contended (draft (codes "c")) three).1
    × Appended toy_digest
        (AtAttempt toy_digest contended)
        (draft (codes "c"))
        three
        (append toy_digest contended (draft (codes "c")) three)
append_extends_example = append_extends toy_digest contended (draft (codes "c")) three three-IsChain

append_all-verify_example :
    verify toy_digest none (
      append_all toy_digest
        ((contended, draft (codes "a")) ∷ (contended, draft (codes "b")) ∷ [])
        [])
    ≡ some true
append_all-verify_example =
    append_all-verify toy_digest
      ((contended, draft (codes "a")) ∷ (contended, draft (codes "b")) ∷ [])

first-Conflicts : (j : ℕ) → j < 1 → Conflicts toy_digest contended (draft (codes "c")) three j
unfolding append_once is_serialization_failure
first-Conflicts zero h = (insert_failed serialization_failure, refl, refl, refl)
first-Conflicts (suc j) h = absurd (omega arith)

append_succeeds_example :
    append toy_digest contended (draft (codes "c")) three
    ≡ (ok, extended toy_digest noon (draft (codes "c")) three)
append_succeeds_example =
    append_succeeds toy_digest contended (draft (codes "c")) three 1 (omega arith) first-Conflicts
      (record { begins = refl; locks = refl; reads_tip = refl; inserts = refl; commits = refl })

abbrev by_a : PageQuery
by_a = record { before_seq = 0; limit = 1; agent = codes "a"; decision = []; tool = [] }
