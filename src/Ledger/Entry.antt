-- ===== src/Ledger/Entry.antt =====
-- `calculateHash` of backend/internal/ledger/ledger.go over the rows of the ledger table
-- (backend/internal/db/models.go). SHA-256 is a parameter.
use kite_rail.Prelude.{ℕ, List, [], ◌∷◌, ◌++◌, length}
use kite_rail.Prelude.Text.{Text, decimal, hex}
use kite_rail.Ledger.Timestamp.{Time, normalize_timestamp, format}

pub record LedgerEntry : Type 0 where
  pub seq_num : ℕ
  pub timestamp : Time
  pub agent : Text
  pub tool : Text
  pub decision : Text
  pub policy_rule : Text
  pub payload_hash : Text
  pub prev_hash : Text
  pub hash : Text
  pub request_id : Text
  pub policy_version : Text

-- The version joins the hash only when it is set.
unfoldable pub version_field : Text → List Text
version_field [] = []
version_field (c ∷ s) = (c ∷ s) ∷ []

unfoldable pub hashed_fields : LedgerEntry → List Text
unfolding version_field
hashed_fields e =
    decimal e.seq_num
    ∷ format (normalize_timestamp e.timestamp)
    ∷ e.agent
    ∷ e.tool
    ∷ e.decision
    ∷ e.policy_rule
    ∷ e.payload_hash
    ∷ e.request_id
    ∷ e.prev_hash
    ∷ version_field e.policy_version

-- `fmt.Fprintf(&data, "%d:%s;", len(f), f)` for each field.
unfoldable pub encode : List Text → Text
encode [] = []
encode (f ∷ fs) = decimal (length f) ++ (b':' ∷ (f ++ (b';' ∷ encode fs)))

module _ (sha256 : Text → Text) where
  unfoldable pub calculate_hash : LedgerEntry → Text
  calculate_hash e = hex (sha256 (encode (hashed_fields e)))
