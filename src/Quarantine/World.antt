-- ===== src/Quarantine/World.antt =====
-- What the replay worker and the reviewer API act on: the quarantine table and everything that has
-- left the process, newest first. The environment decides for each call, by its number, whether it
-- fails, what time it is, and what the upstream answers.
use kite_rail.Prelude.{ℕ, ◌+◌, Bool, true, false, List, [], ◌∷◌, if◌then◌else◌}
use kite_rail.Prelude.Text.{Text, hex}
use kite_rail.Prelude.Headers.{Headers}
use kite_rail.Ledger.Timestamp.{zero_time}
use kite_rail.Ledger.Entry.{LedgerEntry}
use kite_rail.Quarantine.Table.{Rows}
use kite_rail.Quarantine.Store.{Result}

-- A request for the held action with this id, as it was handed to the HTTP client.
pub record Post : Type 0 where
  pub entry_id : Text
  pub body : Text
  pub headers : Headers

pub data Effect : Type 0 where
  -- An entry that the ledger has accepted.
  appended : LedgerEntry → Effect
  -- One call of `httpClient.Do`, whether or not an answer came. What the client's transport makes of
  -- the request is outside the model: that of net/http may send one with an idempotency key again,
  -- unchanged, when a connection fails.
  posted : Post → Effect

pub record World : Type 0 where
  pub rows : Rows
  pub history : List Effect
  pub calls : ℕ

pub data Upstream : Type 0 where
  unreachable : Upstream
  status_code : ℕ → Upstream

-- What the attempt to take the advisory lock meets.
pub data Lock : Type 0 where
  begin_failed query_failed busy granted : Lock

pub record Env : Type 0 where
  pub store_fails : ℕ → Bool
  pub ledger_fails : ℕ → Bool
  pub cancelled : ℕ → Bool
  pub lock : ℕ → Lock
  pub locked_rows : ℕ → ℕ → Bool
  -- Rows that were claimed, but whose answer cannot be read.
  pub answer_lost : ℕ → Bool
  pub now : ℕ → ℕ
  pub upstream : ℕ → Upstream

abbrev pub M : Type 0 → Type 0
M A = World → A × World

abbrev pub pure : {A : Type 0} → A → M A
pure a w = (a, w)

infixl 5 ◌>>=◌ ◌>>◌
abbrev pub ◌>>=◌ : {A B : Type 0} → M A → (A → M B) → M B
◌>>=◌ m f w = let (a, w') = m w in f a w'

abbrev pub ◌>>◌ : {B : Type 0} → M (Unit {0}) → M B → M B
m >> k = m >>= λ _. k

-- The fields that a caller of `Append` leaves out are zero.
abbrev pub audit_entry : Text → Text → Text → Text → Text → Text → Text → LedgerEntry
audit_entry agent tool decision rule payload_hash request_id policy_version = record {
  seq_num = 0;
  timestamp = zero_time;
  agent = agent;
  tool = tool;
  decision = decision;
  policy_rule = rule;
  payload_hash = payload_hash;
  prev_hash = [];
  hash = [];
  request_id = request_id;
  policy_version = policy_version;
}

module _ (env : Env) where
  -- A call of the store.
  unfoldable pub on_store : {A : Type 0} → (Bool → ℕ → Rows → Result A × Rows) → M (Result A)
  on_store f w =
      let (r, rows') = f (env.store_fails w.calls) (env.now w.calls) w.rows in
      (r, record w { rows = rows'; calls = w.calls + 1 })

  -- `lStore.Append`; true if it returns nil.
  unfoldable pub on_ledger : LedgerEntry → M Bool
  on_ledger entry w =
      if env.ledger_fails w.calls
      then (false, record w { calls = w.calls + 1 })
      else (true, record w { history = appended entry ∷ w.history; calls = w.calls + 1 })

  -- `httpClient.Do`, with the outcome of the whole call.
  unfoldable pub send : Post → M Upstream
  send post w =
      (env.upstream w.calls, record w { history = posted post ∷ w.history; calls = w.calls + 1 })

-- `payloadHash`
unfoldable pub payload_hash : (Text → Text) → Text → Text
payload_hash sha256 payload = hex (sha256 payload)
