-- ===== src/Proxy/World.antt =====
-- What the proxy acts on: everything that has left it, newest first, and the number of calls so far.
-- The environment decides for each call, by its number, how it ends.
use kite_rail.Prelude.{ℕ, ◌+◌, Bool, true, false, Option, none, some, List, ◌∷◌, if◌then◌else◌}
use kite_rail.Prelude.Text.{Text}
use kite_rail.Prelude.Headers.{Headers}
use kite_rail.Policy.{ProxyDecision}
use kite_rail.Ledger.Timestamp.{Time}
use kite_rail.Ledger.Entry.{LedgerEntry}
use kite_rail.Mcp.Json.{Fields}
use kite_rail.Proxy.Adapter.{Response}

-- `types.EvalInput`
pub record EvalInput : Type 0 where
  pub protocol : Text
  pub version : Text
  pub tool : Text
  pub arguments : Option Fields
  pub agent : Text
  pub timestamp : Time
  pub raw_method : Text

-- The parts of a URL that the rewriting of a request sets, and those that it leaves as they came.
pub record Url : Type 0 where
  pub scheme : Text
  pub host : Text
  pub path : Text
  pub raw_path : Text
  pub raw_query : Text

pub record UrlRest : Type 0 where
  pub opaque : Text
  -- Empty, if there is none.
  pub user : Text
  pub force_query : Bool

-- A request that was handed to the transport of the reverse proxy.
pub record Outgoing : Type 0 where
  pub url : Url
  pub url_rest : UrlRest
  pub headers : Headers
  pub body : Text

-- The arguments of a call of the quarantine store's `Create` that succeeded, and its result.
pub record Held : Type 0 where
  pub agent : Text
  pub tool : Text
  pub payload : Text
  pub headers : Headers
  pub rule : Text
  pub explanation : Text
  pub id : Text

pub data Effect : Type 0 where
  audited : LedgerEntry → Effect
  forwarded : Outgoing → Effect
  held : Held → Effect

pub record World : Type 0 where
  pub history : List Effect
  pub calls : ℕ

-- `none` is an error: of the engine, of the quarantine store, of the upstream.
pub record Env : Type 0 where
  pub now : ℕ → Time
  pub evaluate : ℕ → EvalInput → Option ProxyDecision
  pub ledger_fails : ℕ → Bool
  pub create : ℕ → Option Text
  pub upstream : ℕ → Option Response

abbrev pub M : Type 0 → Type 0
M A = World → A × World

abbrev pub pure : {A : Type 0} → A → M A
pure a w = (a, w)

infixl 5 ◌>>=◌ ◌>>◌
abbrev pub ◌>>=◌ : {A B : Type 0} → M A → (A → M B) → M B
◌>>=◌ m f w = let (a, w') = m w in f a w'

abbrev pub ◌>>◌ : {B : Type 0} → M (Unit {0}) → M B → M B
m >> k = m >>= λ _. k

-- A call that leaves no trace.
abbrev pub ask : {A : Type 0} → (ℕ → A) → M A
ask f w = (f w.calls, record w { calls = w.calls + 1 })

abbrev pub emit : Effect → World → World
emit e w = record { history = e ∷ w.history; calls = w.calls + 1 }

module _ (env : Env) where
  -- `ledgerStore.Append`; true if it returns nil.
  unfoldable pub on_ledger : LedgerEntry → M Bool
  on_ledger entry w =
      if env.ledger_fails w.calls
      then (false, record w { calls = w.calls + 1 })
      else (true, emit (audited entry) w)

  -- `quarantineStore.Create`, on its arguments but the id.
  unfoldable pub on_store : (Text → Held) → M (Option Text)
  on_store held_as w = elim (env.create w.calls) [
    | none ↦ (none, record w { calls = w.calls + 1 })
    | some id ↦ (some id, emit (held (held_as id)) w)
  ]

  -- The round trip of the reverse proxy.
  unfoldable pub round_trip : Outgoing → M (Option Response)
  round_trip out w = (env.upstream w.calls, emit (forwarded out) w)
