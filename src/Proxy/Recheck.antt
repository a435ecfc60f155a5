-- ===== src/Proxy/Recheck.antt =====
-- `NewPolicyRecheck` of backend/internal/proxy/adapter.go: the decision on a stored request.
pub mod Folding
pub mod Tidy
pub mod Captured
pub mod Same
use kite_rail.Prelude.{Option, none, List}
use kite_rail.Prelude.Text.{Text}
use kite_rail.Prelude.Headers.{Headers}
use kite_rail.Policy.{ProxyDecision}
use kite_rail.Mcp.Json.{Token}
use kite_rail.Ledger.Timestamp.{Time}
use kite_rail.Proxy.Adapter.{Parsed, parsed, rejected, parse}
use kite_rail.Proxy.World.{EvalInput}
use kite_rail.Proxy.Handler.{eval_input}

module _ (lex : Text → Option (List Token)) (evaluate : EvalInput → Option ProxyDecision) where
  -- `none` is an error.
  unfoldable pub recheck_parsed : Time → Text → Parsed → Option ProxyDecision
  recheck_parsed now agent (rejected e) = none
  recheck_parsed now agent (parsed inv) = evaluate (eval_input agent now inv)

  unfoldable pub policy_recheck : Time → Text → Text → Headers → Option ProxyDecision
  unfolding recheck_parsed
  policy_recheck now agent payload headers = recheck_parsed now agent (parse lex headers payload)
