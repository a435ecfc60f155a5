-- ===== src/Policy.antt =====
-- Policy decisions (backend/internal/types/types.go). Latencies, which are floats, are left out.
use kite_rail.Prelude.{Bool, true, false, if◌then◌else◌}
use kite_rail.Prelude.Text.{Text, codes, text_eq}

-- An `Action` is a string: one of the three, or any other.
pub data Action : Type 0 where
  allow deny quarantine : Action
  other : Text → Action

unfoldable pub action_of : Text → Action
action_of s =
    if text_eq s (codes "allow")
    then allow
    else if text_eq s (codes "deny")
    then deny
    else if text_eq s (codes "quarantine")
    then quarantine
    else other s

-- `Action.Valid`
unfoldable pub is_valid : Action → Bool
is_valid allow = true
is_valid deny = true
is_valid quarantine = true
is_valid (other s) = false

pub record ProxyDecision : Type 0 where
  pub action : Action
  pub rule : Text
  pub explanation : Text
  pub policy_version : Text
