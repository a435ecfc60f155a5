-- ===== src/Proxy/Upstream.antt =====
-- The `Rewrite` hook of `NewHandler` and `StripAgentControlledHeaders`, backend/internal/proxy/proxy.go.
pub mod Trusted
use kite_rail.Prelude.{Bool, ◌||◌, List, [], ◌∷◌, ◌++◌, not, filter, if◌then◌else◌}
use kite_rail.Prelude.Text.{Text, codes, text_eq, has_prefix}
use kite_rail.Prelude.Headers.{Headers, canonical, set}
use kite_rail.Proxy.World.{Url, Outgoing}

-- The `case` of the switch, on a header name.
unfoldable pub is_agent_controlled : Text → Bool
is_agent_controlled name =
    let key = canonical name in
    text_eq key (codes "Authorization")
    || text_eq key (codes "Proxy-Authorization")
    || text_eq key (codes "Cookie")
    || text_eq key (codes "Idempotency-Key")
    || has_prefix key (codes "X-Elodea-")
    || has_prefix key (codes "X-Kiterail-")

unfoldable pub strip_agent_controlled_headers : Headers → Headers
strip_agent_controlled_headers header = filter (λ kv. not (is_agent_controlled kv.0)) header

-- The service credential, if one is configured.
unfoldable pub set_token : Text → Headers → Headers
set_token [] header = header
set_token (c ∷ token) header = set (codes "Authorization") (codes "Bearer " ++ (c ∷ token)) header

-- The headers of the outgoing request, for the agent of the incoming one.
unfoldable pub upstream_headers : Text → Text → Headers → Headers
unfolding strip_agent_controlled_headers set_token
upstream_headers token agent header =
    set_token token (set (codes "X-Elodea-Agent") agent (strip_agent_controlled_headers header))

unfoldable pub rewrite : Url → Text → Text → Outgoing → Outgoing
rewrite target token agent out = record out {
  url = target;
  headers = upstream_headers token agent out.headers;
}
