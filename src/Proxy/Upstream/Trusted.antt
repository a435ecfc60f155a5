-- ===== src/Proxy/Upstream/Trusted.antt =====
-- What the upstream is told in the name of an agent.
use kite_rail.Prelude.{not, ◌&&◌, Option, none, some, List, [], ◌∷◌, ◌++◌, if◌then◌else◌}
use kite_rail.Prelude.Text.{Text, codes, text_eq}
use kite_rail.Prelude.Headers.{Headers}

abbrev agent_header : Text
agent_header = codes "X-Elodea-Agent"

abbrev token_header : Text
token_header = codes "Authorization"

-- What the upstream sees under a name that an agent must not choose: the agent that was
-- authenticated, the credential of the gateway if one is configured, and nothing else.
abbrev pub server_set : Text → Text → Text → Option (List Text)
server_set token agent key =
    if text_eq token_header key && not (text_eq token [])
    then some ((codes "Bearer " ++ token) ∷ [])
    else if text_eq agent_header key
    then some (agent ∷ [])
    else none

under_token : Text → Text → Option (List Text) → Option (List Text)
under_token key token o =
    if text_eq token_header key && not (text_eq token [])
    then some ((codes "Bearer " ++ token) ∷ [])
    else o

under_agent : Text → Text → Option (List Text) → Option (List Text)
under_agent key agent o = if text_eq agent_header key then some (agent ∷ []) else o
