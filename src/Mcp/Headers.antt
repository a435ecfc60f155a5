-- ===== src/Mcp/Headers.antt =====
-- backend/internal/mcp/headers.go: which headers of a held request are stored and replayed.
pub mod Filter
use kite_rail.Prelude.{Bool, not, ◌&&◌, ◌||◌, Option, none, some, List, [], ◌∷◌, map, if◌then◌else◌}
use kite_rail.Prelude.Text.{Text, codes, text_eq, has_prefix}
use kite_rail.Prelude.Headers.{Headers, to_lower, add}

-- The `switch` on the lower-case name.
unfoldable pub is_replayable : Text → Bool
is_replayable lower_name =
    text_eq lower_name (codes "accept")
    || text_eq lower_name (codes "mcp-method")
    || text_eq lower_name (codes "mcp-name")
    || text_eq lower_name (codes "mcp-protocol-version")
    || (has_prefix lower_name (codes "mcp-param-") && not (text_eq lower_name (codes "mcp-param-")))

-- `for _, value := range values { captured.Add(name, value) }`
unfoldable pub add_all : Text → List Text → Headers → Headers
add_all name [] captured = captured
add_all name (v ∷ vs) captured = add_all name vs (add name v captured)

-- The loop over the request's headers.
unfoldable pub capture_onto : Headers → Headers → Headers
unfolding is_replayable add_all
capture_onto captured [] = captured
capture_onto captured ((name, values) ∷ rest) =
    capture_onto
      (if is_replayable (map to_lower name) then add_all name values captured else captured) rest

unfoldable pub capture_replay_headers : Headers → Headers
unfolding capture_onto
capture_replay_headers header = capture_onto [] header

-- `json_unmarshal` stands for `json.Unmarshal` into an `http.Header`; `none` is its error.
module _ (json_unmarshal : Text → Option Headers) where
  unfoldable pub decode_replay_headers : Text → Option Headers
  unfolding capture_replay_headers
  decode_replay_headers [] = some []
  decode_replay_headers (c ∷ encoded) = elim (json_unmarshal (c ∷ encoded)) [
    | none ↦ none
    | some stored ↦ some (capture_replay_headers stored)
  ]
