-- ===== src/Mcp/Tests.antt =====
-- The allowlist of replay headers at a row that somebody has edited.
use kite_rail.Prelude.{◌≡◌, refl, Option, some, [], ◌∷◌}
use kite_rail.Prelude.Text.{Text, codes, text_eq, has_prefix}
use kite_rail.Prelude.Headers.{Headers, to_lower, lookup, add, put, canonical}
use kite_rail.Mcp.Headers.{decode_replay_headers}

-- A decoder that finds an allowlisted header and a cookie in every text.
abbrev pub edited : Text → Option Headers
edited s = some ((codes "accept", codes "a" ∷ []) ∷ (codes "Cookie", codes "c" ∷ []) ∷ [])

abbrev pub kept : Headers
kept = (codes "Accept", codes "a" ∷ []) ∷ []

pub edited-kept : decode_replay_headers edited (codes "row") ≡ some kept
unfolding decode_replay_headers text_eq to_lower has_prefix add lookup put canonical
edited-kept = refl

kept_accept : lookup (codes "Accept") kept ≡ some (codes "a" ∷ [])
unfolding lookup text_eq
kept_accept = refl
