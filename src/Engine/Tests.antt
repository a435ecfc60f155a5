-- ===== src/Engine/Tests.antt =====
-- An engine that allows every request, and a watch over a directory that breaks and is mended.
use kite_rail.Prelude.{ℕ, ◌≡◌, true, Option, none, some, List, [], ◌∷◌}
use kite_rail.Prelude.Text.{Text, codes}
use kite_rail.Engine.{string, object, result, Query, Engine, Bundle, evaluate}
use kite_rail.Engine.FailClosed.{FailsClosed, evaluate-FailsClosed}

abbrev lenient : Query ℕ
lenient = record {
  modules =
      record {
        package_path = codes "data.elodea.authz";
        rules = record { path = codes "data.elodea.authz.decision"; arguments = 0 } ∷ [];
      }
      ∷ [];
  eval = λ n.
      result (
        object
          ((codes "action", string (codes "allow")) ∷ (codes "rule", string (codes "r")) ∷ []));
}

abbrev engine : Engine ℕ
engine = record { query = lenient; ready = true; version = codes "v1" }

evaluate-FailsClosed_example :
    FailsClosed (lenient.eval 3) (evaluate engine 3)
    × ((evaluate engine 3).policy_version ≡ codes "v1")
evaluate-FailsClosed_example = evaluate-FailsClosed engine 3

abbrev ticks : List (Option Text × Bundle ℕ)
ticks =
    (some (codes "v2"), record { fingerprint = some (codes "v2"); compiled = none })
    ∷ (some (codes "v3"), record { fingerprint = some (codes "v3"); compiled = some lenient })
    ∷ []
