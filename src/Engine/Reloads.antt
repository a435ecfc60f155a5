-- ===== src/Engine/Reloads.antt =====
-- Which policy an engine that watches its directory enforces.
use kite_rail.Prelude.{◌≡◌, ◌⊎◌, true, false, Option, some, List, [], ◌∷◌}
use kite_rail.Prelude.Text.{Text}
use kite_rail.Engine.{Engine, Bundle, has_decision_policy, uses_legacy_package}

module _ {Input : Type 0} where
  -- The engine serves this bundle, which has compiled and is not one of the old package only.
  abbrev pub Serves : Bundle Input → Engine Input → Type 0
  Serves bundle e =
      (bundle.fingerprint ≡ some e.version)
      × (bundle.compiled ≡ some e.query)
      × (e.ready ≡ has_decision_policy e.query.modules)
      × ((e.ready ≡ true) ⊎ (uses_legacy_package e.query.modules ≡ false))

  abbrev pub ServesOne : List (Option Text × Bundle Input) → Engine Input → Type 0
  ServesOne [] e = ⊥
  ServesOne ((seen, bundle) ∷ ticks) e = Serves bundle e ⊎ ServesOne ticks e
