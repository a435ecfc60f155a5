-- ===== src/Engine.antt =====
-- The policy engine, backend/internal/opaengine/engine.go. OPA is a parameter: a prepared query is what
-- its evaluation answers, and the parsed modules behind it. Logging and metrics are left out.
pub mod FailClosed
pub mod Reloads
mod Tests
use kite_rail.Prelude.{
  ℕ, Bool, true, false, not, ◌&&◌, ◌||◌, ◌==◌, leb, Option, none, some, List, [], ◌∷◌, ◌++◌, any,
  if◌then◌else◌,
}
use kite_rail.Prelude.Text.{Text, codes, text_eq, has_prefix}
use kite_rail.Policy.{Action, deny, action_of, is_valid, ProxyDecision}

-- A field of a result: a string, or a value of another kind.
pub data Field : Type 0 where
  string : Text → Field
  other_value : Field

-- The first expression of a result: an object, or a value of another kind.
pub data Value : Type 0 where
  object : List (Text × Field) → Value
  scalar : Value

-- What `query.Eval` returns: an error, no result or one without expressions, or a value.
pub data Evaluation : Type 0 where
  eval_error no_result : Evaluation
  result : Value → Evaluation

-- A rule with its reference and the number of its arguments, and a module with its package path.
pub record Rule : Type 0 where
  pub path : Text
  pub arguments : ℕ

pub record Module : Type 0 where
  pub package_path : Text
  pub rules : List Rule

-- `rego.PreparedEvalQuery` over inputs of a type.
pub record Query (Input : Type 0) : Type 0 where
  pub modules : List Module
  pub eval : Input → Evaluation

pub record Engine (Input : Type 0) : Type 0 where
  pub query : Query Input
  pub ready : Bool
  pub version : Text

-- `fields[key].(string)`, the empty text if it is absent or of another kind.
unfoldable pub string_field : Text → List (Text × Field) → Text
string_field key [] = []
string_field key ((k, string s) ∷ rest) = if text_eq k key then s else string_field key rest
string_field key ((k, other_value) ∷ rest) = if text_eq k key then [] else string_field key rest

-- The white space that `strings.TrimSpace` cuts, in UTF-8, of one, two and three bytes.
abbrev space1 : ℕ → Bool
space1 c = (leb 9 c && leb c 13) || (c == 32)

abbrev space2 : ℕ → ℕ → Bool
space2 c d = (c == 194) && ((d == 133) || (d == 160))

abbrev space3 : ℕ → ℕ → ℕ → Bool
space3 c d e =
    ((c == 225) && (d == 154) && (e == 128))
    || ((c == 226)
        && (d == 128)
        && ((leb 128 e && leb e 138) || (e == 168) || (e == 169) || (e == 175)))
    || ((c == 226) && (d == 129) && (e == 159))
    || ((c == 227) && (d == 128) && (e == 128))

-- `strings.TrimSpace(s) == ""`
unfoldable pub is_blank : Text → Bool
is_blank [] = true
is_blank (c ∷ []) = space1 c
is_blank (c ∷ d ∷ []) = (space1 c && space1 d) || space2 c d
is_blank (c ∷ d ∷ e ∷ s) =
    (space1 c && is_blank (d ∷ e ∷ s))
    || (space2 c d && is_blank (e ∷ s))
    || (space3 c d e && is_blank s)

abbrev denial : Text → Text → ProxyDecision
denial rule explanation = record {
  action = deny;
  rule = rule;
  explanation = explanation;
  policy_version = [];
}

unfoldable pub invalid_policy_decision : ProxyDecision
invalid_policy_decision =
    denial (codes "invalid_policy_decision") (codes "Policy engine returned an invalid decision")

-- The checks on the fields of an object.
unfoldable pub authored : Text → Text → Text → ProxyDecision
unfolding invalid_policy_decision
authored action rule explanation =
    if not (is_valid (action_of action)) || is_blank rule then invalid_policy_decision else record {
      action = action_of action;
      rule = rule;
      explanation = explanation;
      policy_version = [];
    }

-- The dash of the explanations, three bytes in UTF-8, and what follows it.
abbrev failing_closed : Text
failing_closed = 226 ∷ 128 ∷ 148 ∷ codes " failing closed"

-- `evaluate`, on the answer of the query.
unfoldable pub decision_of : Evaluation → ProxyDecision
unfolding invalid_policy_decision authored
decision_of eval_error =
    denial (codes "policy_eval_error") (codes "Policy evaluation failed " ++ failing_closed)
decision_of no_result =
    denial (codes "no_policy_decision") (codes "No policy produced a decision " ++ failing_closed)
decision_of (result scalar) = invalid_policy_decision
decision_of (result (object fields)) =
    authored (string_field (codes "action") fields) (string_field (codes "rule") fields)
      (string_field (codes "explanation") fields)

-- `hasDecisionPolicy` and `usesLegacyPackage`
unfoldable pub has_decision_policy : List Module → Bool
has_decision_policy modules =
    any
      (λ m.
        any
          (λ r.
            (r.arguments == 0)
            && (text_eq r.path (codes "data.elodea.authz.decision")
                || has_prefix r.path (codes "data.elodea.authz.decision.")))
          m.rules)
      modules

unfoldable pub uses_legacy_package : List Module → Bool
uses_legacy_package modules =
    any (λ m. has_prefix m.package_path (codes "data.kiterail.authz")) modules

-- What a reload finds: the fingerprint of the bundle and the compiled query, `none` for an error.
pub record Bundle (Input : Type 0) : Type 0 where
  pub fingerprint : Option Text
  pub compiled : Option (Query Input)

module _ {Input : Type 0} where
  -- `Evaluate`
  unfoldable pub evaluate : Engine Input → Input → ProxyDecision
  unfolding decision_of
  evaluate e input = record (decision_of (e.query.eval input)) { policy_version = e.version }

  -- The end of `reload`: refuse a legacy bundle, or publish the query.
  unfoldable pub publish : Text → Query Input → Engine Input → Bool × Engine Input
  unfolding has_decision_policy uses_legacy_package
  publish version query e =
      let ready = has_decision_policy query.modules in
      if not ready && uses_legacy_package query.modules
      then (false, e)
      else (true, record { query = query; ready = ready; version = version })

  -- `Reload`: whether it succeeds, and the engine behind it.
  unfoldable pub reload : Bundle Input → Engine Input → Bool × Engine Input
  unfolding publish
  reload bundle e = elim (bundle.fingerprint) [
    | none ↦ (false, e)
    | some version ↦ elim (bundle.compiled) [
      | none ↦ (false, e)
      | some query ↦ publish version query e
    ]
  ]

  -- A tick of `WatchForChanges`: the fingerprint that it sees, and what a reload then finds.
  unfoldable pub watch_tick : Option Text → Bundle Input → Engine Input → Engine Input
  unfolding reload
  watch_tick none bundle e = e
  watch_tick (some current) bundle e = if text_eq current e.version then e else (reload bundle e).1

  unfoldable pub watch : List (Option Text × Bundle Input) → Engine Input → Engine Input
  unfolding watch_tick
  watch [] e = e
  watch ((seen, bundle) ∷ ticks) e = watch ticks (watch_tick seen bundle e)
