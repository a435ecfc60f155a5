-- ===== src/Engine/FailClosed.antt =====
-- Whatever OPA answers, the decision is well formed, and an allow is one that a policy has authored.
use kite_rail.Prelude.{◌≡◌, ◌⊎◌, refl, inl, inr, true, false, Bool-cases}
use kite_rail.Prelude.Text.{Text, codes}
use kite_rail.Policy.{deny, action_of, is_valid, ProxyDecision}
use kite_rail.Engine.{
  object, scalar, Evaluation, eval_error, no_result, result, Engine, string_field, is_blank,
  invalid_policy_decision, authored, decision_of, evaluate,
}

-- The policy has answered with an object whose action is this one and whose rule is not blank.
abbrev pub Authored : Evaluation → ProxyDecision → Type 0
Authored eval_error d = ⊥
Authored no_result d = ⊥
Authored (result scalar) d = ⊥
Authored (result (object fields)) d =
    (d.action ≡ action_of (string_field (codes "action") fields))
    × (d.rule ≡ string_field (codes "rule") fields)
    × (d.explanation ≡ string_field (codes "explanation") fields)

-- The action is one of the three, and a rule is named.
abbrev pub WellFormed : ProxyDecision → Type 0
WellFormed d = (is_valid d.action ≡ true) × (is_blank d.rule ≡ false)

-- Well formed, and a denial unless a policy has authored it.
abbrev pub FailsClosed : Evaluation → ProxyDecision → Type 0
FailsClosed answer d = WellFormed d × ((d.action ≡ deny) ⊎ Authored answer d)

authored-fails_closed :
    (action rule explanation : Text)
    → let d = authored action rule explanation in
      WellFormed d
      × ((d.action ≡ deny)
          ⊎ ((d.action ≡ action_of action) × (d.rule ≡ rule) × (d.explanation ≡ explanation)))
unfolding authored invalid_policy_decision is_valid is_blank
authored-fails_closed action rule explanation = elim (Bool-cases (is_valid (action_of action))) [
  | inr invalid ↦ rw invalid ((refl, refl), inl refl)
  | inl valid ↦ elim (Bool-cases (is_blank rule)) [
    | inl blank ↦ rw (valid, blank) ((refl, refl), inl refl)
    | inr named ↦ simp (valid, named) ((refl, refl), inr (refl, refl, refl))
  ]
]

decision_of-FailsClosed : (answer : Evaluation) → FailsClosed answer (decision_of answer)
unfolding decision_of invalid_policy_decision is_valid is_blank
decision_of-FailsClosed eval_error = ((refl, refl), inl refl)
decision_of-FailsClosed no_result = ((refl, refl), inl refl)
decision_of-FailsClosed (result scalar) = ((refl, refl), inl refl)
decision_of-FailsClosed (result (object fields)) = authored-fails_closed _ _ _

-- Every evaluation ends in a decision whose action is allow, deny or quarantine, which names a rule
-- that is not blank and carries the version of the active bundle. It is a denial, or its action,
-- rule and explanation are those of the object that the policy has answered with: an error, a
-- missing result and a malformed one deny.
pub evaluate-FailsClosed :
    {Input : Type 0} (e : Engine Input) (input : Input)
    → FailsClosed (e.query.eval input) (evaluate e input)
      × ((evaluate e input).policy_version ≡ e.version)
unfolding evaluate
evaluate-FailsClosed e input = (carried (e.query.eval input) (decision_of-FailsClosed _), refl)
  where
    carried :
        (answer : Evaluation)
        → FailsClosed answer (decision_of answer)
        → FailsClosed answer (record (decision_of answer) { policy_version = e.version })
    carried eval_error h = h
    carried no_result h = h
    carried (result scalar) h = h
    carried (result (object fields)) h = h
