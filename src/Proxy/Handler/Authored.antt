-- ===== src/Proxy/Handler/Authored.antt =====
-- The proxy with the policy engine: what is sent upstream was allowed by a policy.
use kite_rail.Prelude.{ℕ, ◌+◌, ◌≡◌, ◌⊎◌, refl, sym, ◌∙◌, ap, inl, inr, some, false}
use mathlib.Core.Option.{some-injective}
use kite_rail.Prelude.Text.{codes}
use kite_rail.Policy.{allow, action_of, ProxyDecision}
use kite_rail.Engine.{
  Engine, Evaluation, object, scalar, eval_error, no_result, result, string_field, is_blank,
}
use kite_rail.Engine
use kite_rail.Engine.FailClosed.{Authored, evaluate-FailsClosed}
use kite_rail.Proxy.Adapter.{Invocation, parsed, parse}
use kite_rail.Proxy.World.{EvalInput, World, Env}
use kite_rail.Proxy.Handler.{Handler, Request, eval_input, agent_of, serve_http}
use kite_rail.Proxy.Handler.Mediation.{Quiet, Allowed, serve_http-Mediated}

-- The environment whose engine is this one, as it stands at each call. Its `Evaluate` has no errors.
abbrev pub with_engine : (ℕ → Engine EvalInput) → Env → Env
with_engine engine env = record env {
  evaluate = λ n input. some (Engine.evaluate (engine n) input);
}

-- OPA has answered with an object whose action is "allow" and whose rule is not blank.
abbrev pub AnswersAllow : Evaluation → Type 0
AnswersAllow answer =
    (fields : _) × (answer ≡ result (object fields))
    × (action_of (string_field (codes "action") fields) ≡ allow)
    × (is_blank (string_field (codes "rule") fields) ≡ false)

-- The request parses, and OPA has answered its very input with such an object.
abbrev pub AllowedByPolicy : (ℕ → Engine EvalInput) → Env → Handler → Request → World → Type 0
AllowedByPolicy engine env h r w =
    (inv : Invocation) × (parse h.lex r.headers r.bytes ≡ parsed inv)
    × AnswersAllow
        ((engine (w.calls + 1)).query.eval (eval_input (agent_of r) (env.now w.calls) inv))

Authored-AnswersAllow :
    (answer : Evaluation) (d : ProxyDecision)
    → Authored answer d
    → d.action ≡ allow
    → is_blank d.rule ≡ false
    → AnswersAllow answer
Authored-AnswersAllow eval_error d h a named = absurd h
Authored-AnswersAllow no_result d h a named = absurd h
Authored-AnswersAllow (result scalar) d h a named = absurd h
Authored-AnswersAllow (result (object fields)) d h a named =
    (fields, refl, sym h.0 ∙ a, ap is_blank (sym h.1) ∙ named)

-- With the policy engine behind it, which may be reloaded at any time, the proxy sends a request
-- upstream only if the request parses and the policy in force has answered the input that it parses
-- to with an object whose action is allow and whose rule is not blank: an error, a missing result, an
-- answer that is no object and an allow without a rule send nothing.
pub serve_http-AllowedByPolicy :
    (engine : ℕ → Engine EvalInput) (env : Env) (h : Handler) (r : Request) (w : World)
    → Quiet env h w (serve_http (with_engine engine env) h r w).1 ⊎ AllowedByPolicy engine env h r w
serve_http-AllowedByPolicy engine env h r w =
    elim (serve_http-Mediated (with_engine engine env) h r w) [
      | inl quiet ↦ inl quiet
      | inr sent ↦ inr (sent.inv, sent.understood, by_policy sent)
    ]
  where
    by_policy :
        (sent : Allowed
          (with_engine engine env)
          h
          r
          w
          (serve_http (with_engine engine env) h r w).1)
        → AnswersAllow
            ((engine (w.calls + 1)).query.eval (eval_input (agent_of r) (env.now w.calls) sent.inv))
    by_policy sent =
        let input = eval_input (agent_of r) (env.now w.calls) sent.inv in
        let d = Engine.evaluate (engine (w.calls + 1)) input in
        let same : d ≡ sent.decision = some-injective _ _ sent.decided in
        let allowed : d.action ≡ allow = ap (λ x. x.action) same ∙ sent.allowed in
        let (well_formed, origin) = (evaluate-FailsClosed (engine (w.calls + 1)) input).0 in
        elim origin [
          | inl denied ↦ cc (denied, allowed)
          | inr authored ↦ Authored-AnswersAllow _ d authored allowed well_formed.1
        ]
