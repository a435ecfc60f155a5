-- ===== src/Proxy/Ingress/Stages.antt =====
-- The checks on the members of a request, from the last to the first.
use kite_rail.Prelude.{
  ℕ, ◌≡◌, ◌≢◌, inl, inr, refl, sym, ◌∙◌, ap, Bool, true, false, Option, none, some, [], ◌∷◌,
  Bool-cases,
}
use mathlib.Core.Option.{some-injective}
use kite_rail.Prelude.Text.{Text, codes, text_eq}
use kite_rail.Mcp.Json.{
  Scalar, string, number, Value, leaf, array, object, null, bool, Fields, lookup,
}
use kite_rail.Proxy.Ingress.{
  bad_method, IngressRequest, Validated, valid, invalid, tools_call, as_string, name_field,
  call_tool, complete, require_name, check_name, check_params, check_method,
}

-- The arguments that the policy sees: those of the body, none if the body has none.
abbrev pub SameArguments : Option Value → Option Fields → Type 0
SameArguments none a = a ≡ none
SameArguments (some (object f)) a = a ≡ some f
SameArguments (some _) a = ⊥

-- The subject of a tool call is the tool that the parameters name, with its arguments; that of any
-- other method is the method, with all parameters.
abbrev pub SubjectOf : Bool → Fields → IngressRequest → Type 0
SubjectOf true params ing =
    (as_string (lookup (codes "name") params) ≡ ing.tool)
    × SameArguments (lookup (codes "arguments") params) ing.arguments
SubjectOf false params ing = (ing.tool ≡ ing.method) × (ing.arguments ≡ some params)

abbrev pub Subject : Fields → IngressRequest → Type 0
Subject params ing = SubjectOf (text_eq ing.method tools_call) params ing

-- A result for this id: `P` of an accepted request.
abbrev pub Outcome : (IngressRequest → Type 0) → Option Scalar → Validated → Type 0
Outcome P id (valid ing) = P ing × (ing.response_id ≡ id)
Outcome P id (invalid reason answered) = answered ≡ id

abbrev About : Text → Fields → IngressRequest → Type 0
About method params ing = (ing.method ≡ method) × (ing.tool ≢ []) × Subject params ing

cons-ne-nil : (c : ℕ) (s : Text) → c ∷ s ≢ []
cons-ne-nil c s = cc

call_tool-Outcome :
    (c : ℕ) (name : Text) (id : Option Scalar) (o : Option Value) (params : Fields) (method : Text)
    → as_string (lookup (codes "name") params) ≡ c ∷ name
    → lookup (codes "arguments") params ≡ o
    → text_eq method tools_call ≡ true
    → Outcome (About method params) id (call_tool method (c ∷ name) id o)
unfolding call_tool
call_tool-Outcome c name id none params method n a t =
    ((refl, cons-ne-nil c name, rw t (n, rw a refl)), refl)
call_tool-Outcome c name id (some (object f)) params method n a t =
    ((refl, cons-ne-nil c name, rw t (n, rw a refl)), refl)
call_tool-Outcome c name id (some (leaf s)) params method n a t = refl
call_tool-Outcome c name id (some (array xs)) params method n a t = refl

complete-Outcome :
    (c : ℕ) (m name : Text) (id : Option Scalar) (params : Fields)
    → (text_eq (c ∷ m) tools_call ≡ true
        → (name ≢ []) × (as_string (lookup (codes "name") params) ≡ name))
    → Outcome (About (c ∷ m) params) id (complete (c ∷ m) name id params)
unfolding complete
complete-Outcome c m name id params n = elim (Bool-cases (text_eq (c ∷ m) tools_call)) [
  | inl tool ↦ rw tool (by_name name (n tool) tool)
  | inr plain ↦ rw plain ((refl, cons-ne-nil c m, rw plain (refl, refl)), refl)
]
  where
    by_name :
        (s : Text)
        → (s ≢ []) × (as_string (lookup (codes "name") params) ≡ s)
        → text_eq (c ∷ m) tools_call ≡ true
        → Outcome
            (About (c ∷ m) params)
            id
            (call_tool (c ∷ m) s id (lookup (codes "arguments") params))
    by_name [] h tool = absurd (h.0 refl)
    by_name (x ∷ s) h tool = call_tool-Outcome x s id _ params (c ∷ m) h.1 refl tool

require_name-Outcome :
    (c : ℕ) (m name : Text) (id : Option Scalar) (params : Fields)
    → (text_eq (c ∷ m) tools_call ≡ true → as_string (lookup (codes "name") params) ≡ name)
    → Outcome (About (c ∷ m) params) id (require_name (c ∷ m) name id params)
unfolding require_name
require_name-Outcome c m [] id params n = refl
require_name-Outcome c m (x ∷ name) id params n =
    complete-Outcome c m (x ∷ name) id params (λ t. (cons-ne-nil x name, n t))

name_field-tools_call :
    (method : Text) → text_eq method tools_call ≡ true → name_field method ≡ some (codes "name")
unfolding name_field
name_field-tools_call method t = rw t refl

check_name-Outcome :
    (c : ℕ) (m : Text) (o : Option Text) (id : Option Scalar) (params : Fields)
    → (text_eq (c ∷ m) tools_call ≡ true → o ≡ some (codes "name"))
    → Outcome (About (c ∷ m) params) id (check_name (c ∷ m) o id params)
unfolding check_name
check_name-Outcome c m none id params n = complete-Outcome c m [] id params (λ t. cc (n t))
check_name-Outcome c m (some field) id params n =
    require_name-Outcome c m _ id params
      (λ t. ap (λ k. as_string (lookup k params)) (some-injective _ _ (sym (n t))))

check_params-Outcome :
    (c : ℕ) (m : Text) (id : Option Scalar) (v : Value)
    → Outcome
        (λ ing. (params : Fields) × (v ≡ object params) × About (c ∷ m) params ing)
        id
        (check_params (c ∷ m) id v)
unfolding check_params
check_params-Outcome c m id (leaf s) = refl
check_params-Outcome c m id (array xs) = refl
check_params-Outcome c m id (object params) =
    widen (check_name (c ∷ m) (name_field (c ∷ m)) id params)
      (check_name-Outcome c m _ id params (name_field-tools_call (c ∷ m)))
  where
    widen :
        (v : Validated)
        → Outcome (About (c ∷ m) params) id v
        → Outcome (λ ing. (ps : Fields) × (object params ≡ object ps) × About (c ∷ m) ps ing) id v
    widen (valid ing) h = ((params, refl, h.0), h.1)
    widen (invalid r i) h = h

as_string-cons :
    (v : Value) (c : ℕ) (s : Text) → as_string (some v) ≡ c ∷ s → v ≡ leaf (string (c ∷ s))
unfolding as_string
as_string-cons (leaf (string t)) c s h = rw h refl
as_string-cons (leaf (number t)) c s h = cc
as_string-cons (leaf null) c s h = cc
as_string-cons (leaf (bool b)) c s h = cc
as_string-cons (array xs) c s h = cc
as_string-cons (object fs) c s h = cc

-- The members `method` and `params` are those of the request.
pub record Members (mo po : Option Value) (ing : IngressRequest) : Type 0 where
  pub params : Fields
  pub method_member : mo ≡ some (leaf (string ing.method))
  pub params_member : po ≡ some (object params)
  pub named : ing.tool ≢ []
  pub subject : Subject params ing

pub check_method-Outcome :
    (id : Option Scalar) (mo po : Option Value) → Outcome (Members mo po) id (check_method id mo po)
unfolding check_method
check_method-Outcome id none po = refl
check_method-Outcome id (some mv) none = refl
check_method-Outcome id (some mv) (some pv) = by_text (as_string (some mv)) refl
  where
    widen :
        (c : ℕ) (m : Text) (v : Validated)
        → mv ≡ leaf (string (c ∷ m))
        → Outcome (λ ing. (params : Fields) × (pv ≡ object params) × About (c ∷ m) params ing) id v
        → Outcome (Members (some mv) (some pv)) id v
    widen c m (invalid r i) e h = h
    widen c m (valid ing) e ((params, p, (same, named, subject)), answered) = (
      record {
        params = params;
        method_member = ap some (e ∙ ap (λ x. leaf (string x)) (sym same));
        params_member = ap some p;
        named = named;
        subject = subject;
      },
      answered,
    )

    by_text :
        (t : Text)
        → as_string (some mv) ≡ t
        → Outcome (Members (some mv) (some pv)) id (elim t as (λ _. Validated) [
          | [] ↦ invalid bad_method id
          | c ∷ s ↦ check_params (c ∷ s) id pv
        ])
    by_text [] e = refl
    by_text (c ∷ s) e = widen c s _ (as_string-cons mv c s e) (check_params-Outcome c s id pv)
