-- ===== src/Proxy/Ingress/Subject.antt =====
-- What an accepted request says is what its body says, and a rejection answers the body's id.
use kite_rail.Prelude.{
  ◌≡◌, ◌≢◌, inl, inr, refl, sym, subst, false, Option, none, some, List, [], Bool-cases,
}
use kite_rail.Prelude.Text.{Text, codes, text_eq, text_eq_iff}
use kite_rail.Mcp.Json.{
  Scalar, string, number, Value, leaf, array, object, null, bool, Fields, Token, Result, ok, err,
  lookup, exists, decode_object,
}
use kite_rail.Proxy.Ingress.{
  undecodable, IngressRequest, Validated, valid, invalid, as_string, check_envelope, check_id,
  validate_ingress,
}
use kite_rail.Proxy.Ingress.Stages.{Subject, Outcome, Members, check_method-Outcome}

-- The request is the one that the members of the body describe.
pub record Describes (body : Fields) (ing : IngressRequest) : Type 0 where
  pub params : Fields
  pub no_result : exists (codes "result") body ≡ false
  pub no_error : exists (codes "error") body ≡ false
  pub version : as_string (lookup (codes "jsonrpc") body) ≡ codes "2.0"
  pub method_member : lookup (codes "method") body ≡ some (leaf (string ing.method))
  pub params_member : lookup (codes "params") body ≡ some (object params)
  pub named : ing.tool ≢ []
  pub subject : Subject params ing

check_envelope-Outcome :
    (body : Fields) (id : Option Scalar) → Outcome (Describes body) id (check_envelope body id)
unfolding check_envelope
check_envelope-Outcome body id = elim (Bool-cases (exists (codes "result") body)) [
  | inl response ↦ rw response refl
  | inr none_result ↦ elim (Bool-cases (exists (codes "error") body)) [
    | inl failure ↦ rw (none_result, failure) refl
    | inr none_error ↦
        elim (Bool-cases (text_eq (as_string (lookup (codes "jsonrpc") body)) (codes "2.0"))) [
          | inr older ↦ rw (none_result, none_error, older) refl
          | inl current ↦
              rw (none_result, none_error, current)
                (widen none_result none_error ((text_eq_iff _ (codes "2.0")).0 current) _
                  (check_method-Outcome id _ _))
        ]
  ]
]
  where
    widen :
        exists (codes "result") body ≡ false
        → exists (codes "error") body ≡ false
        → as_string (lookup (codes "jsonrpc") body) ≡ codes "2.0"
        → (v : Validated)
        → Outcome (Members (lookup (codes "method") body) (lookup (codes "params") body)) id v
        → Outcome (Describes body) id v
    widen r e j (invalid reason i) h = h
    widen r e j (valid ing) h = (
      record {
        params = h.0.params;
        no_result = r;
        no_error = e;
        version = j;
        method_member = h.0.method_member;
        params_member = h.0.params_member;
        named = h.0.named;
        subject = h.0.subject;
      },
      h.1,
    )

-- The id of an answer is that of the body, or there is none.
abbrev pub Answers : Option Scalar → Fields → Type 0
Answers none body = Unit
Answers (some s) body = lookup (codes "id") body ≡ some (leaf s)

-- What is returned for a body: a request that it describes, or a rejection with its id.
abbrev pub Faithful : Result Fields → Validated → Type 0
Faithful (ok body) (valid ing) = Describes body ing × Answers ing.response_id body
Faithful (ok body) (invalid reason id) = Answers id body
Faithful (err e) (valid ing) = ⊥
Faithful (err e) (invalid reason id) = id ≡ none

with_id :
    (body : Fields) (id : Option Scalar) (v : Validated)
    → Answers id body
    → Outcome (Describes body) id v
    → Faithful (ok body) v
with_id body id (valid ing) a h = (h.0, subst (λ i. Answers i body) (sym h.1) a)
with_id body id (invalid reason i) a h = subst (λ i. Answers i body) (sym h) a

check_id-Faithful :
    (body : Fields) (o : Option Value)
    → lookup (codes "id") body ≡ o
    → Faithful (ok body) (check_id body o)
unfolding check_id
check_id-Faithful body none e = with_id body none _ tt (check_envelope-Outcome body none)
check_id-Faithful body (some (leaf (string s))) e =
    with_id body (some (string s)) _ e (check_envelope-Outcome body _)
check_id-Faithful body (some (leaf (number s))) e =
    with_id body (some (number s)) _ e (check_envelope-Outcome body _)
check_id-Faithful body (some (leaf null)) e = tt
check_id-Faithful body (some (leaf (bool b))) e = tt
check_id-Faithful body (some (array xs)) e = tt
check_id-Faithful body (some (object fs)) e = tt

-- Every body is validated faithfully. An accepted request comes from a JSON object of version 2.0,
-- without `result` and `error`, whose `method` is the request's. The policy subject is not empty: for a tool call it is the tool that the parameters name, with the arguments of the
-- body and none if it has none, and for another method the method itself with all parameters.
-- The id that any answer carries, also that to a rejection, is the body's, or there is none.
pub validate_ingress-Faithful :
    (lex : Text → Option (List Token)) (text : Text)
    → Faithful (decode_object lex text) (validate_ingress lex text)
unfolding validate_ingress
validate_ingress-Faithful lex text = by_result (decode_object lex text)
  where
    by_result :
        (r : Result Fields)
        → Faithful r (elim r as (λ _. Validated) [
          | err e ↦ invalid (undecodable e) none
          | ok fields ↦ check_id fields (lookup (codes "id") fields)
        ])
    by_result (err e) = refl
    by_result (ok fields) = check_id-Faithful fields _ refl
