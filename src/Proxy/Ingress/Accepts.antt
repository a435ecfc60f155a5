-- ===== src/Proxy/Ingress/Accepts.antt =====
-- Well-formed tool calls are accepted.
use kite_rail.Prelude.{ℕ, ◌≡◌, refl, false, Option, none, some, List, ◌∷◌}
use kite_rail.Prelude.Text.{Text, codes, text_eq}
use kite_rail.Mcp.Json.{
  Scalar, string, number, null, bool, array, Value, leaf, object, Fields, Token, ok, lookup, exists,
  decode_object,
}
use kite_rail.Proxy.Ingress.{
  valid, id_text, name_field, tools_call, check_id, check_envelope, check_method, check_params,
  check_name, require_name, complete, call_tool, as_string, validate_ingress,
}

-- The id that a body may have, and how it is kept.
abbrev pub IdOf : Option Value → Option Scalar → Type 0
IdOf none id = id ≡ none
IdOf (some (leaf (string s))) id = id ≡ some (string s)
IdOf (some (leaf (number s))) id = id ≡ some (number s)
IdOf (some _) id = ⊥

-- The arguments that a tool call may have, and how they are kept.
abbrev pub ArgumentsOf : Option Value → Option Fields → Type 0
ArgumentsOf none a = a ≡ none
ArgumentsOf (some (object f)) a = a ≡ some f
ArgumentsOf (some _) a = ⊥

check_id-IdOf :
    (body : Fields) (o : Option Value) (id : Option Scalar)
    → IdOf o id
    → check_id body o ≡ check_envelope body id
unfolding check_id
check_id-IdOf body none id e = rw e refl
check_id-IdOf body (some (leaf (string s))) id e = rw e refl
check_id-IdOf body (some (leaf (number s))) id e = rw e refl
check_id-IdOf body (some (leaf null)) id e = absurd e
check_id-IdOf body (some (leaf (bool b))) id e = absurd e
check_id-IdOf body (some (array xs)) id e = absurd e
check_id-IdOf body (some (object fs)) id e = absurd e

call_tool-ArgumentsOf :
    (name : Text) (id : Option Scalar) (o : Option Value) (a : Option Fields)
    → ArgumentsOf o a
    → call_tool tools_call name id o
      ≡ valid (record {
        method = tools_call;
        params_name = name;
        tool = name;
        arguments = a;
        request_id = id_text id;
        response_id = id;
      })
unfolding call_tool
call_tool-ArgumentsOf name id none a e = rw e refl
call_tool-ArgumentsOf name id (some (object f)) a e = rw e refl
call_tool-ArgumentsOf name id (some (leaf s)) a e = absurd e
call_tool-ArgumentsOf name id (some (array xs)) a e = absurd e

check_params-tools_call :
    (id : Option Scalar) (params : Fields) (c : ℕ) (name : Text)
    → lookup (codes "name") params ≡ some (leaf (string (c ∷ name)))
    → check_params tools_call id (object params)
      ≡ call_tool tools_call (c ∷ name) id (lookup (codes "arguments") params)
unfolding check_params check_name name_field text_eq require_name complete as_string
check_params-tools_call id params c name n = rw n refl

-- A body that decodes to an object of version 2.0 with a permitted id, without `result` and `error`,
-- whose method is tools/call and whose parameters name a tool and hold an object of arguments or
-- none, is accepted as a call of that tool with those arguments and that id.
pub validate_ingress-accepts :
    (lex : Text → Option (List Token)) (text : Text) (body params : Fields) (c : ℕ) (name : Text)
    (id : Option Scalar) (a : Option Fields)
    → decode_object lex text ≡ ok body
    → IdOf (lookup (codes "id") body) id
    → exists (codes "result") body ≡ false
    → exists (codes "error") body ≡ false
    → lookup (codes "jsonrpc") body ≡ some (leaf (string (codes "2.0")))
    → lookup (codes "method") body ≡ some (leaf (string tools_call))
    → lookup (codes "params") body ≡ some (object params)
    → lookup (codes "name") params ≡ some (leaf (string (c ∷ name)))
    → ArgumentsOf (lookup (codes "arguments") params) a
    → validate_ingress lex text
      ≡ valid (record {
        method = tools_call;
        params_name = c ∷ name;
        tool = c ∷ name;
        arguments = a;
        request_id = id_text id;
        response_id = id;
      })
unfolding validate_ingress check_envelope check_method text_eq as_string
validate_ingress-accepts lex text body params c name id a d i r e j m p n as_given =
    rw
      (
        d,
        validate_ingress,
        check_id-IdOf body _ id i,
        r,
        e,
        j,
        m,
        p,
        check_params-tools_call id params c name n,
      )
      (call_tool-ArgumentsOf (c ∷ name) id _ a as_given)
