-- ===== src/Proxy/Ingress.antt =====
-- `validateIngress` of backend/internal/proxy/proxy.go. The texts of its errors are constructors.
pub mod Stages
pub mod Subject
pub mod Accepts
use kite_rail.Prelude.{Bool, true, false, ◌||◌, Option, none, some, List, [], ◌∷◌, if◌then◌else◌}
use kite_rail.Prelude.Text.{Text, codes, text_eq}
use kite_rail.Mcp.Json.{
  Scalar, string, number, Value, leaf, object, Fields, Token, Error, ok, err, lookup, exists,
  decode_object,
}

-- `arguments` is `none` for a nil map, and `response_id` is `none` for nil.
pub record IngressRequest : Type 0 where
  pub method : Text
  pub params_name : Text
  pub tool : Text
  pub arguments : Option Fields
  pub request_id : Text
  pub response_id : Option Scalar

pub data Reason : Type 0 where
  undecodable : Error → Reason
  bad_id client_response client_error bad_version missing_fields bad_method bad_params : Reason
  missing_name bad_arguments : Reason

-- An error comes with the id that a response to it carries.
pub data Validated : Type 0 where
  valid : IngressRequest → Validated
  invalid : Reason → Option Scalar → Validated

abbrev pub tools_call : Text
tools_call = codes "tools/call"

unfoldable pub id_text : Option Scalar → Text
id_text (some (string s)) = s
id_text (some (number s)) = s
id_text _ = []

-- `value.(string)`, the empty text if it is absent or of another kind.
unfoldable pub as_string : Option Value → Text
as_string (some (leaf (string s))) = s
as_string _ = []

-- The member that names the subject of a method, if it has one.
unfoldable pub name_field : Text → Option Text
name_field method =
    if text_eq method tools_call || text_eq method (codes "prompts/get")
    then some (codes "name")
    else if text_eq method (codes "resources/read")
    then some (codes "uri")
    else none

-- The arguments of a tool call.
unfoldable pub call_tool : Text → Text → Option Scalar → Option Value → Validated
call_tool method name id none = valid (record {
  method = method;
  params_name = name;
  tool = name;
  arguments = none;
  request_id = id_text id;
  response_id = id;
})
call_tool method name id (some (object arguments)) = valid (record {
  method = method;
  params_name = name;
  tool = name;
  arguments = some arguments;
  request_id = id_text id;
  response_id = id;
})
call_tool method name id (some _) = invalid bad_arguments id

-- The request, once the name is known.
unfoldable pub complete : Text → Text → Option Scalar → Fields → Validated
unfolding call_tool
complete method name id params =
    if text_eq method tools_call
    then call_tool method name id (lookup (codes "arguments") params)
    else valid (record {
      method = method;
      params_name = name;
      tool = method;
      arguments = some params;
      request_id = id_text id;
      response_id = id;
    })

unfoldable pub require_name : Text → Text → Option Scalar → Fields → Validated
unfolding complete
require_name method [] id params = invalid missing_name id
require_name method (c ∷ name) id params = complete method (c ∷ name) id params

unfoldable pub check_name : Text → Option Text → Option Scalar → Fields → Validated
unfolding require_name
check_name method none id params = complete method [] id params
check_name method (some member) id params =
    require_name method (as_string (lookup member params)) id params

unfoldable pub check_params : Text → Option Scalar → Value → Validated
unfolding check_name
check_params method id (object params) = check_name method (name_field method) id params
check_params method id _ = invalid bad_params id

unfoldable pub check_method : Option Scalar → Option Value → Option Value → Validated
unfolding check_params
check_method id (some method) (some params) = elim (as_string (some method)) [
  | [] ↦ invalid bad_method id
  | c ∷ s ↦ check_params (c ∷ s) id params
]
check_method id _ _ = invalid missing_fields id

-- The envelope behind the id.
unfoldable pub check_envelope : Fields → Option Scalar → Validated
unfolding check_method
check_envelope body id =
    if exists (codes "result") body
    then invalid client_response id
    else if exists (codes "error") body
    then invalid client_error id
    else if text_eq (as_string (lookup (codes "jsonrpc") body)) (codes "2.0")
    then check_method id (lookup (codes "method") body) (lookup (codes "params") body)
    else invalid bad_version id

unfoldable pub check_id : Fields → Option Value → Validated
unfolding check_envelope
check_id body none = check_envelope body none
check_id body (some (leaf (string s))) = check_envelope body (some (string s))
check_id body (some (leaf (number s))) = check_envelope body (some (number s))
check_id body (some _) = invalid bad_id none

module _ (lex : Text → Option (List Token)) where
  unfoldable pub validate_ingress : Text → Validated
  unfolding check_id
  validate_ingress body = elim (decode_object lex body) [
    | err e ↦ invalid (undecodable e) none
    | ok fields ↦ check_id fields (lookup (codes "id") fields)
  ]
