-- ===== src/Jsonrpc.antt =====
-- fluxrpc/protocols/jsonrpc.py: the messages, how they become dicts, and the errors of JSON-RPC.
-- The protocol's methods are in the modules below.
pub mod Parse
pub mod Protocol
pub mod RoundTrip
pub mod Pending
pub mod Accepts
use aiotinyrpc.Base.{
  String, Bool, true, false, not, ◌&&◌, ◌||◌, Option, none, some, List, [], ◌∷◌, if◌then◌else◌,
}
use aiotinyrpc.Python.Int.{ℤ, negsuc}
use aiotinyrpc.Python.Value.{
  Value, Values, Fields, null, int, str, list, dict, nil, cons, end, field, truthy, truthy_list,
  truthy_dict, is_null,
}
use aiotinyrpc.Python.Exc.{
  ExcClass, Exc, Result, ok, err, isinstance, jsonrpc_parse_error, jsonrpc_invalid_request_error,
  jsonrpc_method_not_found_error, jsonrpc_invalid_params_error, jsonrpc_internal_error,
  jsonrpc_server_error, not_implemented_error, raised, invalid_request, method_not_found,
  invalid_params,
}
use aiotinyrpc.Python.Text.{str_value, str_exc}

-- `JSON_RPC_VERSION`
abbrev pub version : String
version = "2.0"

-- `JSONRPCRequest`. The method is a text in every request that the code builds.
pub record Request : Type 0 where
  pub one_way : Bool
  pub unique_id : Value
  pub method : String
  pub args : Values
  pub kwargs : Fields

-- `JSONRPCSuccessResponse` and `JSONRPCErrorResponse`. The optional value of an error response is
-- its `data` attribute, which may be missing.
pub data Response : Type 0 where
  success : Value → Value → Response
  failure : Value → Value → Value → Option Value → Response

-- What a batch request holds: a request, or the exception that its parsing raised.
pub data Item : Type 0 where
  good : Request → Item
  bad : Exc → Item

-- The two class attributes of each error class of the protocol.
unfoldable pub fixed_code : ExcClass → Option ℤ
fixed_code jsonrpc_parse_error = some (negsuc 32699)
fixed_code jsonrpc_invalid_request_error = some (negsuc 32599)
fixed_code jsonrpc_method_not_found_error = some (negsuc 32600)
fixed_code jsonrpc_invalid_params_error = some (negsuc 32601)
fixed_code jsonrpc_internal_error = some (negsuc 32602)
fixed_code jsonrpc_server_error = some (negsuc 31999)
fixed_code _ = none

unfoldable pub fixed_message : ExcClass → String
fixed_message jsonrpc_parse_error = "Parse error"
fixed_message jsonrpc_invalid_request_error = "Invalid Request"
fixed_message jsonrpc_method_not_found_error = "Method not found"
fixed_message jsonrpc_invalid_params_error = "Invalid params"
fixed_message jsonrpc_internal_error = "Internal error"
fixed_message _ = ""

-- `C(request_id=r)` for one of these classes
unfoldable pub fixed_error : ExcClass → Value → Exc
unfolding fixed_code fixed_message raised
fixed_error c r = record (raised c (cons (str (fixed_message c)) nil)) {
  message = some (fixed_message c);
  request_id = r;
  jsonrpc_error_code = fixed_code c;
}

-- `e.error_respond()`: the mixin's method, or that of the base class, which raises
unfoldable pub error_respond : Exc → Result Response
unfolding raised
error_respond e = elim e.jsonrpc_error_code [
  | none ↦ err (raised not_implemented_error nil)
  | some c ↦ elim e.message [
    | none ↦ err (raised not_implemented_error nil)
    | some m ↦ ok (failure e.request_id (str m) (int c) e.data_attr)
  ]
]

-- `_get_code_message_and_data` of an exception
module _ (render : Value → String) where
  abbrev pub server_error_of : Exc → Values → ℤ × String × Value
  server_error_of e (cons m (cons d nil)) = (negsuc 31999, str_value render m, d)
  server_error_of e vs = (negsuc 31999, str_exc render e, null)

  abbrev or_null : Option Value → Value
  or_null none = null
  or_null (some v) = v

  unfoldable pub get_code_message_and_data : Exc → ℤ × String × Value
  unfolding str_value str_exc isinstance
  get_code_message_and_data e = elim e.jsonrpc_error_code [
    | some c ↦ (c, str_exc render e, or_null e.data_attr)
    | none ↦
        if isinstance e.class invalid_request
        then (negsuc 32599, "Invalid Request", null)
        else if isinstance e.class method_not_found
        then (negsuc 32600, "Method not found", null)
        else if isinstance e.class invalid_params
        then (negsuc 32601, "Invalid params", null)
        else server_error_of e e.args
  ]

  -- `JSONRPCRequest.error_respond`
  unfoldable pub request_error_respond : Request → Exc → Option Response
  unfolding get_code_message_and_data truthy
  request_error_respond r e =
      if is_null r.unique_id
      then none
      else let (code, msg, d) = get_code_message_and_data e in
        some (
          failure (if r.one_way then null else r.unique_id) (str msg) (int code)
            (if truthy d then some d else none))

  -- `JSONRPCSuccessResponse._to_dict` and `JSONRPCErrorResponse._to_dict`
  unfoldable pub response_to_dict : Response → Fields
  unfolding str_value
  response_to_dict (success i v) =
      field "jsonrpc" (str version) (field "id" i (field "result" v end))
  response_to_dict (failure i m c d) = field "jsonrpc" (str version) (
      field "id" i (
        field "error"
          (dict (
            field "message" (str (str_value render m))
              (field "code" c (elim d [ none ↦ end | some v ↦ field "data" v end ]))))
          end))

-- `JSONRPCRequest.respond`
unfoldable pub respond : Request → Value → Option Response
respond r v = if r.one_way || is_null r.unique_id then none else some (success r.unique_id v)

-- The `params` entry: keyword arguments replace positional ones.
abbrev with_params : Request → Fields → Fields
with_params r rest =
    if truthy_dict r.kwargs
    then field "params" (dict r.kwargs) rest
    else if truthy_list r.args
    then field "params" (list r.args) rest
    else rest

-- `JSONRPCRequest._to_dict`
unfoldable pub request_to_dict : Request → Fields
request_to_dict r = field "jsonrpc" (str version) (
    field "method" (str r.method) (
      with_params r
        (if not r.one_way && not (is_null r.unique_id) then field "id" r.unique_id end else end)))

-- `JSONRPCBatchRequest._expects_response`
unfoldable expects_response : List Item → Bool
expects_response [] = false
expects_response (bad e ∷ items) = true
expects_response (good r ∷ items) =
    (not r.one_way && not (is_null r.unique_id)) || expects_response items

-- `create_batch_response`: an empty batch response if one is expected
unfoldable pub create_batch_response : List Item → Option (List (Option Response))
unfolding expects_response
create_batch_response items = if expects_response items then some [] else none
