-- ===== src/Msgpack.antt =====
-- fluxrpc/protocols/msgpackrpc.py: the messages of MessagePack-RPC, which are lists, and the
-- protocol's methods. The package `msgpack` is a parameter, as an encoder and a decoder of values.
pub mod Errors
pub mod Parse
pub mod RoundTrip
pub mod Spec
use aiotinyrpc.Base.{
  ℕ, suc, ◌+◌, String, Bool, true, false, not, ◌&&◌, ◌||◌, Option, none, some, [], ◌∷◌, ◌==◌,
  if◌then◌else◌,
}
use aiotinyrpc.Python.Int.{ℤ, pos, negsuc}
use aiotinyrpc.Python.Value.{
  Value, Values, Fields, null, bool, int, str, bytes, list, dict, nil, cons, end, py_eq, truthy,
  is_null, truthy_dict, as_int, size,
}
use aiotinyrpc.Python.Exc.{
  Exc, ExcClass, Result, ok, err, ◌>>=◌, isinstance, raised, raised_text, invalid_request,
  method_not_found, invalid_reply_error, type_error, key_error, msgpackrpc_parse_error,
  msgpackrpc_invalid_request_error, msgpackrpc_method_not_found_error,
  msgpackrpc_invalid_params_error, msgpackrpc_internal_error, msgpackrpc_server_error,
}
use aiotinyrpc.Python.Text.{str_value, str_exc}

-- `MSGPACKRPCRequest`; `kwargs` is never read and left out.
pub record Request : Type 0 where
  pub one_way : Bool
  pub unique_id : Value
  pub method : String
  pub args : Values

-- `MSGPACKRPCSuccessResponse` with its id and result, and `MSGPACKRPCErrorResponse` with its id,
-- its error and its code, which may be `None`.
pub data Response : Type 0 where
  success : Value → Value → Response
  failure : Value → Value → Option ℤ → Response

-- The class attributes of the error classes.
unfoldable pub fixed_code : ExcClass → Option ℤ
fixed_code msgpackrpc_parse_error = some (negsuc 32699)
fixed_code msgpackrpc_invalid_request_error = some (negsuc 32599)
fixed_code msgpackrpc_method_not_found_error = some (negsuc 32600)
fixed_code msgpackrpc_invalid_params_error = some (negsuc 32601)
fixed_code msgpackrpc_internal_error = some (negsuc 32602)
fixed_code msgpackrpc_server_error = some (negsuc 31999)
fixed_code _ = none

unfoldable pub fixed_message : ExcClass → String
fixed_message msgpackrpc_parse_error = "Parse error"
fixed_message msgpackrpc_invalid_request_error = "Invalid request"
fixed_message msgpackrpc_method_not_found_error = "Method not found"
fixed_message msgpackrpc_invalid_params_error = "Invalid params"
fixed_message msgpackrpc_internal_error = "Internal error"
fixed_message _ = ""

-- `C(request_id=r)` for one of these classes
unfoldable pub fixed_error : ExcClass → Value → Exc
unfolding fixed_code fixed_message raised
fixed_error c r = record (raised c (cons (str (fixed_message c)) nil)) {
  message = some (fixed_message c);
  request_id = r;
  msgpackrpc_error_code = fixed_code c;
}

module _ (render : Value → String) where
  -- `_get_code_and_message` of an exception
  unfoldable get_code_and_message : Exc → ℤ × String
  unfolding str_exc isinstance
  get_code_and_message e = elim e.msgpackrpc_error_code [
    | some c ↦ (c, str_exc render e)
    | none ↦
        if isinstance e.class invalid_request
        then (negsuc 32599, "Invalid request")
        else if isinstance e.class method_not_found
        then (negsuc 32600, "Method not found")
        else (negsuc 31999, str_exc render e)
  ]

  -- `MSGPACKRPCRequest.error_respond`. It tests the id for truth, not for `None`.
  unfoldable pub error_respond : Request → Exc → Option Response
  unfolding get_code_and_message truthy
  error_respond r e =
      if truthy r.unique_id
      then (let (code, msg) = get_code_and_message e in
          some (failure (if r.one_way then null else r.unique_id) (str msg) (some code)))
      else none

  abbrev code_value : Option ℤ → Value
  code_value none = null
  code_value (some c) = int c

  abbrev four : Value → Value → Value → Value → Values
  four a b c d = cons a (cons b (cons c (cons d nil)))

  -- The two `_to_list` of responses.
  unfoldable pub response_to_list : Response → Values
  unfolding str_value
  response_to_list (success i v) = four (int (pos 1)) i null v
  response_to_list (failure i m c) =
      four (int (pos 1)) i (list (cons (code_value c) (cons (str (str_value render m)) nil))) null

-- `MSGPACKRPCRequest.respond`
unfoldable pub respond : Request → Value → Option Response
respond r v = if r.one_way || is_null r.unique_id then none else some (success r.unique_id v)

-- `MSGPACKRPCRequest._to_list`
unfoldable pub request_to_list : Request → Values
request_to_list r =
    if r.one_way || is_null r.unique_id
    then cons (int (pos 2)) (cons (str r.method) (cons (list r.args) nil))
    else cons (int (pos 0)) (cons r.unique_id (cons (str r.method) (cons (list r.args) nil)))

-- The id generator with the number of ids drawn from it.
pub record Ids : Type 0 where
  pub generator : ℕ → Value
  pub drawn : ℕ

abbrev or_nil : Option Values → Values
or_nil none = nil
or_nil (some vs) = vs

abbrev or_end : Option Fields → Fields
or_end none = end
or_end (some d) = d

-- `create_request`
unfoldable pub create_request :
    Ids → String → Option Values → Option Fields → Bool → Result Request × Ids
unfolding raised_text
create_request g method args kwargs one_way =
    if truthy_dict (or_end kwargs)
    then (
      err (record (fixed_error msgpackrpc_invalid_request_error null) {
        args = cons (str "Does not support kwargs") nil;
      }),
      g,
    )
    else (
      ok (record {
        one_way = one_way;
        unique_id = if one_way then null else g.generator g.drawn;
        method = method;
        args = or_nil args;
      }),
      if one_way then g else record g { drawn = suc g.drawn },
    )
