-- ===== src/Jsonrpc/Parse.antt =====
-- `parse_request` and `_parse_subrequest`: what the server reads of a message.
use aiotinyrpc.Base.{
  String, str_eq, Bool, true, not, ◌&&◌, ◌||◌, Option, none, some, List, [], ◌∷◌, if◌then◌else◌,
}
use aiotinyrpc.Python.Value.{
  Value, Values, Fields, null, str, list, dict, nil, cons, end, field, get, has_key, py_eq,
}
use aiotinyrpc.Python.Exc.{
  Exc, Result, ok, err, ◌>>=◌, ◌>>◌, require, catches, rpc, raised_text, key_error,
  jsonrpc_parse_error, jsonrpc_invalid_request_error, jsonrpc_invalid_params_error,
}
use aiotinyrpc.Jsonrpc.{version, Request, Item, good, bad, fixed_error}

-- `_ALLOWED_REQUEST_KEYS`
abbrev pub request_key : String → Bool
request_key k = str_eq k "id" || str_eq k "jsonrpc" || str_eq k "method" || str_eq k "params"

abbrev pub all_keys : (String → Bool) → Fields → Bool
all_keys p end = true
all_keys p (field k v d) = p k && all_keys p d

abbrev pub or_null : Option Value → Value
or_null none = null
or_null (some v) = v

-- `JSONRPCInvalidRequestError(request_id=req.get("id"))`
abbrev pub invalid : Fields → Exc
invalid d = fixed_error jsonrpc_invalid_request_error (or_null (get d "id"))

-- `req["method"]`, which must be a text; a missing key raises `KeyError`
abbrev pub method_of : Fields → Result String
method_of d = elim (get d "method") [
  | none ↦ err (raised_text key_error "method")
  | some (str m) ↦ ok m
  | some v ↦ err (invalid d)
]

-- The attributes `one_way` and `unique_id` from the `id` entry.
abbrev pub start : Fields → String → Request
start d m = record {
  one_way = not (has_key d "id");
  unique_id = or_null (get d "id");
  method = m;
  args = nil;
  kwargs = end;
}

-- The last part, for the value of `req.get("params", None)`.
abbrev pub set_params : Fields → Value → Request → Result Request
set_params d null r = ok r
set_params d (list vs) r = ok (record r { args = vs })
set_params d (dict kw) r = ok (record r { kwargs = kw })
set_params d v r = err (fixed_error jsonrpc_invalid_params_error (or_null (get d "id")))

-- `_parse_subrequest` of a dict
unfoldable pub parse_dict : Fields → Result Request
unfolding get has_key py_eq fixed_error raised_text
parse_dict d = do
  require (all_keys request_key d) (invalid d)
  require (py_eq (or_null (get d "jsonrpc")) (str version)) (invalid d)
  m ← method_of d
  set_params d (or_null (get d "params")) (start d m)

unfoldable pub parse_subrequest : Value → Result Request
parse_subrequest (dict d) = parse_dict d
parse_subrequest v = err (fixed_error jsonrpc_invalid_request_error null)

-- One element of a batch. `subreq.get` is reached for dicts alone, since all else has raised an
-- `RPCError`.
abbrev request_id_of : Value → Value
request_id_of (dict d) = or_null (get d "id")
request_id_of v = null

abbrev to_item : Value → Result Request → Item
to_item v (ok r) = good r
to_item v (err e) =
    if catches rpc e
    then bad e
    else bad (fixed_error jsonrpc_invalid_request_error (request_id_of v))

unfoldable pub parse_items : Values → List Item
parse_items nil = []
parse_items (cons v vs) = to_item v (parse_subrequest v) ∷ parse_items vs

-- What `parse_request` returns.
pub data Parsed : Type 0 where
  single : Request → Parsed
  batch : List Item → Parsed

abbrev non_empty : List Item → Result Parsed
non_empty [] = err (fixed_error jsonrpc_invalid_request_error null)
non_empty (i ∷ is) = ok (batch (i ∷ is))

abbrev parse_value : Value → Result Parsed
parse_value (list vs) = non_empty (parse_items vs)
parse_value v = do r ← parse_subrequest v; ok (single r)

-- The decoder of the wire format is the package `bson`.
module _ {ℓ} {Wire : Type ℓ} (decode : Wire → Result Value) where
  unfoldable pub parse_request : Wire → Result Parsed
  parse_request w = elim (decode w) [
    | err e ↦ err (fixed_error jsonrpc_parse_error null)
    | ok v ↦ parse_value v
  ]
