-- ===== src/Jsonrpc/Protocol.antt =====
-- `JSONRPCProtocol`: the state that the client's end keeps, `create_request`, `parse_reply` with
-- `_parse_subreply`, and `raise_error`.
use Prim.Native.String.{◌++◌ as ◌<>◌}
use aiotinyrpc.Base.{
  ℕ, suc, ◌+◌, String, str_eq, Bool, false, not, ◌&&◌, ◌||◌, Option, none, some, List, [], ◌∷◌,
  ◌++◌, if◌then◌else◌,
}
use aiotinyrpc.Python.Int.{pos}
use aiotinyrpc.Python.Value.{
  Value, Values, Fields, null, int, str, list, dict, nil, cons, end, field, get, has_key, py_eq,
  truthy_list, truthy_dict,
}
use aiotinyrpc.Python.Exc.{
  Exc, Result, ok, err, ◌>>=◌, ◌>>◌, require, catches, rpc, raised_text, raised, key_error,
  type_error, attribute_error, invalid_request_error, invalid_reply_error, unexpected_id_error,
}
use aiotinyrpc.Python.Text.{str_exc}
use aiotinyrpc.Jsonrpc.{version, Request, Response, success, failure}

-- The id generator is the sequence of its values with the number of those already drawn.
pub record Protocol : Type 0 where
  pub generator : ℕ → Value
  pub drawn : ℕ
  pub pending : List Value

-- `default_id_generator`: `itertools.count(start)`
abbrev pub default_id_generator : ℕ → ℕ → Value
default_id_generator start n = int (pos (start + n))

-- `JSONRPCProtocol(id_generator)`
abbrev pub new_protocol : (ℕ → Value) → Protocol
new_protocol g = record { generator = g; drawn = 0; pending = [] }

abbrev pub or_nil : Option Values → Values
or_nil none = nil
or_nil (some vs) = vs

abbrev pub or_end : Option Fields → Fields
or_end none = end
or_end (some d) = d

-- `_get_unique_id`, and the id's entry in the list of pending replies
abbrev draw : Protocol → Protocol
draw p = record p { drawn = suc p.drawn; pending = p.pending ++ p.generator p.drawn ∷ [] }

unfoldable pub create_request :
    Protocol → String → Option Values → Option Fields → Bool → Result Request × Protocol
unfolding raised_text
create_request p method args kwargs one_way =
    if truthy_list (or_nil args) && truthy_dict (or_end kwargs)
    then (
      err (raised_text invalid_request_error "Does not support args and kwargs at the same time"),
      p,
    )
    else (
      ok (record {
        one_way = one_way;
        unique_id = if one_way then null else p.generator p.drawn;
        method = method;
        args = or_nil args;
        kwargs = or_end kwargs;
      }),
      if one_way then p else draw p,
    )

-- `v in vs`
unfoldable pub contains : Value → List Value → Bool
contains v [] = false
contains v (w ∷ ws) = py_eq w v || contains v ws

-- `vs.remove(v)`
unfoldable pub remove : Value → List Value → List Value
remove v [] = []
remove v (w ∷ ws) = if py_eq w v then ws else w ∷ remove v ws

-- `_ALLOWED_REPLY_KEYS`
abbrev reply_key : String → Bool
reply_key k = str_eq k "error" || str_eq k "id" || str_eq k "jsonrpc" || str_eq k "result"

abbrev pub invalid_reply : String → Exc
invalid_reply s = raised_text invalid_reply_error s

-- The loop over the keys of the reply.
check_keys : Fields → Result (Unit {0})
unfolding raised_text
check_keys end = ok tt
check_keys (field k v d) =
    if reply_key k then check_keys d else err (invalid_reply ("Key not allowed: " <> k))

-- `v[k]` for a text `k`
abbrev get_item : Value → String → Result Value
get_item (dict d) k = elim (get d k) [ none ↦ err (raised_text key_error k) | some v ↦ ok v ]
get_item v k = err (raised_text type_error "not a mapping")

-- `"data" in error`, asked of an error that has been indexed already
abbrev data_of : Value → Option Value
data_of (dict d) = get d "data"
data_of v = none

abbrev or_null : Option Value → Value
or_null none = null
or_null (some v) = v

-- The response that a reply with this id holds.
abbrev read_body : Fields → Value → Result Response
read_body d i = elim (get d "error") [
  | none ↦ ok (success i (or_null (get d "result")))
  | some e ↦ do m ← get_item e "message"; c ← get_item e "code"; ok (failure i m c (data_of e))
]

-- `_parse_subreply` up to the test of the id
unfoldable pub read_reply : Fields → Result (Value × Response)
unfolding check_keys get has_key py_eq raised_text
read_reply d = do
  check_keys d
  require (has_key d "jsonrpc") (invalid_reply "Missing jsonrpc (version) in response.")
  v ← get_item (dict d) "jsonrpc"
  require (py_eq v (str version)) (invalid_reply "Wrong JSONRPC version")
  require (has_key d "id") (invalid_reply "Missing id in response")
  require (not (has_key d "error" && has_key d "result"))
      (invalid_reply "Reply must contain exactly one of result and error.")
  i ← get_item (dict d) "id"
  r ← read_body d i
  ok (i, r)

-- The test of the id, and its removal.
unfoldable pub settle : Protocol → Result (Value × Response) → Result Response × Protocol
unfolding contains remove raised_text
settle p (err e) = (err e, p)
settle p (ok (i, r)) =
    if contains i p.pending then (ok r, record p { pending = remove i p.pending }) else (
      err (raised_text unexpected_id_error "Reply id does not correspond to any sent requests."),
      p,
    )

-- `_parse_subreply`. A reply that is no dict has no `keys`.
unfoldable pub parse_subreply : Protocol → Value → Result Response × Protocol
unfolding settle read_reply raised
parse_subreply p (dict d) = settle p (read_reply d)
parse_subreply p v = (err (raised attribute_error nil), p)

-- What `parse_reply` returns. A batch holds the exceptions of its failed parts too.
pub data Reply : Type 0 where
  single : Response → Reply
  batch : List (Result Response) → Reply

-- Any other exception than an `RPCError` is wrapped.
module _ (render : Value → String) where
  abbrev wrap : Result Response → Result Response
  wrap (ok r) = ok r
  wrap (err e) =
      if catches rpc e then err e else err (raised_text invalid_reply_error (str_exc render e))

  unfoldable parse_subreplies : Protocol → Values → List (Result Response) × Protocol
  unfolding parse_subreply catches str_exc
  parse_subreplies p nil = ([], p)
  parse_subreplies p (cons v vs) =
      let (r, p') = parse_subreply p v in
      let (rest, p'') = parse_subreplies p' vs in (wrap r ∷ rest, p'')

  abbrev non_empty : List (Result Response) → Result Reply
  non_empty [] = err (invalid_reply "Empty batch response received.")
  non_empty (r ∷ rs) = ok (batch (r ∷ rs))

  abbrev as_single : Result Response → Result Reply
  as_single r = do x ← r; ok (single x)

  abbrev parse_reply_value : Protocol → Value → Result Reply × Protocol
  parse_reply_value p (list vs) = let (rs, p') = parse_subreplies p vs in (non_empty rs, p')
  parse_reply_value p v = let (r, p') = parse_subreply p v in (as_single r, p')

  module _ {ℓ} {Wire : Type ℓ} (decode : Wire → Result Value) where
    unfoldable pub parse_reply : Protocol → Wire → Result Reply × Protocol
    unfolding parse_subreplies parse_subreply raised_text
    parse_reply p w = elim (decode w) [
      | err e ↦ (err (raised_text invalid_reply_error (str_exc render e)), p)
      | ok v ↦ parse_reply_value p v
    ]

-- The attributes of a `JSONRPCError`.
pub record JsonrpcError : Type 0 where
  pub message : Value
  pub code : Value
  pub data_attr : Option Value

-- The argument of `raise_error`: an error response, or the dict of one.
pub data ErrorArg : Type 0 where
  response : Value → Value → Option Value → ErrorArg
  mapping : Fields → ErrorArg

-- `JSONRPCError(error)`. A dict has no attribute `message`.
abbrev new_jsonrpc_error : ErrorArg → Result JsonrpcError
new_jsonrpc_error (response m c d) = ok (record { message = m; code = c; data_attr = d })
new_jsonrpc_error (mapping d) = err (raised attribute_error nil)

-- `raise_error` raises what it built, or returns it, unless building it has raised.
pub data Raised : Type 0 where
  raises returns : JsonrpcError → Raised
  fails : Exc → Raised

unfoldable raise_error : Bool → ErrorArg → Raised
unfolding raised
raise_error raises_errors a = elim (new_jsonrpc_error a) [
  | ok e ↦ if raises_errors then raises e else returns e
  | err e ↦ fails e
]
