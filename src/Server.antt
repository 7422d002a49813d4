-- ===== src/Server.antt =====
-- fluxrpc/server/__init__.py with the JSON-RPC protocol: `RPCServer.handle_message`, and the part
-- of `RPCDispatcher.dispatch` that takes single requests and batches apart.
pub mod Reported
pub mod Answers
pub mod Calls
pub mod Failures
pub mod Progress
pub mod Loop
pub mod Traces
pub mod Serving
use aiotinyrpc.Base.{String, ◌≡◌, Bool, true, false, Option, none, some, List, [], ◌∷◌, ◌++◌}
use aiotinyrpc.Python.Value.{Value, Values, Fields, dict, list, nil, cons}
use aiotinyrpc.Python.Exc.{Exc, Result, ok, err, ◌>>=◌, catches, rpc, raised, type_error}
use aiotinyrpc.Jsonrpc.{
  Request, Response, Item, good, bad, error_respond, request_error_respond, respond,
  response_to_dict, create_batch_response,
}
use aiotinyrpc.Jsonrpc.Parse.{Parsed, single, batch, parse_request}
use aiotinyrpc.Dispatch.{Dispatcher, Method, Validator, Caller, RequestOps, dispatch_request}

-- The package `bson`, and the JSON encoder that the batches go through.
pub record Codec (Wire : Type 0) : Type 0 where
  pub encode : Value → Result Wire
  pub decode : Wire → Result Value
  pub json_dumps : Values → Result Wire

-- What `bson` documents: a document that was encoded is decoded to itself, and only documents,
-- that is dicts, are ever decoded.
pub record IsBson {Wire : Type 0} (c : Codec Wire) : Type 0 where
  pub decode-encode : (d : Fields) (w : Wire) → c.encode (dict d) ≡ ok w → c.decode w ≡ ok (dict d)
  pub decodes_documents : (w : Wire) (v : Value) → c.decode w ≡ ok v → (d : Fields) × (v ≡ dict d)

-- `JSONRPCProtocol._caller`
abbrev pub jsonrpc_caller : Caller
jsonrpc_caller = some (λ m args kwargs. m.call args kwargs)

-- What the server holds: its dispatcher, the dispatcher's validator, Python's printing of values
-- that are no texts, and the codec.
pub record Server (Wire : Type 0) : Type 0 where
  pub dispatcher : Dispatcher
  pub validator : Validator
  pub render : Value → String
  pub codec : Codec Wire

abbrev pub jsonrpc_ops : (Value → String) → RequestOps Request Response
jsonrpc_ops render = record {
  method = λ r. r.method;
  args = λ r. r.args;
  kwargs = λ r. r.kwargs;
  error_respond = request_error_respond render;
  respond = respond;
}

-- What `dispatch` returns.
pub data Answer : Type 0 where
  one : Option Response → Answer
  many : Option (List (Option Response)) → Answer

module _ {Wire : Type 0} (s : Server Wire) where
  -- `_dispatch` of one element. An exception has no `method`; the handler for that calls its
  -- `error_respond` with an argument that it does not take.
  unfoldable pub dispatch_item : Item → Result (Option Response)
  dispatch_item (good r) =
      ok (dispatch_request (jsonrpc_ops s.render) s.validator jsonrpc_caller s.dispatcher r)
  dispatch_item (bad e) = err (raised type_error nil)

  unfoldable pub dispatch_items : List Item → Result (List (Option Response))
  dispatch_items [] = ok []
  dispatch_items (i ∷ is) = do r ← dispatch_item i; rs ← dispatch_items is; ok (r ∷ rs)

  abbrev extend :
      List (Option Response) → Option (List (Option Response)) → Option (List (Option Response))
  extend rs none = none
  extend rs (some b) = some (b ++ rs)

  unfoldable pub dispatch : Parsed → Result Answer
  dispatch (single r) =
      ok (one (dispatch_request (jsonrpc_ops s.render) s.validator jsonrpc_caller s.dispatcher r))
  dispatch (batch items) = do
    rs ← dispatch_items items
    ok (many (extend rs (create_batch_response items)))

  -- `[resp._to_dict() for resp in self if resp is not None]`
  abbrev pub dicts : List (Option Response) → Values
  dicts [] = nil
  dicts (none ∷ rs) = dicts rs
  dicts (some r ∷ rs) = cons (dict (response_to_dict s.render r)) (dicts rs)

  -- The reply that is sent, or `none` for no reply.
  abbrev pub sent : Result Wire → Result (Option Wire)
  sent r = do w ← r; ok (some w)

  abbrev pub reply_with : Answer → Result (Option Wire)
  reply_with (one none) = ok none
  reply_with (one (some r)) = sent (s.codec.encode (dict (response_to_dict s.render r)))
  reply_with (many none) = ok none
  reply_with (many (some rs)) = sent (s.codec.json_dumps (dicts rs))

  -- The handler of a failed parse. An exception that is no `RPCError` passes through.
  abbrev pub answer_parsed : Result Parsed → Result Answer
  answer_parsed (ok p) = dispatch p
  answer_parsed (err e) = elim (catches rpc e) [
    | true ↦ (do r ← error_respond e; ok (one (some r)))
    | false ↦ err e
  ]

  -- `handle_message` up to the reply that it sends, or `none` for no reply; what sends it is the task
  -- (Server/Loop). An exception ends the task, and nothing is sent.
  unfoldable pub handle_message : Wire → Result (Option Wire)
  handle_message w = do a ← answer_parsed (parse_request s.codec.decode w); reply_with a
