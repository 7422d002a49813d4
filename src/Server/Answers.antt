-- ===== src/Server/Answers.antt =====
-- The steps of `handle_message` on a single request, and of `parse_reply` on a single reply.
use aiotinyrpc.Base.{
  String, ◌≡◌, refl, ap, ◌∙◌, false, Option, none, some, arith, Option-cases, inl, inr,
}
use aiotinyrpc.Python.Value.{
  Value, Values, Fields, null, bool, bytes, list, dict, str, int, IsId, is_null,
}
use aiotinyrpc.Python.Exc.{Result, ok, err, ◌>>◌, raised_text, method_not_found_error}
use aiotinyrpc.Jsonrpc.{Request, Response, respond, request_error_respond}
use aiotinyrpc.Jsonrpc.Protocol
use aiotinyrpc.Jsonrpc.Protocol.{
  Protocol, create_request, contains, parse_reply, Reply, parse_subreply, or_nil, or_end,
}
use aiotinyrpc.Jsonrpc.Parse.{parse_request, parse_dict, parse_subrequest, single}
use aiotinyrpc.Dispatch.{
  Method, Dispatcher, Validator, Caller, RequestOps, get_method, validate, invoke, dispatch_request,
  answer,
}
use aiotinyrpc.Server.{
  Server, jsonrpc_ops, jsonrpc_caller, handle_message, dispatch, reply_with, one,
}

module _ {Wire : Type 0} (decode : Wire → Result Value) where
  pub parse_request-single :
      (w : Wire) (d : Fields) (q : Request)
      → decode w ≡ ok (dict d)
      → parse_dict d ≡ ok q
      → parse_request decode w ≡ ok (single q)
  unfolding parse_request parse_subrequest
  parse_request-single w d q e h = ground arith

module _ {Wire : Type 0} (s : Server Wire) where
  -- The dispatcher's answer to a request, sent back.
  abbrev reply_to : Request → Result (Option Wire)
  reply_to q =
      reply_with s
        (one (dispatch_request (jsonrpc_ops s.render) s.validator jsonrpc_caller s.dispatcher q))

  pub handle_message-single :
      (w : Wire) (q : Request)
      → parse_request s.codec.decode w ≡ ok (single q)
      → handle_message s w ≡ reply_to q
  unfolding handle_message dispatch
  handle_message-single w q h = rw (h, handle_message) refl

  -- The client's side of a response that was sent as a document.
  pub parse_reply-single :
      (render : Value → String) (p p' : Protocol) (w : Wire) (d : Fields) (r : Response)
      → s.codec.decode w ≡ ok (dict d)
      → parse_subreply p (dict d) ≡ (ok r, p')
      → parse_reply render s.codec.decode p w ≡ (ok (Protocol.single r), p')
  unfolding parse_reply
  parse_reply-single render p p' w d r e h = ground arith

-- What a successful `create_request` puts into the request of a call.
pub created :
    (p p' : Protocol) (name : String) (args : Option Values) (kwargs : Option Fields) (q : Request)
    → create_request p name args kwargs false ≡ (ok q, p')
    → (q.method ≡ name)
      × (q.args ≡ or_nil args)
      × (q.kwargs ≡ or_end kwargs)
      × (q.one_way ≡ false)
      × (q.unique_id ≡ p.generator p.drawn)
unfolding create_request
created p p' name args kwargs q h = ground arith

pub is_null-IsId : (v : Value) → IsId v → is_null v ≡ false
is_null-IsId (int n) h = refl
is_null-IsId (str t) h = refl
is_null-IsId null h = absurd h
is_null-IsId (bool c) h = absurd h
is_null-IsId (bytes t) h = absurd h
is_null-IsId (list vs) h = absurd h
is_null-IsId (dict d) h = absurd h

module _ (ops : RequestOps Request Response) (v : Validator) (c : Caller) (d : Dispatcher) where
  dispatch_request-found :
      (q : Request) (m : Method)
      → get_method d (ops.method q) ≡ some m
      → dispatch_request ops v c d q
        ≡ answer ops v c q
            (do validate v m (ops.args q) (ops.kwargs q); invoke c m (ops.args q) (ops.kwargs q))
  unfolding dispatch_request
  dispatch_request-found q m h = rw (h, dispatch_request) refl

  pub dispatch_request-missing :
      (q : Request)
      → get_method d (ops.method q) ≡ none
      → dispatch_request ops v c d q
        ≡ ops.error_respond q (raised_text method_not_found_error (ops.method q))
  unfolding dispatch_request
  dispatch_request-missing q h = rw (h, dispatch_request) refl

-- What a method makes of arguments, which decides the answer.
abbrev pub outcome : Validator → Method → Values → Fields → Result Value
outcome v m args kwargs = do validate v m args kwargs; m.call args kwargs

module _ (render : Value → String) (v : Validator) (d : Dispatcher) (q : Request) (m : Method)
    (name : String) (args : Values) (kwargs : Fields) (named : q.method ≡ name)
    (same_args : q.args ≡ args) (same_kwargs : q.kwargs ≡ kwargs)
    (found : get_method d name ≡ some m) where
  pub dispatch_request-outcome :
      dispatch_request (jsonrpc_ops render) v jsonrpc_caller d q
      ≡ answer (jsonrpc_ops render) v jsonrpc_caller q (outcome v m args kwargs)
  dispatch_request-outcome =
      dispatch_request-found (jsonrpc_ops render) v jsonrpc_caller d q m
        (ap (get_method d) named ∙ found)
      ∙ rw (same_args, same_kwargs) refl

module _ {Wire : Type 0} (s : Server Wire) where
  answer-silent :
      (q : Request) (r : Result Value)
      → q.unique_id ≡ null
      → answer (jsonrpc_ops s.render) s.validator jsonrpc_caller q r ≡ none
  unfolding respond request_error_respond
  answer-silent q (ok v) h = ground arith
  answer-silent q (err e) h = ground arith

  pub dispatch_request-silent :
      (q : Request)
      → q.unique_id ≡ null
      → dispatch_request (jsonrpc_ops s.render) s.validator jsonrpc_caller s.dispatcher q ≡ none
  dispatch_request-silent q h = elim (Option-cases (get_method s.dispatcher q.method)) [
    | inl missing ↦
        dispatch_request-missing (jsonrpc_ops s.render) s.validator jsonrpc_caller s.dispatcher q
          missing
        ∙ answer-silent q (err _) h
    | inr (m, found) ↦
        dispatch_request-found (jsonrpc_ops s.render) s.validator jsonrpc_caller s.dispatcher q m
          found
        ∙ answer-silent q _ h
  ]
