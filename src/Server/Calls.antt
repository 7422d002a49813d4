-- ===== src/Server/Calls.antt =====
-- Calls from end to end: what the client's protocol makes of the server's reply.
use aiotinyrpc.Base.{String, ◌≡◌, refl, sym, ap, ◌∙◌, false, Option, none, some}
use aiotinyrpc.Python.Value.{Value, Values, Fields, null, dict, str, int, IsId, truthy, get}
use aiotinyrpc.Python.Int.{ℤ, negsuc}
use aiotinyrpc.Python.Exc.{Exc, ok, err, raised_text, isinstance}
use aiotinyrpc.Jsonrpc.{
  Request, Response, success, failure, request_to_dict, response_to_dict, respond,
  request_error_respond,
}
use aiotinyrpc.Jsonrpc.Protocol
use aiotinyrpc.Jsonrpc.Protocol.{
  Protocol, create_request, contains, parse_reply, Reply, parse_subreply, or_nil, or_end,
}
use aiotinyrpc.Jsonrpc.Parse.{parse_dict}
use aiotinyrpc.Jsonrpc.Accepts.{parse_dict_sound}
use aiotinyrpc.Jsonrpc.RoundTrip.{
  parse_dict-request_to_dict, parse_subreply-response, HasText, id_of,
}
use aiotinyrpc.Dispatch.{Method, get_method, dispatch_request}
use aiotinyrpc.Server.Reported.{
  failure_of, IsReported, bad_method, request_error_respond-IsReported,
}
use aiotinyrpc.Server.Answers.{
  parse_request-single, handle_message-single, parse_reply-single, created, is_null-IsId,
  dispatch_request-missing, outcome, dispatch_request-outcome, dispatch_request-silent,
}
use aiotinyrpc.Server.{Server, IsBson, jsonrpc_ops, jsonrpc_caller, handle_message, reply_with, one}

-- The error response for a name that nothing is registered under.
abbrev pub unknown_name : Value → Response
unknown_name i = failure i (str "Method not found") (int (negsuc 32600)) none

-- Everything about a call from end to end stands under the client's creation of its request.
module _ {Wire : Type 0} (s : Server Wire) (b : IsBson s.codec) (p p' : Protocol) (name : String)
    (args : Option Values) (kwargs : Option Fields) (q : Request) (w w' : Wire)
    (id : IsId (p.generator p.drawn)) (fresh : contains (p.generator p.drawn) p.pending ≡ false)
    (made : create_request p name args kwargs false ≡ (ok q, p'))
    (sent : s.codec.encode (dict (request_to_dict q)) ≡ ok w) where
  -- The response of the dispatcher, once encoded, is what the server sends and what the client
  -- reads; the request is settled.
  answered :
      (r : Response)
      → dispatch_request (jsonrpc_ops s.render) s.validator jsonrpc_caller s.dispatcher q ≡ some r
      → HasText r
      → id_of r ≡ q.unique_id
      → s.codec.encode (dict (response_to_dict s.render r)) ≡ ok w'
      → (handle_message s w ≡ ok (some w'))
        × (parse_reply s.render s.codec.decode p' w'
            ≡ (ok (Protocol.single r), record p' { pending = p.pending }))
  answered r d ht same back = (
    handle_message-single s w q (
          parse_request-single s.codec.decode w (request_to_dict q) q
            (b.decode-encode (request_to_dict q) w sent)
            (parse_dict-request_to_dict p p' name args kwargs false q id made))
        ∙ rw d (rw back refl),
    parse_reply-single s s.render p' (record p' { pending = p.pending }) w'
        (response_to_dict s.render r) r (b.decode-encode _ w' back)
        (parse_subreply-response s.render p p' name args kwargs q r id fresh made ht same),
  )

  -- A call of a method that is registered and takes the arguments: the method is called with the
  -- client's arguments, and the client gets what it returned.
  pub call-returns :
      (m : Method) (v : Value)
      → get_method s.dispatcher name ≡ some m
      → outcome s.validator m (or_nil args) (or_end kwargs) ≡ ok v
      → s.codec.encode (dict (response_to_dict s.render (success (p.generator p.drawn) v))) ≡ ok w'
      → (handle_message s w ≡ ok (some w'))
        × (parse_reply s.render s.codec.decode p' w' ≡ (
          ok (Protocol.single (success (p.generator p.drawn) v)),
          record p' { pending = p.pending },
        ))
  unfolding respond
  call-returns m v found returned back =
      let (named, same_args, same_kwargs, two_way, same_id) =
        created p p' name args kwargs q made in
      let e =
        dispatch_request-outcome s.render s.validator s.dispatcher q m name (or_nil args)
          (or_end kwargs) named same_args same_kwargs found in
      answered (success (p.generator p.drawn) v)
        (e ∙ rw (returned, two_way, same_id, is_null-IsId (p.generator p.drawn) id) refl) tt
        (sym same_id) back

  error_answer :
      (e : Exc) (c : ℤ) (m : String) (d : Value)
      → IsReported s.render e c m d
      → request_error_respond s.render q e ≡ some (failure_of (p.generator p.drawn) c m d)
  error_answer e c m d reported =
      let (named, same_args, same_kwargs, two_way, same_id) =
        created p p' name args kwargs q made in
      request_error_respond-IsReported s.render q e c m d
        (rw same_id (is_null-IsId (p.generator p.drawn) id)) two_way reported
      ∙ ap (λ i. some (failure_of i c m d)) same_id

  -- A call that comes to no result, because the arguments do not fit or the method raises an
  -- exception: the server sends and the client gets an error response under the id of the call, with
  -- the code, the text and the data that the exception is reported with, the data only where they
  -- count as true. The request is settled.
  pub call-raises :
      (m : Method) (e : Exc) (code : ℤ) (text : String) (extra : Value)
      → get_method s.dispatcher name ≡ some m
      → outcome s.validator m (or_nil args) (or_end kwargs) ≡ err e
      → IsReported s.render e code text extra
      → s.codec.encode
          (dict (response_to_dict s.render (failure_of (p.generator p.drawn) code text extra)))
        ≡ ok w'
      → (handle_message s w ≡ ok (some w'))
        × (parse_reply s.render s.codec.decode p' w' ≡ (
          ok (Protocol.single (failure_of (p.generator p.drawn) code text extra)),
          record p' { pending = p.pending },
        ))
  call-raises m e code text extra found raised reported back =
      let (named, same_args, same_kwargs, two_way, same_id) =
        created p p' name args kwargs q made in
      let f =
        dispatch_request-outcome s.render s.validator s.dispatcher q m name (or_nil args)
          (or_end kwargs) named same_args same_kwargs found in
      answered (failure_of (p.generator p.drawn) code text extra)
        (f ∙ rw raised (error_answer e code text extra reported)) tt (sym same_id) back

  -- A call of a name that nothing is registered under: the client gets the error -32601.
  pub call-unknown :
      get_method s.dispatcher name ≡ none
      → s.codec.encode (dict (response_to_dict s.render (unknown_name (p.generator p.drawn))))
        ≡ ok w'
      → (handle_message s w ≡ ok (some w'))
        × (parse_reply s.render s.codec.decode p' w' ≡ (
          ok (Protocol.single (unknown_name (p.generator p.drawn))),
          record p' { pending = p.pending },
        ))
  unfolding raised_text truthy isinstance
  call-unknown missing back =
      let (named, same_args, same_kwargs, two_way, same_id) =
        created p p' name args kwargs q made in
      answered (unknown_name (p.generator p.drawn))
        (dispatch_request-missing (jsonrpc_ops s.render) s.validator jsonrpc_caller s.dispatcher q
            (ap (get_method s.dispatcher) named ∙ missing)
          ∙ error_answer _ _ _ _ (bad_method refl refl refl))
        tt (sym same_id) back

module _ {Wire : Type 0} (s : Server Wire) where
  -- A notification, that is a request without an id, gets no reply, whatever the dispatcher finds,
  -- the method does or the arguments are.
  pub handle_message-notification :
      (w : Wire) (d : Fields) (q : Request)
      → s.codec.decode w ≡ ok (dict d)
      → get d "id" ≡ none
      → parse_dict d ≡ ok q
      → handle_message s w ≡ ok none
  handle_message-notification w d q decoded no_id parsed =
      let same_id : q.unique_id ≡ null = (parse_dict_sound d q parsed).no_id no_id in
      handle_message-single s w q (parse_request-single s.codec.decode w d q decoded parsed)
      ∙ ap (λ r. reply_with s (one r)) (dispatch_request-silent s q same_id)
