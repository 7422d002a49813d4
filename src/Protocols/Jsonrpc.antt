-- ===== src/Protocols/Jsonrpc.antt =====
-- fluxrpc/protocols/jsonrpc.py behind the interface of protocols. The messages go through `bson`.
use aiotinyrpc.Base.{String, ◌≡◌, refl, Bool, true, false, Option, none, some, arith}
use aiotinyrpc.Python.Value.{Value, Values, Fields, dict, IsId}
use aiotinyrpc.Python.Exc.{ok}
use aiotinyrpc.Jsonrpc.{
  Request, Response, success, failure, respond, request_error_respond, request_to_dict,
  response_to_dict,
}
use aiotinyrpc.Jsonrpc.Parse as Parse
use aiotinyrpc.Jsonrpc.Parse.{Parsed, parse_request}
use aiotinyrpc.Jsonrpc.Protocol as Client
use aiotinyrpc.Jsonrpc.Protocol.{Protocol, create_request, contains, parse_reply, Reply}
use aiotinyrpc.Jsonrpc.RoundTrip.{parse_dict-request_to_dict, parse_subreply-response}
use aiotinyrpc.Server.{Codec, IsBson}
use aiotinyrpc.Server.Answers.{parse_request-single, is_null-IsId}
use aiotinyrpc.Protocols.Abstract.{RpcProtocol, IsProtocol, or_nil}

abbrev pub result_of : Response → Option Value
result_of (success i v) = some v
result_of (failure i m c d) = none

module _ {Wire : Type 0} (codec : Codec Wire) (render : Value → String) where
  abbrev pub protocol : RpcProtocol Wire
  protocol = record {
    State = Protocol;
    Request = Request;
    Response = Response;
    Parsed = Parsed;
    Reply = Reply;
    single = λ q. Parse.single q;
    single_reply = λ r. Client.single r;
    method = λ q. q.method;
    args = λ q. q.args;
    create_request = λ s m as' kw one_way. create_request s m as' kw one_way;
    serialize = λ q. codec.encode (dict (request_to_dict q));
    parse_request = λ w. parse_request codec.decode w;
    respond = λ q v. respond q v;
    error_respond = λ q e. request_error_respond render q e;
    serialize_response = λ r. codec.encode (dict (response_to_dict render r));
    parse_reply = λ s w. parse_reply render codec.decode s w;
    result = λ r. result_of r;
  }

  -- The next id is a text or an integer, and no reply to it is waited for already.
  abbrev pub IsReady : Protocol → Type 0
  IsReady s = IsId (s.generator s.drawn) × (contains (s.generator s.drawn) s.pending ≡ false)

  created :
      (s s' : Protocol) (m : String) (as' : Option Values) (kw : Option Fields) (one_way : Bool)
      (q : Request)
      → create_request s m as' kw one_way ≡ (ok q, s')
      → (q.method ≡ m) × (q.args ≡ or_nil as')
  unfolding create_request
  created s s' m none kw one_way q h = (ground arith, ground arith)
  created s s' m (some vs) kw one_way q h = (ground arith, ground arith)

  respond-one_way :
      (s s' : Protocol) (m : String) (as' : Option Values) (kw : Option Fields) (q : Request)
      (v : Value)
      → create_request s m as' kw true ≡ (ok q, s')
      → respond q v ≡ none
  unfolding create_request respond
  respond-one_way s s' m as' kw q v h = ground arith

  responded :
      (s s' : Protocol) (m : String) (as' : Option Values) (kw : Option Fields) (q : Request)
      (v : Value)
      → IsReady s
      → create_request s m as' kw false ≡ (ok q, s')
      → respond q v ≡ some (success q.unique_id v)
  unfolding create_request respond
  responded s s' m as' kw q v (id, fresh) h = ground (arith, is_null-IsId (s.generator s.drawn) id)

  module _ (lawful : IsBson codec) where
    parse_request-serialize :
        (s s' : Protocol) (m : String) (as' : Option Values) (kw : Option Fields) (one_way : Bool)
        (q : Request) (w : Wire)
        → IsReady s
        → create_request s m as' kw one_way ≡ (ok q, s')
        → codec.encode (dict (request_to_dict q)) ≡ ok w
        → parse_request codec.decode w ≡ ok (Parse.single q)
    parse_request-serialize s s' m as' kw one_way q w (id, fresh) h e =
        parse_request-single codec.decode w (request_to_dict q) q
          (lawful.decode-encode (request_to_dict q) w e)
          (parse_dict-request_to_dict s s' m as' kw one_way q id h)

    parse_reply-response :
        (s s' : Protocol) (m : String) (as' : Option Values) (kw : Option Fields) (q : Request)
        (v : Value) (w : Wire)
        → IsReady s
        → create_request s m as' kw false ≡ (ok q, s')
        → codec.encode (dict (response_to_dict render (success q.unique_id v))) ≡ ok w
        → (s'' : Protocol) × (parse_reply render codec.decode s' w
            ≡ (ok (Client.single (success q.unique_id v)), s''))
    unfolding parse_reply
    parse_reply-response s s' m as' kw q v w (id, fresh) h e =
        let r = success q.unique_id v in
        let read = parse_subreply-response render s s' m as' kw q r id fresh h tt refl in
        (
          record s' { pending = s.pending },
          ground (arith, read, lawful.decode-encode (response_to_dict render r) w e),
        )

    -- JSON-RPC keeps the contract of a protocol, over a codec that reads documents as written.
    pub jsonrpc-IsProtocol : IsProtocol protocol
    jsonrpc-IsProtocol = record {
      IsReady = IsReady;
      created = created;
      parse_request-serialize = parse_request-serialize;
      parse_reply-respond = λ s s' m as' kw q v ready h. (
        success q.unique_id v,
        responded s s' m as' kw q v ready h,
        refl,
        λ w e. parse_reply-response s s' m as' kw q v w ready h e,
      );
      respond-one_way = respond-one_way;
    }
