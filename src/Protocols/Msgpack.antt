-- ===== src/Protocols/Msgpack.antt =====
-- fluxrpc/protocols/msgpackrpc.py behind the interface of protocols. The messages go through
-- `msgpack`.
use aiotinyrpc.Base.{String, ◌≡◌, refl, ap, Bool, true, false, Option, none, some, arith}
use aiotinyrpc.Python.Int.{ℤ}
use aiotinyrpc.Python.Value.{Value, Values, Fields, list, int, null}
use aiotinyrpc.Python.Exc.{
  Result, ok, err, raised_text, invalid_reply_error, msgpackrpc_parse_error,
}
use aiotinyrpc.Python.Text.{str_exc}
use aiotinyrpc.Msgpack.{
  Request, Response, success, failure, Ids, create_request, respond, error_respond, request_to_list,
  response_to_list, fixed_error,
}
use aiotinyrpc.Msgpack.Parse.{parse_request, parse_reply}
use aiotinyrpc.Msgpack.RoundTrip.{
  parse_request-request_to_list, parse_reply-response_to_list, result,
}
use aiotinyrpc.Protocols.Abstract.{RpcProtocol, IsProtocol, or_nil}

-- The package `msgpack`, and that it reads a list as it was written.
pub record Msgpack (Wire : Type 0) : Type 0 where
  pub packb : Value → Result Wire
  pub unpackb : Wire → Result Value

abbrev pub IsMsgpack : {Wire : Type 0} → Msgpack Wire → Type 0
IsMsgpack {Wire} c =
    (vs : Values) (w : Wire) → c.packb (list vs) ≡ ok w → c.unpackb w ≡ ok (list vs)

abbrev pub result_of : Response → Option Value
result_of (success i v) = some v
result_of (failure i m c) = none

module _ {Wire : Type 0} (codec : Msgpack Wire) (render : Value → String) where
  -- `parse_request` and `parse_reply` of the bytes that came, with what they make of an exception
  -- of `unpackb`
  unfoldable pub read_request : Wire → Result Request
  unfolding fixed_error parse_request
  read_request w = elim (codec.unpackb w) [
    | err e ↦ err (fixed_error msgpackrpc_parse_error null)
    | ok v ↦ parse_request v
  ]

  unfoldable pub read_reply : Wire → Result Response
  unfolding raised_text str_exc parse_reply
  read_reply w = elim (codec.unpackb w) [
    | err e ↦ err (raised_text invalid_reply_error (str_exc render e))
    | ok v ↦ parse_reply v
  ]

  abbrev pub protocol : RpcProtocol Wire
  protocol = record {
    State = Ids;
    Request = Request;
    Response = Response;
    Parsed = Request;
    Reply = Response;
    single = λ q. q;
    single_reply = λ r. r;
    method = λ q. q.method;
    args = λ q. q.args;
    create_request = λ s m as' kw one_way. create_request s m as' kw one_way;
    serialize = λ q. codec.packb (list (request_to_list q));
    parse_request = λ w. read_request w;
    respond = λ q v. respond q v;
    error_respond = λ q e. error_respond render q e;
    serialize_response = λ r. codec.packb (list (response_to_list render r));
    parse_reply = λ s w. (read_reply w, s);
    result = λ r. result_of r;
  }

  -- The next id is an integer.
  abbrev pub IsReady : Ids → Type 0
  IsReady s = (n : ℤ) × (s.generator s.drawn ≡ int n)

  created :
      (s s' : Ids) (m : String) (as' : Option Values) (kw : Option Fields) (one_way : Bool)
      (q : Request)
      → create_request s m as' kw one_way ≡ (ok q, s')
      → (q.method ≡ m) × (q.args ≡ or_nil as')
  unfolding create_request
  created s s' m none kw one_way q h = (ground arith, ground arith)
  created s s' m (some vs) kw one_way q h = (ground arith, ground arith)

  respond-one_way :
      (s s' : Ids) (m : String) (as' : Option Values) (kw : Option Fields) (q : Request) (v : Value)
      → create_request s m as' kw true ≡ (ok q, s')
      → respond q v ≡ none
  unfolding create_request respond
  respond-one_way s s' m as' kw q v h = ground arith

  responded :
      (s s' : Ids) (m : String) (as' : Option Values) (kw : Option Fields) (q : Request) (v : Value)
      (n : ℤ)
      → s.generator s.drawn ≡ int n
      → create_request s m as' kw false ≡ (ok q, s')
      → respond q v ≡ some (success (int n) v)
  unfolding create_request respond
  responded s s' m as' kw q v n i h = ground arith

  module _ (lawful : IsMsgpack codec) where
    parse_request-serialize :
        (s s' : Ids) (m : String) (as' : Option Values) (kw : Option Fields) (one_way : Bool)
        (q : Request) (w : Wire)
        → IsReady s
        → create_request s m as' kw one_way ≡ (ok q, s')
        → codec.packb (list (request_to_list q)) ≡ ok w
        → read_request w ≡ ok q
    unfolding read_request
    parse_request-serialize s s' m as' kw one_way q w (n, i) h e = ground (
      arith,
      lawful (request_to_list q) w e,
      parse_request-request_to_list s s' m as' kw one_way q n i h,
    )

    parse_reply-response :
        (v : Value) (w : Wire) (n : ℤ)
        → codec.packb (list (response_to_list render (success (int n) v))) ≡ ok w
        → read_reply w ≡ ok (success (int n) v)
    unfolding read_reply
    parse_reply-response v w n e = ground (
      arith,
      lawful (response_to_list render (success (int n) v)) w e,
      parse_reply-response_to_list render (success (int n) v) (result n v),
    )

    -- MessagePack-RPC keeps the contract of a protocol, over a codec that reads lists as written.
    pub msgpack-IsProtocol : IsProtocol protocol
    msgpack-IsProtocol = record {
      IsReady = IsReady;
      created = created;
      parse_request-serialize = parse_request-serialize;
      parse_reply-respond = λ s s' m as' kw q v (n, i) h. (
        success (int n) v,
        responded s s' m as' kw q v n i h,
        refl,
        λ w e. (s', ap (λ r. (r, s')) (parse_reply-response v w n e)),
      );
      respond-one_way = respond-one_way;
    }
