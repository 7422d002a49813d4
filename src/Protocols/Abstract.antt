-- ===== src/Protocols/Abstract.antt =====
-- fluxrpc/protocols/__init__.py: the abstract classes `RPCRequest`, `RPCResponse` and `RPCProtocol`
-- as an interface, and what their documentation promises of it as laws.
use aiotinyrpc.Base.{String, ◌≡◌, Bool, true, false, Option, none, some}
use aiotinyrpc.Python.Value.{Value, Values, Fields, nil}
use aiotinyrpc.Python.Exc.{Exc, Result, ok}

-- A protocol with its objects. `single` is a message of one request or response and not of a batch,
-- and `result` the attribute of that name, which an error response does not have.
pub record RpcProtocol (Wire : Type 0) : Type 1 where
  pub State : Type 0
  pub Request : Type 0
  pub Response : Type 0
  pub Parsed : Type 0
  pub Reply : Type 0
  pub single : Request → Parsed
  pub single_reply : Response → Reply
  pub method : Request → String
  pub args : Request → Values
  pub create_request :
      State → String → Option Values → Option Fields → Bool → Result Request × State
  pub serialize : Request → Result Wire
  pub parse_request : Wire → Result Parsed
  pub respond : Request → Value → Option Response
  pub error_respond : Request → Exc → Option Response
  pub serialize_response : Response → Result Wire
  pub parse_reply : State → Wire → Result Reply × State
  pub result : Response → Option Value

abbrev pub or_nil : Option Values → Values
or_nil none = nil
or_nil (some vs) = vs

-- Requests and responses are read as they were written, a created request asks for what was given,
-- the response to it has the result that it was made of, and a notification is not answered.
-- `IsReady` says of a client that the next id it draws can serve as one.
pub record IsProtocol {Wire : Type 0} (p : RpcProtocol Wire) : Type 1 where
  pub IsReady : p.State → Type 0
  pub created :
      (s s' : p.State) (m : String) (as' : Option Values) (kw : Option Fields) (one_way : Bool)
      (q : p.Request)
      → p.create_request s m as' kw one_way ≡ (ok q, s')
      → (p.method q ≡ m) × (p.args q ≡ or_nil as')
  pub parse_request-serialize :
      (s s' : p.State) (m : String) (as' : Option Values) (kw : Option Fields) (one_way : Bool)
      (q : p.Request) (w : Wire)
      → IsReady s
      → p.create_request s m as' kw one_way ≡ (ok q, s')
      → p.serialize q ≡ ok w
      → p.parse_request w ≡ ok (p.single q)
  pub parse_reply-respond :
      (s s' : p.State) (m : String) (as' : Option Values) (kw : Option Fields) (q : p.Request)
      (v : Value)
      → IsReady s
      → p.create_request s m as' kw false ≡ (ok q, s')
      → (r : p.Response) × (p.respond q v ≡ some r)
        × (p.result r ≡ some v)
        × ((w : Wire)
            → p.serialize_response r ≡ ok w
            → (s'' : p.State) × (p.parse_reply s' w ≡ (ok (p.single_reply r), s'')))
  pub respond-one_way :
      (s s' : p.State) (m : String) (as' : Option Values) (kw : Option Fields) (q : p.Request)
      (v : Value)
      → p.create_request s m as' kw true ≡ (ok q, s')
      → p.respond q v ≡ none
