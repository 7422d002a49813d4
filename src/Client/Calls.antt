-- ===== src/Client/Calls.antt =====
-- `RPCClient.call` against `RPCServer.handle_message`.
use aiotinyrpc.Base.{String, ◌≡◌, refl, ◌∙◌, Bool, true, false, Option, some}
use aiotinyrpc.Python.Value.{Value, Values, Fields, dict, IsId}
use aiotinyrpc.Python.Exc.{Result, ok}
use aiotinyrpc.Jsonrpc.{Request, success, request_to_dict, response_to_dict}
use aiotinyrpc.Jsonrpc.Protocol.{Protocol, create_request, parse_reply, contains, or_nil, or_end}
use aiotinyrpc.Dispatch.{Method, get_method}
use aiotinyrpc.Server.{Server, IsBson, handle_message}
use aiotinyrpc.Server.Calls.{call-returns}
use aiotinyrpc.Server.Answers.{outcome}
use aiotinyrpc.Client.{call, send_and_handle_reply, direct, result_of, checked, sent}

module _ {Wire : Type 0} (s : Server Wire) (is_empty : Wire → Bool) where
  abbrev direct_call :
      Protocol → String → Option Values → Option Fields → Bool → Result (Option Value) × Protocol
  direct_call = call s.codec s.render is_empty (direct s)

  direct_lem :
      (w w' : Wire) (expect_reply : Bool)
      → handle_message s w ≡ ok (some w')
      → direct s w expect_reply ≡ ok (some w')
  unfolding direct
  direct_lem w w' expect_reply handled = rw (handled, direct) refl

  -- A call whose request, message and reply are known.
  call-direct :
      (p p' : Protocol) (name : String) (args : Option Values) (kwargs : Option Fields)
      (q : Request) (w w' : Wire)
      → create_request p name args kwargs false ≡ (ok q, p')
      → s.codec.encode (dict (request_to_dict q)) ≡ ok w
      → handle_message s w ≡ ok (some w')
      → is_empty w' ≡ false
      → direct_call p name args kwargs false
        ≡ result_of s.codec s.render is_empty (direct s) false (
            checked s.codec s.render is_empty
              (direct s)
              (parse_reply s.render s.codec.decode p' w'))
  unfolding call send_and_handle_reply
  call-direct p p' name args kwargs q w w' made encoded handled full =
      rw (made, encoded, sent) (rw (direct_lem w w' true handled) (rw full refl))

module _ {Wire : Type 0} (s : Server Wire) (b : IsBson s.codec) (is_empty : Wire → Bool)
    (p p' : Protocol) (name : String) (args : Option Values) (kwargs : Option Fields) (q : Request)
    (w w' : Wire) (id : IsId (p.generator p.drawn))
    (fresh : contains (p.generator p.drawn) p.pending ≡ false)
    (made : create_request p name args kwargs false ≡ (ok q, p'))
    (encoded : s.codec.encode (dict (request_to_dict q)) ≡ ok w) (full : is_empty w' ≡ false) where
  -- A call of a registered method that takes the arguments returns what the method returns with
  -- them, and its request does not stay open, where the messages can be encoded, the id is fresh and
  -- the reply is not empty.
  pub call-result :
      (m : Method) (v : Value)
      → get_method s.dispatcher name ≡ some m
      → outcome s.validator m (or_nil args) (or_end kwargs) ≡ ok v
      → s.codec.encode (dict (response_to_dict s.render (success (p.generator p.drawn) v))) ≡ ok w'
      → call s.codec s.render is_empty (direct s) p name args kwargs false
        ≡ (ok (some v), record p' { pending = p.pending })
  call-result m v found returned back =
      let (handled, read) =
        call-returns s b p p' name args kwargs q w w' id fresh made encoded m v found returned
          back in
      call-direct s is_empty p p' name args kwargs q w w' made encoded handled full ∙ rw read refl
