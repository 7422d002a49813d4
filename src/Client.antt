-- ===== src/Client.antt =====
-- fluxrpc/client.py: `RPCClient.call` with the JSON-RPC protocol. The transport's `send_message`
-- is a parameter: what it returns or raises for a message. The timeout and the channel, which are
-- handed through to it, are left out.
pub mod Several
pub mod Calls
pub mod Proxy
use Prim.Native.String.{◌++◌ as ◌<>◌}
use aiotinyrpc.Base.{
  String, ◌≡◌, refl, sym, ap, ◌∙◌, Bool, true, false, not, Option, none, some, arith, if◌then◌else◌,
}
use aiotinyrpc.Python.Value.{Value, Values, Fields, dict, str, int, nil, IsId}
use aiotinyrpc.Python.Text.{str_value}
use aiotinyrpc.Python.Exc.{
  Exc, Result, ok, err, raised, raised_text, rpc_error, attribute_error, timeout_error,
}
use aiotinyrpc.Jsonrpc.{Request, Response, success, failure, request_to_dict, response_to_dict}
use aiotinyrpc.Jsonrpc.Protocol.{
  Protocol, create_request, parse_reply, Reply, single, batch, contains,
}
use aiotinyrpc.Server.{Server, Codec, handle_message}

module _ {Wire : Type 0} (codec : Codec Wire) (render : Value → String) (is_empty : Wire → Bool)
    (send_message : Wire → Bool → Result (Option Wire)) where
  -- A response with an error is raised as an `RPCError` with that error in its text.
  abbrev pub remote_error : Value → Exc
  remote_error m = raised_text rpc_error ("Error calling remote procedure: " <> str_value render m)

  abbrev pub checked : Result Reply × Protocol → Result (Option Reply) × Protocol
  checked (err e, p) = (err e, p)
  checked (ok (single (failure i m c d)), p) = (err (remote_error m), p)
  checked (ok r, p) = (ok (some r), p)

  abbrev replied : Bool → Protocol → Result (Option Wire) → Result (Option Reply) × Protocol
  replied one_way p (err e) = (err e, p)
  replied one_way p (ok none) = (ok none, p)
  replied one_way p (ok (some w)) =
      if one_way
      then (ok none, p)
      else if is_empty w
      then (ok none, p)
      else checked (parse_reply render codec.decode p w)

  abbrev pub sent : Bool → Protocol → Result Wire → Result (Option Reply) × Protocol
  sent one_way p (err e) = (err e, p)
  sent one_way p (ok w) = replied one_way p (send_message w (not one_way))

  -- `_send_and_handle_reply`
  unfoldable pub send_and_handle_reply :
      Protocol → Request → Bool → Result (Option Reply) × Protocol
  unfolding parse_reply raised_text str_value
  send_and_handle_reply p q one_way = sent one_way p (codec.encode (dict (request_to_dict q)))

  -- The result of the reply. A batch has none.
  abbrev pub result_of : Bool → Result (Option Reply) × Protocol → Result (Option Value) × Protocol
  result_of one_way (err e, p) = (err e, p)
  result_of one_way (ok none, p) = (ok none, p)
  result_of true (ok (some r), p) = (ok none, p)
  result_of false (ok (some (single (success i v))), p) = (ok (some v), p)
  result_of false (ok (some r), p) = (err (raised attribute_error nil), p)

  abbrev pub called : Bool → Result Request × Protocol → Result (Option Value) × Protocol
  called one_way (err e, p) = (err e, p)
  called one_way (ok q, p) = result_of one_way (send_and_handle_reply p q one_way)

  -- `call`
  unfoldable pub call :
      Protocol → String → Option Values → Option Fields → Bool → Result (Option Value) × Protocol
  unfolding create_request send_and_handle_reply raised
  call p name args kwargs one_way = called one_way (create_request p name args kwargs one_way)

-- A transport that hands each message to a server. A task of the server that raises gives no
-- reply, and the wait for it times out.
unfoldable pub direct : {Wire : Type 0} → Server Wire → Wire → Bool → Result (Option Wire)
unfolding handle_message
direct s w expect_reply = elim (handle_message s w) [
  | ok o ↦ ok o
  | err e ↦ err (raised timeout_error nil)
]
