-- ===== src/Transports/WebSocketClient.antt =====
-- fluxrpc/transports/websocketclient.py: `HttpWebSocketClientTransport`. The web socket is a
-- parameter: what it does on `send` and on `recv`.
use aiotinyrpc.Base.{◌≡◌, Bool, Option, none, some, arith, Option-cases, inl, inr}
use aiotinyrpc.Python.Value.{Value, bytes}
use aiotinyrpc.Python.Exc.{Result, ok, err, Result-cases}
use aiotinyrpc.Transports.Abstract.{Bytes}
use aiotinyrpc.Transports.Http.{not_bytes, bytes_of, bytes_of-cases, reply_if}

pub record WebSocket : Type 1 where
  pub Socket : Type 0
  pub send : Bytes → Socket → Result Socket
  pub recv : Socket → Result (Bytes × Socket)
  pub close : Socket → Socket

module _ (ws : WebSocket) where
  abbrev received : Bool → ws.Socket → Result (Option Bytes) × ws.Socket
  received expect_reply s = elim (ws.recv s) [
    | err e ↦ (err e, s)
    | ok (r, s') ↦ (ok (reply_if expect_reply r), s')
  ]

  -- `send_message`
  unfoldable pub send_message : Value → Bool → ws.Socket → Result (Option Bytes) × ws.Socket
  unfolding not_bytes
  send_message message expect_reply s = elim (bytes_of message) [
    | none ↦ (err not_bytes, s)
    | some b ↦ elim (ws.send b s) [ err e ↦ (err e, s) | ok s' ↦ received expect_reply s' ]
  ]

  -- `close`
  unfoldable pub close : Option ws.Socket → Option ws.Socket
  close none = none
  close (some s) = some (ws.close s)

  -- A call that returns has sent its message and taken one reply off the socket, which it returns
  -- or drops.
  pub send_message-cases :
      (message : Value) (expect_reply : Bool) (r : Option Bytes) (s s' : ws.Socket)
      → send_message message expect_reply s ≡ (ok r, s')
      → (b : Bytes) × (sent : ws.Socket) × (reply : Bytes) × (message ≡ bytes b)
        × (ws.send b s ≡ ok sent)
        × (ws.recv sent ≡ ok (reply, s'))
        × (r ≡ reply_if expect_reply reply)
  unfolding send_message
  send_message-cases message expect_reply r s s' h = elim (Option-cases (bytes_of message)) [
    | inl e ↦ absurd (ground arith)
    | inr (b, e) ↦ elim (Result-cases (ws.send b s)) [
      | inr (x, p) ↦ absurd (ground arith)
      | inl (sent, p) ↦ elim (Result-cases (ws.recv sent)) [
        | inr (x, q) ↦ absurd (ground arith)
        | inl ((reply, after), q) ↦
            (b, sent, reply, bytes_of-cases message b e, p, ground arith, ground arith)
      ]
    ]
  ]
