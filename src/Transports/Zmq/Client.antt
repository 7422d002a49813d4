-- ===== src/Transports/Zmq/Client.antt =====
-- fluxrpc/transports/zmq.py: `ZmqClientTransport`, with `int(self.timeout * 1000)` as a native
-- number of milliseconds.
use aiotinyrpc.Base.{inl, inr, ℕ, ◌≡◌, Bool, true, false, Option, none, some, arith, if◌then◌else◌}
use aiotinyrpc.Python.Value.{nil}
use aiotinyrpc.Python.Exc.{Exc, Result, ok, err, raised, timeout_error, Result-cases}
use aiotinyrpc.Transports.Abstract.{Bytes}

-- A `REQ` socket: `send`, `recv`, and whether `poll` finds it readable in the time given.
pub record ReqSocket : Type 1 where
  pub Socket : Type 0
  pub send : Bytes → Socket → Result Socket
  pub recv : Socket → Result (Bytes × Socket)
  pub poll : ℕ → Socket → Bool × Socket

-- What `zmq` documents of it: a request is sent by a socket that waits for no reply, and refused
-- by one that does; a reply ends the wait, and a poll does not change it.
pub record IsReq (z : ReqSocket) : Type 0 where
  pub waiting : z.Socket → Bool
  pub send-waiting :
      (m : Bytes) (s : z.Socket) → waiting s ≡ true → (e : Exc) × (z.send m s ≡ err e)
  pub send-ok : (m : Bytes) (s s' : z.Socket) → z.send m s ≡ ok s' → waiting s' ≡ true
  pub recv-ok : (m : Bytes) (s s' : z.Socket) → z.recv s ≡ ok (m, s') → waiting s' ≡ false
  pub poll-waiting : (n : ℕ) (s : z.Socket) → waiting (z.poll n s).1 ≡ waiting s

module _ (z : ReqSocket) where
  abbrev reply_if : Bool → Bytes → Option Bytes
  reply_if true m = some m
  reply_if false m = none

  -- The socket that an exception leaves is the one that raised it.
  abbrev received : Bool → z.Socket → Result (Option Bytes) × z.Socket
  received expect_reply s = elim (z.recv s) [
    | err e ↦ (err e, s)
    | ok (m, s') ↦ (ok (reply_if expect_reply m), s')
  ]

  abbrev awaited : Option ℕ → Bool → z.Socket → Result (Option Bytes) × z.Socket
  awaited none expect_reply s = received expect_reply s
  awaited (some n) expect_reply s =
      let (ready, s') = z.poll n s in
      if ready then received expect_reply s' else (err (raised timeout_error nil), s')

  -- `send_message`
  unfoldable pub send_message :
      Option ℕ → Bytes → Bool → z.Socket → Result (Option Bytes) × z.Socket
  unfolding raised
  send_message timeout m expect_reply s = elim (z.send m s) [
    | err e ↦ (err e, s)
    | ok s' ↦ awaited timeout expect_reply s'
  ]

  module _ (req : IsReq z) where
    received-ready :
        (expect_reply : Bool) (s s' : z.Socket) (reply : Option Bytes)
        → received expect_reply s ≡ (ok reply, s')
        → req.waiting s' ≡ false
    received-ready expect_reply s s' reply h = elim (Result-cases (z.recv s)) [
      | inl ((m, after), hr) ↦ ground (arith, req.recv-ok m s after hr)
      | inr (e, hr) ↦ ground arith
    ]

    -- A call that returns leaves the socket ready for the next one, with or without a reply to
    -- return.
    pub send_message-ready :
        (timeout : Option ℕ) (m : Bytes) (expect_reply : Bool) (s s' : z.Socket)
        (reply : Option Bytes)
        → send_message timeout m expect_reply s ≡ (ok reply, s')
        → req.waiting s' ≡ false
    unfolding send_message
    send_message-ready none m expect_reply s s' reply h = elim (Result-cases (z.send m s)) [
      | inl (sent, hs) ↦ ground (arith, received-ready expect_reply sent s' reply)
      | inr (e, hs) ↦ ground arith
    ]
    send_message-ready (some n) m expect_reply s s' reply h = elim (Result-cases (z.send m s)) [
      | inl (sent, hs) ↦ ground (arith, received-ready expect_reply (z.poll n sent).1 s' reply)
      | inr (e, hs) ↦ ground arith
    ]
