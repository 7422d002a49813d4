-- ===== src/Exchange/Calls.antt =====
-- A request and its reply over an encrypted connection: `send_message` and `process_messages` of
-- fluxrpc/transports/socket/client.py, `process_messages` and `send_reply` of
-- fluxrpc/transports/socket/server.py.
use aiotinyrpc.Base.{
  ℕ, String, ◌≡◌, sym, ap, subst, ◌∙◌, true, false, Option, none, some, List, ◌==◌, [], ◌∷◌, ◌++◌,
  arith, if◌then◌else◌,
}
use aiotinyrpc.Python.Value.{Value}
use aiotinyrpc.Python.Exc.{Result, ok, err}
use aiotinyrpc.Messages.{Message, rpc_request, rpc_reply, encrypted, Crypto}
use aiotinyrpc.Auth.{Bitcoin}
use aiotinyrpc.Channels.{Channel, ChannelManager, deliver, update, has_id}
use aiotinyrpc.SocketServer as Server
use aiotinyrpc.SocketServer.Receive as ServerReceive
use aiotinyrpc.SocketClient as Client
use aiotinyrpc.SocketClient.Handlers as ClientHandlers
use aiotinyrpc.Exchange.{
  newest, newest-append, Ends, to_client, to_server, to_client-newest, to_server-newest, IsDecoded,
}
use aiotinyrpc.Exchange.Keys.{IsSealed}

-- The messages that wait in the channel with an id, where there is one.
abbrev pub queue_of : ℕ → List (Channel Message) → Option (List Message)
queue_of i [] = none
queue_of i (ch ∷ chs) = let rest = queue_of i chs in if ch.id == i then some ch.q else rest

update-queue_of :
    (chs : List (Channel Message)) (i j : ℕ) (m : Message) (ms : List Message)
    → queue_of i chs ≡ some ms
    → queue_of j (update (has_id i) (λ ch. record ch { q = ch.q ++ m ∷ [] }) chs)
      ≡ (if j == i then some (ms ++ m ∷ []) else queue_of j chs)
unfolding update
update-queue_of [] i j m ms h = cc h
update-queue_of (ch ∷ chs) i j m ms h = ground (arith, update-queue_of chs i j m ms)

deliver-queue_of :
    (chs : ChannelManager Message) (i j : ℕ) (m : Message) (ms : List Message)
    → queue_of i chs.channels ≡ some ms
    → queue_of j (deliver chs i m).channels
      ≡ (if j == i then some (ms ++ m ∷ []) else queue_of j chs.channels)
unfolding deliver
deliver-queue_of chs i j m ms h = update-queue_of chs.channels i j m ms h

module _ (c : Crypto) where
  -- `send_message` of a request on a channel, up to its wait. A message that the cipher refuses, or
  -- for which there is no key, raises and is not sent.
  abbrev put : Client.Transport → Result String → Client.Transport
  put t (err e) = t
  put t (ok text) = Client.send (encrypted text) t

  abbrev pub put_sealed : Client.Transport → Message → Option String → Client.Transport
  put_sealed t m none = t
  put_sealed t m (some k) = put t (c.encrypt k m)

  unfoldable pub send_request : ℕ → String → Client.Transport → Client.Transport
  send_request i payload t =
      if t.encrypted
      then put_sealed t (rpc_request i payload) (ClientHandlers.last_key t.aes_keys)
      else Client.send (rpc_request i payload) t

  -- `send_reply`; for a peer that was destroyed the reply is dropped. The log line decodes the
  -- payload and raises where that is no document.
  abbrev put_reply : Server.State → Result String → Server.State
  put_reply s (err e) = s
  put_reply s (ok text) = Server.send (encrypted text) s

  abbrev put_decoded : ℕ → String → Server.State → Result Value → Server.State
  put_decoded i payload s (err e) = s
  put_decoded i payload s (ok v) =
      if s.peer.encrypted_flag
      then put_reply s (c.encrypt s.peer.key_data.aes (rpc_reply i payload))
      else Server.send (rpc_reply i payload) s

  unfoldable pub send_reply : ℕ → String → Server.State → Server.State
  send_reply i payload s =
      if s.peer.destroyed then s else put_decoded i payload s (c.bson_decode payload)

  module _ (b : Bitcoin) where
    requested :
        (i : ℕ) (payload key text : String) (t : Client.Transport)
        → (t.encrypted ≡ true) × (t.aes_keys ≡ key ∷ [])
        → IsSealed c key (rpc_request i payload) text
        → let t' = send_request i payload t in
          ((t'.encrypted ≡ true)
            × (t'.aes_keys ≡ key ∷ [])
            × (t'.channels ≡ t.channels)
            × (newest t'.sent ≡ some (encrypted text)))
    unfolding send_request
    requested i payload key text t (e, one) (h, o) =
        ground (arith, newest-append t.sent (encrypted text))

    queued :
        (g : ServerReceive.Given) (i : ℕ) (payload key text : String) (s : Server.State)
        → (s.peer.encrypted_flag ≡ true) × (s.peer.key_data.aes ≡ key)
        → IsSealed c key (rpc_request i payload) text
        → IsDecoded c (encrypted text)
        → (v : Value) → c.bson_decode payload ≡ ok v
        → let s' =
            Server.state_of
              (ServerReceive.process_message c b g (c.serialize (encrypted text)) s) in
          ((s'.peer ≡ s.peer) × (s'.rpc_messages ≡ s.rpc_messages ++ (i, payload) ∷ []))
    unfolding ServerReceive.process_message ServerReceive.handle
    queued g i payload key text s (e, k) (h, o) dm v doc = ground (arith, dm, doc)

    replied :
        (i : ℕ) (payload key text : String) (s : Server.State)
        → s.peer.destroyed ≡ false
        → (s.peer.encrypted_flag ≡ true) × (s.peer.key_data.aes ≡ key)
        → IsSealed c key (rpc_reply i payload) text
        → (v : Value) → c.bson_decode payload ≡ ok v
        → (newest (send_reply i payload s).sent ≡ some (encrypted text))
          × ((send_reply i payload s).rpc_messages ≡ s.rpc_messages)
    unfolding send_reply
    replied i payload key text s there (e, k) (h, o) v doc =
        ground (arith, doc, newest-append s.sent (encrypted text))

    arrived :
        (d : ClientHandlers.Drawn) (i : ℕ) (payload key text : String) (t : Client.Transport)
        → (t.encrypted ≡ true) × (t.aes_keys ≡ key ∷ [])
        → IsSealed c key (rpc_reply i payload) text
        → IsDecoded c (encrypted text)
        → (Client.state_of
            (ClientHandlers.process_message c b d (c.serialize (encrypted text)) t)).channels
          ≡ deliver t.channels i (rpc_reply i payload)
    unfolding ClientHandlers.process_message ClientHandlers.handle ClientHandlers.decrypt
    arrived d i payload key text t (e, one) (h, o) dm = ground (arith, dm)

    -- A request, which the server takes off its queue, and the reply that it makes of it.
    unfoldable pub exchange_call :
        ServerReceive.Given → ClientHandlers.Drawn → ℕ → String → String → Ends → Ends
    unfolding to_client to_server send_request send_reply
    exchange_call g d i payload answer e =
        let e' = to_server c b g (record e { client = send_request i payload e.client }) in
        to_client c b d (record e' { server = send_reply i answer e'.server })

    -- The request is queued at the server, the reply is the last message in the channel of the
    -- request, behind those that were there, and the other channels are as they were.
    abbrev pub IsAnswered : ℕ → String → String → List Message → Ends → Ends → Type 0
    IsAnswered i payload answer ms e e' =
        (e'.server.rpc_messages ≡ e.server.rpc_messages ++ (i, payload) ∷ [])
        × ((j : ℕ)
            → queue_of j e'.client.channels.channels ≡ (
                if j == i
                then some (ms ++ rpc_reply i answer ∷ [])
                else queue_of j e.client.channels.channels))

    -- Over a connection that is encrypted on both ends under one key, where the cipher decrypts what
    -- it encrypted and the two messages are read as they were written: a request that the client
    -- sends on a channel that it has is queued at the server with that channel, and the server's
    -- reply to it comes last into the queue of that channel and into no other, where both payloads
    -- are documents of `bson`.
    pub exchange_call-IsAnswered :
        (g : ServerReceive.Given) (d : ClientHandlers.Drawn) (i : ℕ)
        (payload answer key asked said : String) (ms : List Message) (v v' : Value) (e : Ends)
        → queue_of i e.client.channels.channels ≡ some ms
        → (c.bson_decode payload ≡ ok v) × (c.bson_decode answer ≡ ok v')
        → (e.server.peer.encrypted_flag ≡ true) × (e.server.peer.key_data.aes ≡ key)
        → e.server.peer.destroyed ≡ false
        → (e.client.encrypted ≡ true) × (e.client.aes_keys ≡ key ∷ [])
        → IsSealed c key (rpc_request i payload) asked
        → IsSealed c key (rpc_reply i answer) said
        → IsDecoded c (encrypted asked) × IsDecoded c (encrypted said)
        → IsAnswered i payload answer ms e (exchange_call g d i payload answer e)
    unfolding exchange_call
    exchange_call-IsAnswered g d i payload answer key asked said ms v v' e there_is (bp, ba)
          (se, sk) there ck ha hs (da, ds) =
        let t1 = send_request i payload e.client in
        let (x1, k1, m1, n1) = requested i payload key asked e.client ck ha in
        let s1 =
          Server.state_of
            (ServerReceive.process_message c b g (c.serialize (encrypted asked)) e.server) in
        let (p1, q1) = queued g i payload key asked e.server (se, sk) ha da v bp in
        let s2 = send_reply i answer s1 in
        let (n2, q2) =
          replied i answer key said s1 (ap (λ p. p.destroyed) p1 ∙ there)
            (ap (λ p. p.encrypted_flag) p1 ∙ se, ap (λ p. p.key_data.aes) p1 ∙ sk) hs v' ba in
        let e1 = record e { client = t1 } in
        let e2 = record e1 { server = s2 } in
        subst (IsAnswered i payload answer ms e)
          (sym (
            ap (λ y. to_client c b d (record y { server = send_reply i answer y.server }))
              (to_server-newest c b g e1 (encrypted asked) n1)
            ∙ to_client-newest c b d e2 (encrypted said) n2))
          (
            q2 ∙ q1,
            λ j.
                ap (λ chs. queue_of j chs.channels)
                  (arrived d i answer key said t1 (x1, k1) hs ds
                    ∙ ap (λ chs. deliver chs i (rpc_reply i answer)) m1)
                ∙ deliver-queue_of e.client.channels i j (rpc_reply i answer) ms there_is,
          )
