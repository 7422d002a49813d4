-- ===== src/Exchange/Terminal.antt =====
-- The terminal of a peer: `send_pty_message` and `send_pty_resize_message` of
-- fluxrpc/transports/socket/client.py, and what fluxrpc/transports/socket/server.py does with them.
use aiotinyrpc.Base.{ℕ, String, ◌≡◌, ap, ◌∙◌, true, some, [], ◌∷◌, ◌++◌, arith, if◌then◌else◌}
use aiotinyrpc.Messages.{Message, pty, pty_resize, encrypted, Crypto}
use aiotinyrpc.Auth.{Bitcoin}
use aiotinyrpc.SocketServer as Server
use aiotinyrpc.SocketServer.{Effect, terminal_data, terminal_size}
use aiotinyrpc.SocketServer.Receive as ServerReceive
use aiotinyrpc.SocketClient as Client
use aiotinyrpc.SocketClient.Handlers as ClientHandlers
use aiotinyrpc.Exchange.{newest, newest-append, Ends, to_server, to_server-newest, IsDecoded}
use aiotinyrpc.Exchange.Keys.{IsSealed}
use aiotinyrpc.Exchange.Calls.{put_sealed}

module _ (c : Crypto) where
  abbrev put_message : Message → Client.Transport → Client.Transport
  put_message m t =
      if t.encrypted then put_sealed c t m (ClientHandlers.last_key t.aes_keys) else Client.send m t

  unfoldable pub send_pty_message : String → Client.Transport → Client.Transport
  send_pty_message text t = put_message (pty text) t

  unfoldable pub send_pty_resize_message : ℕ → ℕ → Client.Transport → Client.Transport
  send_pty_resize_message rows cols t = put_message (pty_resize rows cols) t

  module _ (b : Bitcoin) where
    -- What a client writes to a terminal, and a new size of its own.
    unfoldable pub exchange_pty :
        ServerReceive.Given → ServerReceive.Given → String → ℕ → ℕ → Ends → Ends
    unfolding send_pty_message send_pty_resize_message to_server
    exchange_pty g g' text rows cols e =
        let e' = to_server c b g (record e { client = send_pty_message text e.client }) in
        to_server c b g' (record e' { client = send_pty_resize_message rows cols e'.client })

    sent :
        (m : Message) (key text : String) (t : Client.Transport)
        → (t.encrypted ≡ true) × (t.aes_keys ≡ key ∷ [])
        → IsSealed c key m text
        → let t' = put_message m t in
          ((t'.encrypted ≡ true)
            × (t'.aes_keys ≡ key ∷ [])
            × (newest t'.sent ≡ some (encrypted text)))
    sent m key text t (e, one) (h, o) = ground (arith, newest-append t.sent (encrypted text))

    abbrev Attached : String → Server.State → Type 0
    Attached key s =
        (s.peer.encrypted_flag ≡ true) × (s.peer.key_data.aes ≡ key) × (s.peer.pty_attached ≡ true)

    abbrev read : ServerReceive.Given → String → Server.State → Server.State
    read g text s =
        Server.state_of (ServerReceive.process_message c b g (c.serialize (encrypted text)) s)

    written :
        (g : ServerReceive.Given) (data_text key text : String) (s : Server.State)
        → Attached key s
        → IsSealed c key (pty data_text) text
        → IsDecoded c (encrypted text)
        → ((read g text s).effects ≡ s.effects ++ (terminal_data data_text ∷ []))
          × ((read g text s).peer ≡ s.peer)
    unfolding ServerReceive.process_message ServerReceive.handle ServerReceive.handle_pty_message
    written g data_text key text s (e, k, there) (h, o) dm = ground (arith, dm)

    resized :
        (g : ServerReceive.Given) (rows cols : ℕ) (key text : String) (s : Server.State)
        → Attached key s
        → IsSealed c key (pty_resize rows cols) text
        → IsDecoded c (encrypted text)
        → (read g text s).effects ≡ s.effects ++ (terminal_size rows cols ∷ [])
    unfolding ServerReceive.process_message ServerReceive.handle ServerReceive.handle_pty_message
    resized g rows cols key text s (e, k, there) (h, o) dm = ground (arith, dm)

    -- Over a connection that is encrypted on both ends under one key, the terminal that is attached
    -- to the peer gets what the client writes and then the size that the client sets, where the
    -- cipher decrypts what it encrypted and the messages are read as they were written.
    pub exchange_pty-effects :
        (g g' : ServerReceive.Given) (text key first second : String) (rows cols : ℕ) (e : Ends)
        → Attached key e.server
        → (e.client.encrypted ≡ true) × (e.client.aes_keys ≡ key ∷ [])
        → IsSealed c key (pty text) first × IsSealed c key (pty_resize rows cols) second
        → IsDecoded c (encrypted first) × IsDecoded c (encrypted second)
        → (exchange_pty g g' text rows cols e).server.effects
          ≡ (e.server.effects ++ (terminal_data text ∷ [])) ++ (terminal_size rows cols ∷ [])
    unfolding exchange_pty send_pty_message send_pty_resize_message
    exchange_pty-effects g g' text key first second rows cols e (se, sk, there) ck (h1, h2)
          (d1, d2) =
        let t1 = send_pty_message text e.client in
        let (x1, k1, n1) = sent (pty text) key first e.client ck h1 in
        let s1 = read g first e.server in
        let (w1, p1) = written g text key first e.server (se, sk, there) h1 d1 in
        let t2 = send_pty_resize_message rows cols t1 in
        let (x2, k2, n2) = sent (pty_resize rows cols) key second t1 (x1, k1) h2 in
        let e1 = record e { client = t1 } in
        let e2 = record e1 { server = s1; client = t2 } in
        let attached : Attached key s1 = (
          ap (λ p. p.encrypted_flag) p1 ∙ se,
          ap (λ p. p.key_data.aes) p1 ∙ sk,
          ap (λ p. p.pty_attached) p1 ∙ there,
        ) in
        ap
          (λ y.
            (to_server c b g'
              (record y { client = send_pty_resize_message rows cols y.client })).server.effects)
          (to_server-newest c b g e1 (encrypted first) n1)
        ∙ ap (λ y. y.server.effects) (to_server-newest c b g' e2 (encrypted second) n2)
        ∙ resized g' rows cols key second s1 attached h2 d2
        ∙ ap (λ es. es ++ (terminal_size rows cols ∷ [])) w1
