-- ===== src/Exchange/Keys.antt =====
-- The exchange of keys between fluxrpc/transports/socket/server.py, from `begin_encryption` on, and
-- fluxrpc/transports/socket/client.py, `encryption_message_handler`.
use aiotinyrpc.Base.{
  String, str_eq_refl, ◌≡◌, sym, ap, subst, All, ◌∙◌, true, false, some, [], ◌∷◌, arith,
}
use aiotinyrpc.Base.Text.{reverse}
use aiotinyrpc.Python.Exc.{ok}
use aiotinyrpc.Messages.{Message, rsa_public_key, session_key, aes_key, encrypted, test, Crypto}
use aiotinyrpc.Auth.{Bitcoin}
use aiotinyrpc.SocketServer as Server
use aiotinyrpc.SocketServer.Receive as ServerReceive
use aiotinyrpc.SocketServer.Handlers as ServerHandlers
use aiotinyrpc.SocketClient as Client
use aiotinyrpc.SocketClient.Handlers as ClientHandlers
use aiotinyrpc.Exchange.{
  newest, newest-append, Ends, to_client, to_server, to_client-newest, to_server-newest, IsDecoded,
}

-- A text that a message is encrypted to under a key, and that the key decrypts.
abbrev pub IsSealed : Crypto → String → Message → String → Type 0
IsSealed c k m t = (c.encrypt k m ≡ ok t) × (c.decrypt k t ≡ ok m)

-- What the public key of a private one encrypts, and the private one decrypts.
abbrev pub IsOpened : Crypto → String → String → String → Type 0
IsOpened c private x y =
    (c.rsa_encrypt (c.public_of private) x ≡ ok y) × (c.rsa_decrypt private y ≡ ok x)

-- `begin_encryption`, and the four messages that follow: the public key, the session key, the test
-- message, and its answer.
unfoldable pub exchange_keys :
    Crypto
    → Bitcoin
    → String
    → ClientHandlers.Drawn
    → ServerReceive.Given
    → ClientHandlers.Drawn
    → ServerReceive.Given
    → Ends
    → Ends
unfolding to_client to_server ServerHandlers.begin_encryption
exchange_keys c b private d g d' g' e = to_server c b g' (
    to_client c b d' (
      to_server c b g (
        to_client c b d (record e {
          server = Server.state_of (ServerHandlers.begin_encryption c private false e.server);
        }))))

module _ (c : Crypto) (b : Bitcoin) where
  client_key :
      (d : ClientHandlers.Drawn) (t : Client.Transport) (pem a e : String)
      → t.encrypted ≡ false
      → t.aes_keys ≡ []
      → c.rsa_encrypt pem d.session ≡ ok e
      → c.encrypt d.session (aes_key d.new_key) ≡ ok a
      → IsDecoded c (rsa_public_key pem)
      → let t' =
          Client.state_of
            (ClientHandlers.process_message c b d (c.serialize (rsa_public_key pem)) t) in
        ((t'.encrypted ≡ false)
          × (t'.aes_keys ≡ d.new_key ∷ [])
          × (newest t'.sent ≡ some (session_key (c.serialize (encrypted a)) e)))
  unfolding ClientHandlers.process_message ClientHandlers.handle ClientHandlers.handle_public_key
      ClientHandlers.session_key_message
  client_key d t pem a e plain fresh he ha dm =
      ground (arith, dm, newest-append t.sent (session_key (c.serialize (encrypted a)) e))

  server_key :
      (g : ServerReceive.Given) (s : Server.State) (a e k key question : String)
      → s.peer.encrypted_flag ≡ false
      → c.rsa_decrypt s.peer.key_data.rsa_private e ≡ ok k
      → c.decrypt k a ≡ ok (aes_key key)
      → c.encrypt key (test g.drawn "TestEncryptionMessage") ≡ ok question
      → IsDecoded c (session_key (c.serialize (encrypted a)) e)
      → IsDecoded c (encrypted a)
      → let s' = Server.state_of (
          ServerReceive.process_message c b g
            (c.serialize (session_key (c.serialize (encrypted a)) e))
            s) in
        ((s'.peer.encrypted_flag ≡ false)
          × (s'.peer.key_data.aes ≡ key)
          × (s'.peer.random ≡ g.drawn)
          × (newest s'.sent ≡ some (encrypted question)))
  unfolding ServerReceive.process_message ServerReceive.handle
      ServerHandlers.handle_encryption_message ServerHandlers.parse_session_key_message
      Server.burn_rsa_keys
  server_key g s a e k key question plain he ha hq dm da =
      ground (arith, dm, da, newest-append s.sent (encrypted question))

  client_test :
      (d : ClientHandlers.Drawn) (t : Client.Transport) (key fill question answer : String)
      → t.encrypted ≡ false
      → t.aes_keys ≡ key ∷ []
      → c.decrypt key question ≡ ok (test fill "TestEncryptionMessage")
      → c.encrypt key (test (reverse fill) "TestEncryptionMessageResponse") ≡ ok answer
      → IsDecoded c (encrypted question)
      → let t' =
          Client.state_of
            (ClientHandlers.process_message c b d (c.serialize (encrypted question)) t) in
        ((t'.encrypted ≡ true)
          × (t'.aes_keys ≡ key ∷ [])
          × (t'.encrypted_event ≡ true)
          × (newest t'.sent ≡ some (encrypted answer)))
  unfolding ClientHandlers.process_message ClientHandlers.handle ClientHandlers.handle_test
      ClientHandlers.decrypt
  client_test d t key fill question answer plain one hq ha dm =
      ground (arith, dm, newest-append t.sent (encrypted answer))

  server_response :
      (g : ServerReceive.Given) (s : Server.State) (key fill answer : String)
      → s.peer.encrypted_flag ≡ false
      → s.peer.key_data.aes ≡ key
      → s.peer.random ≡ fill
      → c.decrypt key answer ≡ ok (test (reverse fill) "TestEncryptionMessageResponse")
      → IsDecoded c (encrypted answer)
      → let s' =
          Server.state_of
            (ServerReceive.process_message c b g (c.serialize (encrypted answer)) s) in
        ((s'.peer.encrypted_flag ≡ true) × (s'.peer.key_data.aes ≡ key))
  unfolding ServerReceive.process_message ServerReceive.handle
      ServerHandlers.handle_encryption_message
  server_response g s key fill answer plain same r ha dm =
      ground (arith, dm, str_eq_refl (reverse fill))

  begun :
      (private : String) (s : Server.State)
      → s.peer.destroyed ≡ false
      → s.peer.encrypted_flag ≡ false
      → let s' = Server.state_of (ServerHandlers.begin_encryption c private false s) in
        ((s'.peer.encrypted_flag ≡ false)
          × (s'.peer.key_data.rsa_private ≡ private)
          × (newest s'.sent ≡ some (rsa_public_key (c.public_of private))))
  unfolding ServerHandlers.begin_encryption Server.generate
  begun private s there plain =
      ground (arith, newest-append s.sent (rsa_public_key (c.public_of private)))

  -- The two ends are encrypted, and hold one key.
  abbrev pub Shares : String → Ends → Type 0
  Shares key e =
      (e.server.peer.encrypted_flag ≡ true)
      × (e.server.peer.key_data.aes ≡ key)
      × (e.client.encrypted ≡ true)
      × (e.client.aes_keys ≡ key ∷ [])
      × (e.client.encrypted_event ≡ true)

  -- The keys that a server and a fresh client exchange, when the ciphers succeed and decrypt what they
  -- encrypted and the five messages are read as they were written: both ends are encrypted, under the
  -- one key that the client drew, and `connect` has not to wait for the encryption any more.
  pub exchange_keys-Shares :
      (private a x question answer : String) (d d' : ClientHandlers.Drawn)
      (g g' : ServerReceive.Given) (e : Ends)
      → (e.server.peer.destroyed ≡ false) × (e.server.peer.encrypted_flag ≡ false)
      → (e.client.encrypted ≡ false) × (e.client.aes_keys ≡ [])
      → IsOpened c private d.session x
      → IsSealed c d.session (aes_key d.new_key) a
      → IsSealed c d.new_key (test g.drawn "TestEncryptionMessage") question
      → IsSealed c d.new_key (test (reverse g.drawn) "TestEncryptionMessageResponse") answer
      → All (IsDecoded c) (
          rsa_public_key (c.public_of private)
          ∷ session_key (c.serialize (encrypted a)) x
          ∷ encrypted a
          ∷ encrypted question
          ∷ encrypted answer
          ∷ [])
      → Shares d.new_key (exchange_keys c b private d g d' g' e)
  unfolding exchange_keys
  exchange_keys-Shares private a x question answer d d' g g' e (there, s_plain) (t_plain, fresh)
        (hx, ox) (ha, oa) (hq, oq) (hr, oo) (dp, (ds, (da, (dq, (dr, u))))) =
      let key = d.new_key in
      let s0 = Server.state_of (ServerHandlers.begin_encryption c private false e.server) in
      let (p0, r0, n0) = begun private e.server there s_plain in
      let t1 = Client.state_of (
        ClientHandlers.process_message c b d (c.serialize (rsa_public_key (c.public_of private)))
          e.client) in
      let (p1, k1, n1) = client_key d e.client (c.public_of private) a x t_plain fresh hx ha dp in
      let s2 = Server.state_of (
        ServerReceive.process_message c b g
          (c.serialize (session_key (c.serialize (encrypted a)) x)) s0) in
      let (p2, k2, r2, n2) =
        server_key g s0 a x d.session key question p0 (ap (λ z. c.rsa_decrypt z x) r0 ∙ ox) oa hq ds
          da in
      let t3 =
        Client.state_of
          (ClientHandlers.process_message c b d' (c.serialize (encrypted question)) t1) in
      let (p3, k3, v3, n3) = client_test d' t1 key g.drawn question answer p1 k1 oq hr dq in
      let (p4, k4) = server_response g' s2 key g.drawn answer p2 k2 r2 oo dr in
      let e0 = record e { server = s0 } in
      let e1 = record e0 { client = t1 } in
      let e2 = record e1 { server = s2 } in
      let e3 = record e2 { client = t3 } in
      subst (Shares key)
        (sym (
          ap (λ y. to_server c b g' (to_client c b d' (to_server c b g y)))
            (to_client-newest c b d e0 (rsa_public_key (c.public_of private)) n0)
          ∙ ap (λ y. to_server c b g' (to_client c b d' y))
              (to_server-newest c b g e1 (session_key (c.serialize (encrypted a)) x) n1)
          ∙ ap (to_server c b g') (to_client-newest c b d' e2 (encrypted question) n2)
          ∙ to_server-newest c b g' e3 (encrypted answer) n3))
        (p4, k4, p3, k3, v3)
