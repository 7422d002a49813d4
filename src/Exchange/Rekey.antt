-- ===== src/Exchange/Rekey.antt =====
-- A change of the session key: `send_rekey_every` of fluxrpc/transports/socket/client.py, and the
-- messages between it and fluxrpc/transports/socket/server.py that follow.
use aiotinyrpc.Base.{String, ◌≡◌, sym, ap, subst, ◌∙◌, All, true, false, some, [], ◌∷◌, arith}
use aiotinyrpc.Python.Exc.{ok}
use aiotinyrpc.Messages.{aes_rekey, rsa_public_key, session_key, aes_key, encrypted, Crypto}
use aiotinyrpc.Auth.{Bitcoin}
use aiotinyrpc.SocketServer as Server
use aiotinyrpc.SocketServer.Receive as ServerReceive
use aiotinyrpc.SocketServer.Handlers as ServerHandlers
use aiotinyrpc.SocketClient as Client
use aiotinyrpc.SocketClient.Handlers as ClientHandlers
use aiotinyrpc.Exchange.{
  newest, newest-append, Ends, to_client, to_server, to_client-newest, to_server-newest, IsDecoded,
}
use aiotinyrpc.Exchange.Keys.{IsSealed, IsOpened}
use aiotinyrpc.Exchange.Calls.{put_sealed}

module _ (c : Crypto) where
  -- A turn of `send_rekey_every`, with the bytes that it draws. Without a key it raises.
  unfoldable pub send_rekey : String → Client.Transport → Client.Transport
  send_rekey fill t = put_sealed c t (aes_rekey fill) (ClientHandlers.last_key t.aes_keys)

  module _ (b : Bitcoin) where
    asked :
        (fill key text : String) (t : Client.Transport)
        → (t.encrypted ≡ true) × (t.aes_keys ≡ key ∷ [])
        → IsSealed c key (aes_rekey fill) text
        → let t' = send_rekey fill t in
          ((t'.encrypted ≡ true)
            × (t'.aes_keys ≡ key ∷ [])
            × (newest t'.sent ≡ some (encrypted text)))
    unfolding send_rekey
    asked fill key text t (e, one) (h, o) = ground (arith, newest-append t.sent (encrypted text))

    offered :
        (g : ServerReceive.Given) (fill key text said : String) (s : Server.State)
        → (s.peer.encrypted_flag ≡ true) × (s.peer.key_data.aes ≡ key) × (s.peer.destroyed ≡ false)
        → IsSealed c key (aes_rekey fill) text
        → IsSealed c key (rsa_public_key (c.public_of g.drawn)) said
        → IsDecoded c (encrypted text)
        → let s' =
            Server.state_of
              (ServerReceive.process_message c b g (c.serialize (encrypted text)) s) in
          ((s'.peer.encrypted_flag ≡ true)
            × (s'.peer.key_data.aes ≡ key)
            × (s'.peer.key_data.rsa_private ≡ g.drawn)
            × (newest s'.sent ≡ some (encrypted said)))
    unfolding ServerReceive.process_message ServerReceive.handle ServerHandlers.begin_encryption
        Server.generate
    offered g fill key text said s (e, k, there) (h, o) (h', o') dm =
        ground (arith, dm, newest-append s.sent (encrypted said))

    drew :
        (d : ClientHandlers.Drawn) (pem key text a x said : String) (t : Client.Transport)
        → (t.encrypted ≡ true) × (t.aes_keys ≡ key ∷ [])
        → IsSealed c key (rsa_public_key pem) text
        → c.rsa_encrypt pem d.session ≡ ok x
        → c.encrypt d.session (aes_key d.new_key) ≡ ok a
        → IsSealed c key (session_key (c.serialize (encrypted a)) x) said
        → IsDecoded c (encrypted text)
        → let t' =
            Client.state_of
              (ClientHandlers.process_message c b d (c.serialize (encrypted text)) t) in
          ((t'.encrypted ≡ true)
            × (t'.aes_keys ≡ key ∷ d.new_key ∷ [])
            × (t'.rekeying ≡ some true)
            × (newest t'.sent ≡ some (encrypted said)))
    unfolding ClientHandlers.process_message ClientHandlers.handle ClientHandlers.decrypt
        ClientHandlers.handle_public_key ClientHandlers.session_key_message
    drew d pem key text a x said t (e, one) (h, o) hx ha (h', o') dm =
        ground (arith, dm, newest-append t.sent (encrypted said))

    changed :
        (g : ServerReceive.Given) (key text a x k new : String) (s : Server.State)
        → (s.peer.encrypted_flag ≡ true) × (s.peer.key_data.aes ≡ key)
        → IsSealed c key (session_key (c.serialize (encrypted a)) x) text
        → c.rsa_decrypt s.peer.key_data.rsa_private x ≡ ok k
        → c.decrypt k a ≡ ok (aes_key new)
        → IsDecoded c (encrypted text)
        → IsDecoded c (encrypted a)
        → let s' =
            Server.state_of
              (ServerReceive.process_message c b g (c.serialize (encrypted text)) s) in
          ((s'.peer.encrypted_flag ≡ true)
            × (s'.peer.key_data.aes ≡ new)
            × (s'.peer.key_data.rsa_private ≡ ""))
    unfolding ServerReceive.process_message ServerReceive.handle
        ServerHandlers.handle_encryption_message ServerHandlers.parse_session_key_message
        Server.burn_rsa_keys
    changed g key text a x k new s (e, same) (h, o) hx ha dm da = ground (arith, dm, da)

    -- The client asks, and three messages follow: a public key, a session key, and no test.
    unfoldable pub exchange_rekey :
        String → ServerReceive.Given → ClientHandlers.Drawn → ServerReceive.Given → Ends → Ends
    unfolding to_client to_server send_rekey
    exchange_rekey fill g d g' e =
        to_server c b g'
          (to_client c b d (to_server c b g (record e { client = send_rekey fill e.client })))

    -- The server has the new key alone, and the client the old one and the new one.
    abbrev pub IsRekeyed : String → String → Ends → Type 0
    IsRekeyed old new e =
        (e.server.peer.encrypted_flag ≡ true)
        × (e.server.peer.key_data.aes ≡ new)
        × (e.server.peer.key_data.rsa_private ≡ "")
        × (e.client.aes_keys ≡ old ∷ new ∷ [])
        × (e.client.rekeying ≡ some true)

    -- Both ends are encrypted under one key, the client asks for a new one, the ciphers succeed and
    -- decrypt what they encrypted, and the four messages are read as they were written: the server
    -- then uses the key that the client drew, and has burnt its RSA key, and the client has the old
    -- key and the new one, in its window for both.
    pub exchange_rekey-IsRekeyed :
        (fill old asking pub_text a x said : String) (g g' : ServerReceive.Given)
        (d : ClientHandlers.Drawn) (e : Ends)
        → (e.server.peer.encrypted_flag ≡ true)
          × (e.server.peer.key_data.aes ≡ old)
          × (e.server.peer.destroyed ≡ false)
        → (e.client.encrypted ≡ true) × (e.client.aes_keys ≡ old ∷ [])
        → IsSealed c old (aes_rekey fill) asking
        → IsSealed c old (rsa_public_key (c.public_of g.drawn)) pub_text
        → IsOpened c g.drawn d.session x
        → IsSealed c d.session (aes_key d.new_key) a
        → IsSealed c old (session_key (c.serialize (encrypted a)) x) said
        → All
            (IsDecoded c)
            (encrypted asking ∷ encrypted pub_text ∷ encrypted a ∷ encrypted said ∷ [])
        → IsRekeyed old d.new_key (exchange_rekey fill g d g' e)
    unfolding exchange_rekey
    exchange_rekey-IsRekeyed fill old asking pub_text a x said g g' d e (se, sk, there) ck ha hp
          (hx, ox) (hk, ok') hs (da, (dp, (dk, (ds, u)))) =
        let t1 = send_rekey fill e.client in
        let (e1, k1, n1) = asked fill old asking e.client ck ha in
        let s2 =
          Server.state_of
            (ServerReceive.process_message c b g (c.serialize (encrypted asking)) e.server) in
        let (e2, k2, r2, n2) =
          offered g fill old asking pub_text e.server (se, sk, there) ha hp da in
        let t3 =
          Client.state_of
            (ClientHandlers.process_message c b d (c.serialize (encrypted pub_text)) t1) in
        let (e3, k3, r3, n3) =
          drew d (c.public_of g.drawn) old pub_text a x said t1 (e1, k1) hp hx hk hs dp in
        let (e4, k4, r4) =
          changed g' old said a x d.session d.new_key s2 (e2, k2) hs
            (ap (λ z. c.rsa_decrypt z x) r2 ∙ ox) ok' ds dk in
        let p1 = record e { client = t1 } in
        let p2 = record p1 { server = s2 } in
        let p3 = record p2 { client = t3 } in
        subst (IsRekeyed old d.new_key)
          (sym (
            ap (λ y. to_server c b g' (to_client c b d y))
              (to_server-newest c b g p1 (encrypted asking) n1)
            ∙ ap (to_server c b g') (to_client-newest c b d p2 (encrypted pub_text) n2)
            ∙ to_server-newest c b g' p3 (encrypted said) n3))
          (e4, k4, r4, k3, r3)
