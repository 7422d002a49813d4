-- ===== src/Exchange/Greeting.antt =====
-- The challenge of fluxrpc/transports/socket/server.py, its answer by
-- fluxrpc/transports/socket/client.py, and the server's reply to that.
use aiotinyrpc.Base.{
  String, ◌≡◌, ◌≢◌, refl, sym, ap, subst, All, ◌∙◌, true, false, Option-cases, inl, inr, some, [],
  ◌∷◌, arith,
}
use aiotinyrpc.Python.Exc.{ok}
use aiotinyrpc.Python.Value.{Values, list, str, cons, nil, py_eq}
use aiotinyrpc.Messages.{challenge, challenge_reply, auth_reply, Crypto}
use aiotinyrpc.Auth.{
  Bitcoin, Provider, Challenge, Reply, generate_challenge, auth_message, verify_auth,
  verify_auth-auth_message,
}
use aiotinyrpc.SocketServer as Server
use aiotinyrpc.SocketServer.Receive as ServerReceive
use aiotinyrpc.SocketServer.Handlers as ServerHandlers
use aiotinyrpc.SocketClient as Client
use aiotinyrpc.SocketClient.Handlers as ClientHandlers
use aiotinyrpc.Exchange.{
  newest, newest-append, Ends, to_client, to_server, to_client-newest, to_server-newest, IsDecoded,
}

-- `send_challenge_message`, and the three messages that follow.
unfoldable pub greet :
    Crypto
    → Bitcoin
    → String
    → String
    → ClientHandlers.Drawn
    → ServerReceive.Given
    → ClientHandlers.Drawn
    → Ends
    → Ends
unfolding to_client to_server ServerReceive.send_challenge_message
greet c b id to_sign d g d' e = to_client c b d' (
    to_server c b g (
      to_client c b d (record e {
        server = Server.state_of (ServerReceive.send_challenge_message e.server id to_sign);
      })))

module _ (c : Crypto) (b : Bitcoin) where
  challenged :
      (s : Server.State) (p p' : Provider) (m : Challenge) (id to_sign : String)
      → s.provider ≡ some p
      → generate_challenge p (ServerReceive.blank true s.sockname) id to_sign ≡ ok (m, p')
      → let s' = Server.state_of (ServerReceive.send_challenge_message s id to_sign) in
        ((s'.peer.encrypted_flag ≡ s.peer.encrypted_flag)
          × (s'.provider ≡ some p')
          × (s'.sockname ≡ s.sockname)
          × (newest s'.sent ≡ some (challenge m)))
  unfolding ServerReceive.send_challenge_message
  challenged s p p' m id to_sign held made = ground (arith, newest-append s.sent (challenge m))

  answered :
      (d : ClientHandlers.Drawn) (t : Client.Transport) (q : Provider) (m : Challenge) (r : Reply)
      → t.encrypted ≡ false
      → t.provider ≡ some q
      → m.auth_required ≡ true
      → auth_message b q m.id m.to_sign ≡ ok r
      → IsDecoded c (challenge m)
      → let t' =
          Client.state_of (ClientHandlers.process_message c b d (c.serialize (challenge m)) t) in
        ((t'.encrypted ≡ false)
          × (t'.challenge_complete ≡ true)
          × (t'.proxy_target ≡ t.proxy_target)
          × (t'.proxy_port ≡ t.proxy_port)
          × (newest t'.sent ≡ some (challenge_reply r)))
  unfolding ClientHandlers.process_message ClientHandlers.handle ClientHandlers.handle_challenge
  answered d t q m r plain held asked signed dm =
      ground (arith, dm, newest-append t.sent (challenge_reply r))

  verified :
      (g : ServerReceive.Given) (s : Server.State) (p : Provider) (r : Reply)
      → s.peer.encrypted_flag ≡ false
      → s.provider ≡ some p
      → r.close_connection ≡ false
      → (verify_auth b p r).0 ≡ ok true
      → IsDecoded c (challenge_reply r)
      → let s' =
          Server.state_of
            (ServerReceive.process_message c b g (c.serialize (challenge_reply r)) s) in
        ((s'.peer.authenticated ≡ true)
          × (s'.peer.challenge_complete ≡ true)
          × (newest s'.sent ≡ some (auth_reply true s.sockname)))
  unfolding ServerReceive.process_message ServerReceive.handle ServerHandlers.handle_auth_message
      verify_auth
  verified g s p r plain held stays good dm =
      ground (arith, dm, newest-append s.sent (auth_reply true s.sockname))

  accepted :
      (d : ClientHandlers.Drawn) (t : Client.Transport) (source : Values)
      → t.encrypted ≡ false
      → ClientHandlers.is_proxied source t ≡ false
      → IsDecoded c (auth_reply true source)
      → let t' =
          Client.state_of
            (ClientHandlers.process_message c b d (c.serialize (auth_reply true source)) t) in
        ((t'.authenticated ≡ true)
          × (t'.authentication_event ≡ true)
          × (t'.challenge_complete ≡ t.challenge_complete))
  unfolding ClientHandlers.process_message ClientHandlers.handle ClientHandlers.handle_auth_reply
  accepted d t source plain own dm = ground (arith, dm)

-- The challenge that is made asks for a reply, and one that is signed does not close.
required_lem :
    (p p' : Provider) (m m' : Challenge) (id to_sign : String)
    → generate_challenge p m id to_sign ≡ ok (m', p')
    → m'.auth_required ≡ m.auth_required
unfolding generate_challenge
required_lem p p' m m' id to_sign h = elim (Option-cases p.address) [
  | inl e ↦ ground arith
  | inr (a, e) ↦ ground arith
]

stays_lem :
    (b : Bitcoin) (p : Provider) (id to_sign : String) (r : Reply)
    → auth_message b p id to_sign ≡ ok r
    → r.close_connection ≡ false
unfolding auth_message
stays_lem b p id to_sign r h = elim (Option-cases (b.read_secret p.key)) [
  | inl e ↦ ground arith
  | inr (sec, e) ↦ ground arith
]

same_is_proxied :
    (source : Values) (t t' : Client.Transport)
    → t'.proxy_target ≡ t.proxy_target
    → t'.proxy_port ≡ t.proxy_port
    → ClientHandlers.is_proxied source t' ≡ ClientHandlers.is_proxied source t
unfolding ClientHandlers.is_proxied
same_is_proxied source t t' e f =
    ap (λ x. py_eq (list source) (list (cons (str x) (cons t'.proxy_port nil)))) e
    ∙ ap (λ x. py_eq (list source) (list (cons (str t.proxy_target) (cons x nil)))) f

-- Both ends count the client as authenticated, and neither has to wait for that any more.
pub record IsGreeted (e : Ends) : Type 0 where
  pub server : e.server.peer.authenticated ≡ true
  pub server_waits : e.server.peer.challenge_complete ≡ true
  pub client : e.client.authenticated ≡ true
  pub client_waits : (e.client.challenge_complete ≡ true) × (e.client.authentication_event ≡ true)

-- A server with a provider challenges a client whose key is the one of the address, that is, signs
-- what the address verifies. When neither end is encrypted, the challenge is not from behind a proxy
-- and the three messages are read as they were written, both ends count the client as authenticated,
-- and no wait for that is left.
pub greet-IsGreeted :
    (c : Crypto) (b : Bitcoin) (p p' q : Provider) (m : Challenge) (r : Reply) (id to_sign : String)
    (d d' : ClientHandlers.Drawn) (g : ServerReceive.Given) (e : Ends)
    → ((sec : b.Secret) (t : String)
        → b.read_secret q.key ≡ some sec
        → b.verify p.address t (b.sign sec t) ≡ ok true)
    → (e.server.provider ≡ some p) × (e.server.peer.encrypted_flag ≡ false)
    → (e.client.provider ≡ some q) × (e.client.encrypted ≡ false)
    → ClientHandlers.is_proxied e.server.sockname e.client ≡ false
    → to_sign ≢ ""
    → generate_challenge p (ServerReceive.blank true e.server.sockname) id to_sign ≡ ok (m, p')
    → auth_message b q m.id m.to_sign ≡ ok r
    → All (IsDecoded c) (challenge m ∷ challenge_reply r ∷ auth_reply true e.server.sockname ∷ [])
    → IsGreeted (greet c b id to_sign d g d' e)
unfolding greet
greet-IsGreeted c b p p' q m r id to_sign d d' g e matches (held, s_plain) (has, t_plain) own n made
      signed (dm, (dr, (da, u))) =
    let s0 = Server.state_of (ServerReceive.send_challenge_message e.server id to_sign) in
    let (p0, v0, a0, n0) = challenged c b e.server p p' m id to_sign held made in
    let t1 =
      Client.state_of (ClientHandlers.process_message c b d (c.serialize (challenge m)) e.client) in
    let (p1, w1, x1, y1, n1) =
      answered c b d e.client q m r t_plain has
        (required_lem p p' (ServerReceive.blank true e.server.sockname) m id to_sign made) signed
        dm in
    let s2 =
      Server.state_of (ServerReceive.process_message c b g (c.serialize (challenge_reply r)) s0) in
    let (good, again) =
      verify_auth-auth_message b p p' q (ServerReceive.blank true e.server.sockname) m id to_sign r
        (record r { id = id }) matches made n signed refl in
    let (v2, w2, n2) =
      verified c b g s0 p' r (p0 ∙ s_plain) v0 (stays_lem b q m.id m.to_sign r signed) good dr in
    let (v3, w3, x3) =
      accepted c b d' t1 s0.sockname p1
        (same_is_proxied s0.sockname e.client t1 x1 y1
          ∙ ap (λ z. ClientHandlers.is_proxied z e.client) a0
          ∙ own)
        (ap (λ z. c.deserialize (c.serialize (auth_reply true z))) a0
          ∙ da
          ∙ ap (λ z. ok (auth_reply true z)) (sym a0)) in
    let e0 = record e { server = s0 } in
    let e1 = record e0 { client = t1 } in
    let e2 = record e1 { server = s2 } in
    subst IsGreeted
      (sym (
        ap (λ y. to_client c b d' (to_server c b g y)) (to_client-newest c b d e0 (challenge m) n0)
        ∙ ap (to_client c b d') (to_server-newest c b g e1 (challenge_reply r) n1)
        ∙ to_client-newest c b d' e2 (auth_reply true s0.sockname) n2))
      (record { server = v2; server_waits = w2; client = v3; client_waits = (x3 ∙ w1, w3) })
