-- ===== src/SocketServer/Handshake.antt =====
-- The exchange of keys in fluxrpc/transports/socket/server.py, `handle_encryption_message`.
use aiotinyrpc.Base.{
  String, str_eq_iff, str_eq_refl, ◌≡◌, refl, true, false, if_cases, some, List, [], ◌∷◌, ◌++◌,
  arith, ap, ◌∙◌,
}
use aiotinyrpc.Base.Text.{reverse}
use aiotinyrpc.Python.Exc.{Exc, Result, ok, err}
use aiotinyrpc.Messages.{Message, session_key, encrypted, test, liveliness, Crypto}
use aiotinyrpc.Auth.{Bitcoin}
use aiotinyrpc.SocketServer.{State, done, state_of, stop_timer, burn_rsa_keys}
use aiotinyrpc.SocketServer.Handlers.{
  begin_encryption, handle_encryption_message, handle_liveliness_message, handle_auth_message,
  with_response, with_key, parse_session_key_message, handle_forwarding_message,
}
use aiotinyrpc.SocketServer.Receive.{
  Given, handle, process_message, handle_pty_message, handle_file_stream_message, Connection, Event,
  receives, step, run,
}

-- A session key that can be read, and then the client's answer to the test message, make an
-- unencrypted peer an encrypted one: it holds the key, its RSA keys are gone, and the test message
-- was sent under the key.
pub handle-session_key :
    (c : Crypto) (b : Bitcoin) (g g' : Given) (s : State)
    (aes_message enc_key key text question : String)
    → s.peer.encrypted_flag ≡ false
    → parse_session_key_message c s.peer.key_data.rsa_private aes_message enc_key ≡ some (ok key)
    → c.encrypt key (test g.drawn "TestEncryptionMessage") ≡ ok question
    → c.decrypt key text ≡ ok (test (reverse g.drawn) "TestEncryptionMessageResponse")
    → (s' : State) × (s'' : State) × (handle c b g (session_key aes_message enc_key) s ≡ done s')
      × (handle c b g' (encrypted text) s' ≡ done s'')
      × (s'.sent ≡ s.sent ++ encrypted question ∷ [])
      × (s''.peer.encrypted_flag ≡ true)
      × (s''.peer.key_data ≡ record { aes = key; rsa_private = ""; rsa_public = "" })
unfolding handle handle_encryption_message burn_rsa_keys
handle-session_key c b g g' s aes_message enc_key key text question he hk hq hd =
    let s' = state_of (with_key c g.drawn (stop_timer s) (some (ok key))) in
    let s'' = state_of (handle c b g' (encrypted text) s') in
    (
      s',
      s'',
      ground arith,
      ground (arith, str_eq_refl (reverse g.drawn)),
      ground arith,
      ground (arith, str_eq_refl (reverse g.drawn)),
      ground (arith, str_eq_refl (reverse g.drawn)),
    )

response_lem :
    (c : Crypto) (s : State) (r : Result Message)
    → s.peer.encrypted_flag ≡ false
    → (state_of (with_response c s r)).peer.encrypted_flag ≡ true
    → r ≡ ok (test (reverse s.peer.random) "TestEncryptionMessageResponse")
response_lem c s (err e) he h = ground arith
response_lem c s (ok (test fill text)) he h = ground (
  arith,
  str_eq_iff text "TestEncryptionMessageResponse",
  str_eq_iff fill (reverse s.peer.random),
)
response_lem c s (ok (liveliness i text)) he h = ground arith
response_lem c s (ok m) he h = ground arith

-- A handler makes a peer encrypted only on an encrypted message that holds, under the peer's key,
-- the answer to the test message that it was sent.
pub handle-encrypted :
    (c : Crypto) (b : Bitcoin) (g : Given) (m : Message) (s : State)
    → s.peer.encrypted_flag ≡ false
    → (state_of (handle c b g m s)).peer.encrypted_flag ≡ true
    → (text : String) × (m ≡ encrypted text)
      × (c.decrypt s.peer.key_data.aes text
          ≡ ok (test (reverse s.peer.random) "TestEncryptionMessageResponse"))
unfolding handle begin_encryption handle_pty_message handle_file_stream_message
    handle_liveliness_message handle_forwarding_message handle_encryption_message
    handle_auth_message
handle-encrypted c b g (encrypted text) s he h = (text, refl, response_lem c (stop_timer s) _ he h)
handle-encrypted c b g m s he h = ground arith

run_after :
    (c : Crypto) (b : Bitcoin) (k : Connection) (es : List Event)
    → k.exited ≡ true
    → run c b es k ≡ k
unfolding run step
run_after c b k [] x = refl
run_after c b k (e ∷ es) x =
    ap (run c b es) (if_cases (λ q. q ≡ k) k.exited (λ y. refl) (λ y. cc (x, y)))
    ∙ run_after c b k es x

-- A session key that the peer's RSA key does not decrypt ends the program, in every phase of an
-- unencrypted connection that is not proxied, and nothing happens after it.
pub run-exited :
    (c : Crypto) (b : Bitcoin) (g : Given) (k : Connection) (text aes_message enc_key : String)
    (e : Exc) (es : List Event)
    → k.exited ≡ false
    → k.state.peer.destroyed ≡ false
    → k.state.peer.proxied ≡ false
    → k.state.peer.encrypted_flag ≡ false
    → c.deserialize text ≡ ok (session_key aes_message enc_key)
    → c.rsa_decrypt k.state.peer.key_data.rsa_private enc_key ≡ err e
    → ((step c b (receives g text) k).exited ≡ true)
      × (run c b es (step c b (receives g text) k) ≡ step c b (receives g text) k)
unfolding step process_message handle handle_encryption_message parse_session_key_message
run-exited c b g k text aes_message enc_key e es hx hd hp he ht hr =
    let x : (step c b (receives g text) k).exited ≡ true = ground arith in
    (x, run_after c b (step c b (receives g text) k) es x)
