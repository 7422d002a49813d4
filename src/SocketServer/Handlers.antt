-- ===== src/SocketServer/Handlers.antt =====
-- fluxrpc/transports/socket/server.py: the handlers of messages about keys, authentication and
-- forwarding.
use aiotinyrpc.Base.{ℕ, String, str_eq, Bool, true, false, ◌&&◌, Option, none, some, if◌then◌else◌}
use aiotinyrpc.Python.Value.{Values, null, list, nil}
use aiotinyrpc.Base.Text.{reverse}
use aiotinyrpc.Python.Exc.{Result, ok, err}
use aiotinyrpc.Messages.{
  Message, Crypto, no_attribute, auth_reply, session_key, aes_key, rsa_public_key, encrypted, test,
  proxy_response, liveliness, decrypt_message, sealed,
}
use aiotinyrpc.Auth.{Bitcoin, Provider, Reply, verify_auth}
use aiotinyrpc.SocketServer.{
  burn_rsa_keys, generate, State, Outcome, send, set_peer, stop_timer, done, raises, exits,
}

module _ (c : Crypto) where
  -- `parse_session_key_message`. All but the last access stands in a `try` that ends the program.
  abbrev SessionKey : Type 0
  SessionKey = Option (Result String)

  abbrev key_of : Message → Result String
  key_of (aes_key k) = ok k
  key_of m = err no_attribute

  abbrev opened_key : Result Message → SessionKey
  opened_key (err e) = none
  opened_key (ok m) = some (key_of m)

  abbrev unpacked_key : Result String → Result Message → SessionKey
  unpacked_key (err e) m = none
  unpacked_key (ok key) (err e) = none
  unpacked_key (ok key) (ok m) = opened_key (decrypt_message c key m)

  unfoldable pub parse_session_key_message : String → String → String → SessionKey
  parse_session_key_message private aes_message enc_key =
      unpacked_key (c.rsa_decrypt private enc_key) (c.deserialize aes_message)

  -- `begin_encryption`. Its handler of exceptions ends the program.
  abbrev sent_key : State → Result Message → Outcome
  sent_key s (err e) = exits s
  sent_key s (ok m) =
      if s.peer.destroyed
      then exits s
      else done (set_peer (λ p. record p { timer = true }) (send m s))

  unfoldable pub begin_encryption : String → Bool → State → Outcome
  unfolding generate
  begin_encryption private rekey s =
      let keys = generate c private s.peer.key_data in
      let m = rsa_public_key keys.rsa_public in
      sent_key (set_peer (λ p. record p { key_data = keys }) s)
        (if rekey then sealed (c.encrypt keys.aes m) else ok m)

  -- What is sent encrypted, or the exception of the cipher.
  abbrev send_sealed : State → Result String → Outcome
  send_sealed s (err e) = raises e s
  send_sealed s (ok text) = done (send (encrypted text) s)

  -- `handle_encryption_message`
  abbrev test_message : String → State → Outcome
  test_message fill s =
      if s.peer.encrypted_flag
      then done s
      else send_sealed (set_peer (λ p. record p { random = fill }) s)
          (c.encrypt s.peer.key_data.aes (test fill "TestEncryptionMessage"))

  abbrev pub with_key : String → State → SessionKey → Outcome
  with_key fill s none = exits s
  with_key fill s (some (err e)) = raises e s
  with_key fill s (some (ok key)) =
      test_message fill
        (set_peer (λ p. record p { key_data = burn_rsa_keys (record p.key_data { aes = key }) }) s)

  abbrev response_text : String
  response_text = "TestEncryptionMessageResponse"

  -- Of the messages that have a text, one has a fill too.
  abbrev pub with_response : State → Result Message → Outcome
  with_response s (err e) = raises e s
  with_response s (ok (test fill text)) =
      if str_eq text response_text && str_eq fill (reverse s.peer.random)
      then done (set_peer (λ p. record p { encrypted_flag = true }) s)
      else done s
  with_response s (ok (liveliness chan_id text)) =
      if str_eq text response_text then raises no_attribute s else done s
  with_response s (ok m) = raises no_attribute s

  unfoldable pub handle_encryption_message : String → Message → State → Outcome
  unfolding parse_session_key_message burn_rsa_keys
  handle_encryption_message fill (session_key aes_message enc_key) s =
      with_key fill (stop_timer s)
        (parse_session_key_message s.peer.key_data.rsa_private aes_message enc_key)
  handle_encryption_message fill (encrypted text) s =
      with_response (stop_timer s) (c.decrypt s.peer.key_data.aes text)
  handle_encryption_message fill m s = done (stop_timer s)

  -- `handle_liveliness_message`
  unfoldable pub handle_liveliness_message : Option ℕ → String → State → Outcome
  handle_liveliness_message chan_id text s =
      send_sealed s (c.encrypt s.peer.key_data.aes (liveliness chan_id (reverse text)))

-- `handle_auth_message`. The timer is that of the challenge.
module _ (b : Bitcoin) where
  abbrev complete : State → State
  complete s = set_peer (λ p. record p { challenge_complete = true }) s

  abbrev pub with_auth : State → Result Bool × Provider → Outcome
  with_auth s (err e, p) = raises e (record s { provider = some p })
  with_auth s (ok v, p) = done (
      complete (
        send (auth_reply v s.sockname)
          (set_peer (λ q. record q { authenticated = v }) (record s { provider = some p }))))

  abbrev against : Reply → State → Option Provider → Outcome
  against r s none = done (complete s)
  against r s (some p) = with_auth s (verify_auth b p r)

  unfoldable pub handle_auth_message : Reply → State → Outcome
  unfolding verify_auth
  handle_auth_message r s =
      let s' = stop_timer s in
      if r.close_connection then done (complete s') else against r s' s'.provider

-- `handle_forwarding_message`, with the address that `setup_forwarding` connected from, if it did
abbrev forwarded : State → Option Values → Outcome
forwarded s (some address) = done (
    set_peer (λ p. record p { proxied = true; forwarding = true })
      (send (proxy_response true (list address)) s))
forwarded s none = done (
    set_peer (λ p. record p { destroyed = true; forwarding = true })
      (send (proxy_response false null) s))

unfoldable pub handle_forwarding_message : Bool → Option Values → State → Outcome
handle_forwarding_message required address s =
    if required
    then forwarded s address
    else done
        (set_peer (λ p. record p { forwarding = true }) (send (proxy_response false (list nil)) s))
