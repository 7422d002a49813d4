-- ===== src/SocketClient/Handlers.antt =====
-- fluxrpc/transports/socket/client.py: the handlers of the client's end of the socket, and
-- `process_messages`.
pub mod Keys
use aiotinyrpc.Base.{
  ℕ, suc, ◌-◌, String, str_eq, Bool, true, false, not, Option, none, some, List, [], ◌∷◌, ◌++◌,
  if◌then◌else◌,
}
use aiotinyrpc.Base.Text.{reverse}
use aiotinyrpc.Python.Value.{Value, Values, list, str, cons, nil, py_eq}
use aiotinyrpc.Python.Exc.{Exc, Result, ok, err, ◌>>=◌, raised, value_error}
use aiotinyrpc.Auth.{Bitcoin, Provider, Reply, Challenge, auth_message}
use aiotinyrpc.Messages.{
  Message, challenge_reply, challenge, auth_reply, rpc_reply, session_key, aes_key, rsa_public_key,
  encrypted, test, proxy_response, liveliness, pty, pty_closed, Crypto, decrypt_message, sealed,
  no_attribute,
}
use aiotinyrpc.Channels.{deliver}
use aiotinyrpc.SocketClient.{
  Failure, auth_address_required, auth_denied, proxy_auth_address_required, proxy_auth_denied,
  proxy_no_socket, waits_challenge, Transport, Outcome, done, raises, exits, send,
}
unfoldable pub use aiotinyrpc.SocketClient.Handlers.Keys.{
  end_rekey, decrypt, session_key_message, handle_public_key, handle_test,
}
pub use aiotinyrpc.SocketClient.Handlers.Keys.{
  append_key, first_key, last_key, drop_key, is_value_error, Decrypted, or_failed, wrong_key,
  with_new_key, decrypt_with, closes_writer, send_or_raise, with_session_key, rekeyed, or_empty,
  responded, question, tested, after_decrypt, message, failed, ends,
}

-- `msg.source == [self.proxy_target, self.proxy_port]`
unfoldable pub is_proxied : Values → Transport → Bool
unfolding py_eq
is_proxied source t = py_eq (list source) (list (cons (str t.proxy_target) (cons t.proxy_port nil)))

abbrev complete : Transport → Transport
complete t = record t { challenge_complete = true }

abbrev pub refusal : Bool → Reply
refusal close = record { id = ""; signature = ""; close_connection = close }

module _ (b : Bitcoin) where
  -- `authentication_message_handler`. A private key that cannot be read is not answered.
  abbrev answered : Transport → Result Reply → Transport
  answered t (err e) = complete t
  answered t (ok r) = complete (send (challenge_reply r) t)

  abbrev not_required : Bool → Transport → Transport
  not_required false t = record t { auth_required = false }
  not_required true t = record t { proxy_auth_required = false }

  abbrev without_provider : Bool → String → Transport → Transport
  without_provider false address t = record t {
    failed_on = some auth_address_required;
    auth_address = address;
  }
  without_provider true address t = record t {
    failed_on = some proxy_auth_address_required;
    proxy_auth_address = address;
  }

  abbrev challenged : Challenge → Transport → Option Provider → Transport
  challenged m t none =
      complete (
        send (challenge_reply (refusal true))
          (without_provider (is_proxied m.source t) m.address t))
  challenged m t (some p) = answered t (auth_message b p m.id m.to_sign)

  unfoldable pub handle_challenge : Challenge → Transport → Transport
  unfolding is_proxied auth_message
  handle_challenge m t =
      if m.auth_required
      then challenged m t t.provider
      else complete
          (send (challenge_reply (refusal false)) (not_required (is_proxied m.source t) t))

-- `Failure` of a reply that denies
abbrev denied : Bool → Failure → Option Failure → Option Failure
denied true f old = old
denied false f old = some f

abbrev replied : Bool → Bool → Transport → Transport
replied false v t = record t { authenticated = v; failed_on = denied v auth_denied t.failed_on }
replied true v t = record t {
  proxy_authenticated = v;
  failed_on = denied v proxy_auth_denied t.failed_on;
}

unfoldable pub handle_auth_reply : Bool → Values → Transport → Transport
unfolding is_proxied
handle_auth_reply v source t = record (replied (is_proxied source t) v t) {
  authentication_event = true;
}

-- `forwarding_message_handler` up to its first wait. The TLS handshake is taken to succeed.
abbrev has_proxy : Transport → Bool
has_proxy t = not (str_eq t.proxy_target "")

abbrev open_forwarding : Transport → Transport
open_forwarding t = record t { forwarding_event = true }

unfoldable pub handle_forwarding : Bool → Value → Transport → Transport
handle_forwarding success details t =
    if has_proxy t
    then (if success
        then record t { proxy_source = details; forwarders = t.forwarders ++ waits_challenge ∷ [] }
        else open_forwarding (record t { failed_on = some proxy_no_socket }))
    else open_forwarding t

-- The two keys that a handler draws.
pub record Drawn : Type 0 where
  pub new_key : String
  pub session : String

abbrev put_reply : Option ℕ → Message → Transport → Transport
put_reply none m t = t
put_reply (some i) m t = record t { channels = deliver t.channels i m }

module _ (c : Crypto) (b : Bitcoin) where
  -- The `match` of `process_messages`. A reply without a channel id finds no channel.
  unfoldable pub handle : Drawn → Message → Transport → Outcome
  unfolding handle_challenge handle_auth_reply handle_forwarding handle_public_key handle_test
      deliver
  handle d (pty text) t = done (record t { callbacks = t.callbacks ++ pty text ∷ [] })
  handle d (rpc_reply i payload) t = done (put_reply (some i) (rpc_reply i payload) t)
  handle d (liveliness i text) t = done (put_reply i (liveliness i text) t)
  handle d (challenge m) t = done (handle_challenge b m t)
  handle d (auth_reply v source) t = done (handle_auth_reply v source t)
  handle d (proxy_response success details) t = done (handle_forwarding success details t)
  handle d (rsa_public_key key_pem) t = handle_public_key c key_pem d.new_key d.session t
  handle d (encrypted text) t = handle_test c text t
  handle d (pty_closed reason) t =
      done (record t { callbacks = t.callbacks ++ pty_closed reason ∷ [] })
  handle d m t = done t

  abbrev pub readable : Drawn → Message → Transport → Outcome
  readable d m t =
      if t.encrypted then after_decrypt c (λ m'. handle d m' t) t (decrypt c m t) else handle d m t

  abbrev pub received : Drawn → Result Message → Transport → Outcome
  received d (err e) t = done t
  received d (ok m) t = readable d m t

  -- `process_messages` of one message
  unfoldable pub process_message : Drawn → String → Transport → Outcome
  unfolding handle decrypt
  process_message d text t = received d (c.deserialize text) t
