-- ===== src/SocketServer/Receive.antt =====
-- fluxrpc/transports/socket/server.py: what a message from the socket leads to, in
-- `process_messages`, and the steps of `handle_client` between its waits.
use aiotinyrpc.Base.{
  ℕ, String, str_eq, Bool, true, false, not, ◌&&◌, ◌||◌, Option, none, some, List, [], ◌∷◌, ◌++◌,
  if◌then◌else◌,
}
use aiotinyrpc.Python.Value.{Value, Values}
use aiotinyrpc.Python.Exc.{Result, ok, err}
use aiotinyrpc.Messages.{
  Message, challenge_reply, challenge, rpc_request, pty, pty_resize, session_key, encrypted, proxy,
  file_entry, liveliness, aes_rekey, Crypto, decrypt_message,
}
use aiotinyrpc.Auth.{Bitcoin, Provider, Challenge, generate_challenge}
use aiotinyrpc.SocketServer.{
  Effect, opened, closed, written, terminal_data, terminal_size, Peer, State, Outcome, done, raises,
  exits, state_of, send, set_peer, stop_timer,
}
use aiotinyrpc.SocketServer.Handlers.{
  begin_encryption, handle_encryption_message, handle_liveliness_message, handle_auth_message,
  handle_forwarding_message,
}

abbrev act : List Effect → State → State
act es s = record s { effects = s.effects ++ es }

-- `handle_pty_message`
unfoldable pub handle_pty_message : Effect → State → State
handle_pty_message e s = if s.peer.pty_attached then act (e ∷ []) s else s

-- `path in self.fh` and `del self.fh[path]`
unfoldable is_open : String → List String → Bool
is_open path [] = false
is_open path (p ∷ ps) = str_eq p path || is_open path ps

unfoldable close_file : String → List String → List String
close_file path [] = []
close_file path (p ∷ ps) = let rest = close_file path ps in if str_eq p path then rest else p ∷ rest

-- `handle_file_stream_message`
abbrev write_file : String → String → Bool → State → State
write_file text path eof s =
    if eof
    then act (written path text ∷ closed path ∷ [])
        (set_peer (λ p. record p { fh = close_file path p.fh }) s)
    else act (written path text ∷ []) s

unfoldable pub handle_file_stream_message : String → String → Bool → State → State
unfolding is_open close_file
handle_file_stream_message text path eof s = write_file text path eof (
    if is_open path s.peer.fh
    then s
    else act (opened path ∷ []) (set_peer (λ p. record p { fh = path ∷ p.fh }) s))

-- A random text for a handler, and what `setup_forwarding` would come to.
pub record Given : Type 0 where
  pub drawn : String
  pub forwarded : Option Values

module _ (c : Crypto) (b : Bitcoin) where
  -- An encrypted peer's message is decrypted; where that raises, the message is kept as it is.
  abbrev pub decrypted : Message → Result Message → Message
  decrypted m (ok m') = m'
  decrypted m (err e) = m

  abbrev pub readable : State → Message → Message
  readable s m =
      if s.peer.encrypted_flag then decrypted m (decrypt_message c s.peer.key_data.aes m) else m

  -- The log line before the queue decodes the payload, and raises where that is no document.
  abbrev pub queued : ℕ → String → State → Result Value → Outcome
  queued i payload s (err e) = raises e s
  queued i payload s (ok v) = done (record s { rpc_messages = s.rpc_messages ++ (i, payload) ∷ [] })

  -- The `match` of `process_messages`.
  unfoldable pub handle : Given → Message → State → Outcome
  unfolding begin_encryption handle_pty_message handle_file_stream_message handle_liveliness_message
      handle_auth_message handle_encryption_message handle_forwarding_message
  handle g (aes_rekey fill) s = begin_encryption c g.drawn true s
  handle g (pty text) s = done (handle_pty_message (terminal_data text) s)
  handle g (pty_resize rows cols) s = done (handle_pty_message (terminal_size rows cols) s)
  handle g (file_entry text path eof) s = done (handle_file_stream_message text path eof s)
  handle g (liveliness chan_id text) s = handle_liveliness_message c chan_id text s
  handle g (challenge_reply r) s = handle_auth_message b r s
  handle g (session_key m k) s = handle_encryption_message c g.drawn (session_key m k) s
  handle g (encrypted text) s = handle_encryption_message c g.drawn (encrypted text) s
  handle g (proxy required host port secure) s = handle_forwarding_message required g.forwarded s
  handle g (rpc_request chan_id payload) s = queued chan_id payload s (c.bson_decode payload)
  handle g m s = done s

  -- One task of `process_messages`, for the bytes of one message.
  abbrev pub received : Given → Result Message → State → Outcome
  received g (err e) s = done s
  received g (ok m) s = handle g (readable s m) s

  unfoldable pub process_message : Given → String → State → Outcome
  unfolding handle
  process_message g text s = received g (c.deserialize text) s

-- `send_challenge_message`. A provider without an address raises.
abbrev pub with_challenge : State → Result (Challenge × Provider) → Outcome
with_challenge s (err e) = raises e s
with_challenge s (ok (m, p)) = done (
    set_peer (λ q. record q { timer = true }) (send (challenge m) (record s { provider = some p })))

abbrev pub blank : Bool → Values → Challenge
blank required source = record {
  id = "";
  to_sign = "";
  address = "";
  auth_required = required;
  source = source;
}

abbrev challenged : State → String → String → Option Provider → Outcome
challenged s id to_sign none =
    done (set_peer (λ q. record q { timer = true }) (send (challenge (blank false s.sockname)) s))
challenged s id to_sign (some p) =
    with_challenge s (generate_challenge p (blank true s.sockname) id to_sign)

unfoldable pub send_challenge_message : State → String → String → Outcome
unfolding generate_challenge
send_challenge_message s id to_sign = challenged s id to_sign s.provider

-- Where `handle_client` stands: it waits for the answer to the challenge, then for the forwarding
-- message, or it is over.
pub data Phase : Type 0 where
  waits_challenge waits_forwarding bootstrapped ended : Phase

-- A connection, and whether one of its tasks has ended the program.
pub record Connection : Type 0 where
  pub state : State
  pub phase : Phase
  pub exited : Bool

pub data Event : Type 0 where
  receives : Given → String → Event
  times_out : Event
  resumes : Given → Event

abbrev new_peer : Peer
new_peer = record {
  key_data = record { aes = ""; rsa_private = ""; rsa_public = "" };
  encrypted_flag = false;
  authenticated = false;
  random = "";
  proxied = false;
  timer = false;
  challenge_complete = false;
  forwarding = false;
  pty_attached = false;
  destroyed = false;
  fh = [];
}

abbrev pub new_state : Option Provider → Values → State
new_state provider sockname = record {
  peer = new_peer;
  provider = provider;
  sockname = sockname;
  sent = [];
  effects = [];
  rpc_messages = [];
}

abbrev exits_program : Outcome → Bool
exits_program (exits s) = true
exits_program o = false

abbrev entered : Phase → Outcome → Connection
entered ph o = record { state = state_of o; phase = ph; exited = exits_program o }

abbrev pub begun : Outcome → Connection
begun (raises e s) = entered ended (raises e s)
begun o = entered waits_challenge o

abbrev destroy : State → State
destroy s = set_peer (λ p. record p { destroyed = true }) s

-- `handle_client` up to its first wait. `allowed` says that the source address needs no
-- verification or is a valid one.
unfoldable pub connect : Option Provider → Values → Bool → String → String → Connection
unfolding send_challenge_message
connect provider sockname allowed id to_sign =
    if allowed
    then begun (send_challenge_message (new_state provider sockname) id to_sign)
    else entered ended (done (destroy (new_state provider sockname)))

abbrev pub is_some : Option Provider → Bool
is_some none = false
is_some (some p) = true

abbrev pub past_challenge : State → Connection
past_challenge s =
    if not s.peer.authenticated && is_some s.provider
    then entered ended (done (destroy s))
    else entered waits_forwarding (done s)

module _ (c : Crypto) (b : Bitcoin) where
  -- `handle_client` after a wait, which lasts while its event is not set.
  abbrev past_forwarding : Given → State → Connection
  past_forwarding g s =
      if not s.peer.destroyed && not s.peer.proxied
      then entered bootstrapped (begin_encryption c g.drawn false s)
      else entered bootstrapped (done s)

  abbrev pub resume : Given → Phase → State → Connection
  resume g waits_challenge s =
      if s.peer.challenge_complete
      then past_challenge (set_peer (λ p. record p { challenge_complete = false }) s)
      else entered waits_challenge (done s)
  resume g waits_forwarding s =
      if s.peer.forwarding
      then past_forwarding g (set_peer (λ p. record p { forwarding = false }) s)
      else entered waits_forwarding (done s)
  resume g ph s = entered ph (done s)

  -- One event of a connection. A peer that was destroyed or proxied has no read loop any more.
  abbrev pub step_running : Event → Connection → Connection
  step_running (receives g text) k =
      if k.state.peer.destroyed || k.state.peer.proxied
      then k
      else entered k.phase (process_message c b g text k.state)
  step_running times_out k =
      if k.state.peer.timer then record k { state = destroy (stop_timer k.state) } else k
  step_running (resumes g) k = resume g k.phase k.state

  unfoldable pub step : Event → Connection → Connection
  unfolding process_message begin_encryption
  step e k = if k.exited then k else step_running e k

  unfoldable pub run : List Event → Connection → Connection
  unfolding step
  run [] k = k
  run (e ∷ es) k = run es (step e k)
