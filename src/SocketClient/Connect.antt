-- ===== src/SocketClient/Connect.antt =====
-- fluxrpc/transports/socket/client.py: `connect` and the forwarding handler as steps between their
-- waits, with the other events of a connection. A task that waits goes on when it is resumed while
-- its event is set; two tasks that wait for one event at once are not told apart from one after the
-- other.
use aiotinyrpc.Base.{
  ℕ, zero, suc, String, str_eq, Bool, true, false, not, ◌||◌, Option, none, some, List, [], ◌∷◌,
  if◌then◌else◌,
}
use aiotinyrpc.Python.Value.{null}
use aiotinyrpc.Auth.{Provider, Bitcoin}
use aiotinyrpc.Channels.{Channel, add_channel}
use aiotinyrpc.SocketClient.{
  Failure, auth_address_required, auth_denied, no_socket, auth_timeout, challenge_timeout,
  encryption_timeout, forwarding_timeout, Forwarder, waits_challenge, waits_authentication,
  Transport, Outcome, exits, state_of, send, disconnect, lose_connection,
}
use aiotinyrpc.SocketClient.Handlers.{Drawn, process_message, end_rekey}
use aiotinyrpc.Messages.{Crypto, proxy, Message}

-- What an attempt of `open_connection` comes to: a socket, or one of the exceptions that are caught.
pub data Attempt : Type 0 where
  opened fails : Attempt

-- `_connect`: three attempts at most. It leaves what there was of a socket when all fail.
unfoldable pub try_connect : ℕ → List Attempt → Transport → Transport
try_connect zero as' t = t
try_connect (suc n) [] t = t
try_connect (suc n) (opened ∷ as') t = record t { socket = true; closing = false }
try_connect (suc n) (fails ∷ as') t = try_connect n as' t

-- Where `connect` stands: it waits for its turn, for one of four events with the channel that it
-- has added, or it has returned.
pub data Phase : Type 0 where
  for_turn : Bool → Phase
  for_challenge for_authentication for_forwarding for_encryption : ℕ → Phase
  returned : Option ℕ → Phase

pub record Connection : Type 0 where
  pub transport : Transport
  pub phase : Phase
  pub exited : Bool

abbrev pub at : Phase → Transport → Connection
at ph t = record { transport = t; phase = ph; exited = false }

-- Every failure after the socket was opened: `disconnect` without a channel id.
unfoldable pub fail_with : Failure → Transport → Connection
unfolding disconnect
fail_with f t =
    at (returned none)
      (record (disconnect (record t { failed_on = some f }) none false) { connecting = false })

-- `if self.channels`
abbrev pub has_items : List (Channel Message) → Bool
has_items [] = false
has_items (c ∷ cs) = true

abbrev pub has_channels : Transport → Bool
has_channels t = has_items t.channels.channels

abbrev pub with_channel : (ℕ → Phase) → Bool → Transport → Connection
with_channel next exclusive t =
    let (i, channels) = add_channel t.channels exclusive in
    at (next i) (record t { channels = channels })

abbrev pub opened_socket : Bool → Transport → Connection
opened_socket exclusive t =
    if t.socket
    then with_channel for_challenge exclusive t
    else at (returned none) (record t { connecting = false; failed_on = some no_socket })

abbrev pub is_no_socket : Option Failure → Bool
is_no_socket (some no_socket) = true
is_no_socket f = false

abbrev pub take_turn : List Attempt → Bool → Transport → Connection
take_turn attempts exclusive t =
    if is_no_socket t.failed_on
    then at (returned none) t
    else if has_channels t
    then with_channel (λ i. returned (some i)) exclusive t
    else opened_socket exclusive (try_connect 3 attempts (record t { connecting = true }))

abbrev pub wait_turn : List Attempt → Bool → Transport → Connection
wait_turn attempts exclusive t =
    if t.connecting || t.disconnecting
    then at (for_turn exclusive) t
    else take_turn attempts exclusive t

-- `connect` up to its first wait
unfoldable pub connect : List Attempt → Bool → Transport → Connection
unfolding try_connect add_channel
connect attempts exclusive t = wait_turn attempts exclusive (record t { failed_on = none })

-- `send_forwarding_message`
abbrev pub forwarding_message : Transport → Message
forwarding_message t =
    proxy (not (str_eq t.proxy_target "")) t.proxy_target t.proxy_port t.proxy_ssl

-- `if self.failed_on`, after the forwarding
abbrev pub give_up : Transport → Connection
give_up t = at (returned none) (record (disconnect t none false) { connecting = false })

abbrev pub no_provider : Option Provider → Bool
no_provider none = true
no_provider (some p) = false

abbrev pub sent_forwarding : ℕ → Transport → Connection
sent_forwarding i t = at (for_forwarding i) (send (forwarding_message t) t)

abbrev pub past_challenge : ℕ → Transport → Connection
past_challenge i t =
    if t.auth_required
    then (if no_provider t.provider
        then fail_with auth_address_required t
        else at (for_authentication i) t)
    else sent_forwarding i t

abbrev pub past_authentication : ℕ → Transport → Connection
past_authentication i t = if t.authenticated then sent_forwarding i t else fail_with auth_denied t

abbrev pub is_failed : Option Failure → Bool
is_failed none = false
is_failed (some f) = true

abbrev pub past_forwarding : ℕ → Transport → Connection
past_forwarding i t = if is_failed t.failed_on then give_up t else at (for_encryption i) t

abbrev pub past_encryption : ℕ → Transport → Connection
past_encryption i t =
    at (returned (some i)) (record t { connected = true; connecting = false; rekey_manager = true })

-- `connect` after a wait, which lasts while its event is not set.
unfoldable pub resume : List Attempt → Phase → Transport → Connection
unfolding fail_with try_connect add_channel disconnect
resume attempts (for_turn exclusive) t = wait_turn attempts exclusive t
resume attempts (for_challenge i) t =
    if t.challenge_complete
    then past_challenge i (record t { challenge_complete = false })
    else at (for_challenge i) t
resume attempts (for_authentication i) t =
    if t.authentication_event
    then past_authentication i (record t { authentication_event = false })
    else at (for_authentication i) t
resume attempts (for_forwarding i) t =
    if t.forwarding_event
    then past_forwarding i (record t { forwarding_event = false })
    else at (for_forwarding i) t
resume attempts (for_encryption i) t =
    if t.encrypted_event
    then past_encryption i (record t { encrypted_event = false })
    else at (for_encryption i) t
resume attempts (returned o) t = at (returned o) t

-- The ten seconds of a wait are over.
unfoldable pub time_out : Phase → Transport → Connection
unfolding fail_with
time_out (for_turn exclusive) t = at (for_turn exclusive) t
time_out (for_challenge i) t = fail_with challenge_timeout t
time_out (for_authentication i) t = fail_with auth_timeout t
time_out (for_forwarding i) t = fail_with forwarding_timeout t
time_out (for_encryption i) t = fail_with encryption_timeout t
time_out (returned o) t = at (returned o) t

-- `forwarding_message_handler` after its waits; a task that gives up is gone.
abbrev forwarded : List Forwarder → Transport → Transport
forwarded fs t =
    send (proxy false "" null false) (record t { forwarders = fs; forwarding_event = true })

abbrev forward_challenged : List Forwarder → Transport → Transport
forward_challenged fs t =
    if t.proxy_auth_required
    then record t { forwarders = if no_provider t.provider then fs else waits_authentication ∷ fs }
    else forwarded fs t

abbrev pub forward_with : List Forwarder → Transport → Transport
forward_with [] t = t
forward_with (waits_challenge ∷ fs) t =
    if t.challenge_complete
    then forward_challenged fs (record t { challenge_complete = false })
    else t
forward_with (waits_authentication ∷ fs) t =
    if t.authentication_event
    then (let t' = record t { authentication_event = false } in
        if t.proxy_authenticated then forwarded fs t' else record t' { forwarders = fs })
    else t

unfoldable pub resume_forwarder : Transport → Transport
resume_forwarder t = forward_with t.forwarders t

pub data Event : Type 0 where
  receives : Drawn → String → Event
  resumes : List Attempt → Event
  times_out resumes_forwarder loses_connection ends_rekey : Event
  disconnects : Option ℕ → Bool → Event

abbrev exits_program : Outcome → Bool
exits_program (exits t) = true
exits_program o = false

abbrev pub processed : Phase → Outcome → Connection
processed ph o = record { transport = state_of o; phase = ph; exited = exits_program o }

module _ (c : Crypto) (b : Bitcoin) where
  -- One event. Without a socket nothing is read.
  abbrev pub step_running : Event → Connection → Connection
  step_running (receives d text) k =
      if k.transport.socket then processed k.phase (process_message c b d text k.transport) else k
  step_running (resumes attempts) k = resume attempts k.phase k.transport
  step_running times_out k = time_out k.phase k.transport
  step_running resumes_forwarder k = record k { transport = resume_forwarder k.transport }
  step_running loses_connection k = record k { transport = lose_connection k.transport }
  step_running ends_rekey k = record k { transport = end_rekey k.transport }
  step_running (disconnects i force) k = record k { transport = disconnect k.transport i force }

  unfoldable pub step : Event → Connection → Connection
  unfolding process_message resume time_out resume_forwarder lose_connection end_rekey disconnect
  step e k = if k.exited then k else step_running e k

  unfoldable pub run : List Event → Connection → Connection
  unfolding step
  run [] k = k
  run (e ∷ es) k = run es (step e k)
