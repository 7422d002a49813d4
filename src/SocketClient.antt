-- ===== src/SocketClient.antt =====
-- fluxrpc/transports/socket/client.py, `EncryptedSocketClientTransport`: the state of a client's
-- end of the socket, and the way back to a state without a socket. The children have its handlers,
-- and `connect` as steps between its waits. Writes to the socket are taken to succeed, the two
-- callbacks to be set, the closing of a socket to be one step, and the addresses of the two ends are
-- left out.
pub mod Handlers
pub mod Connect
pub mod Failures
pub mod Idle
pub mod Rekey
pub mod Secure
pub mod Runs
pub mod Reconnect
pub mod Session
pub mod Requirements
use aiotinyrpc.Base.{
  ℕ, zero, suc, String, Bool, true, false, Option, none, some, List, [], ◌∷◌, ◌++◌, if◌then◌else◌,
}
use aiotinyrpc.Python.Value.{Value, Values, list, nil}
use aiotinyrpc.Python.Exc.{Exc}
use aiotinyrpc.Auth.{Provider}
use aiotinyrpc.Messages.{Message}
use aiotinyrpc.Channels.{Channel, ChannelManager, remove_all_channels, remove_channel}

-- fluxrpc/transports/socket/symbols.py
pub data Failure : Type 0 where
  auth_address_required auth_denied proxy_auth_address_required proxy_auth_denied : Failure
  no_socket proxy_no_socket auth_timeout challenge_timeout encryption_timeout : Failure
  forwarding_timeout : Failure

-- The tasks that `forwarding_message_handler` starts stand at one of its waits.
pub data Forwarder : Type 0 where
  waits_challenge waits_authentication : Forwarder

-- The attributes. `failed_on` is `none` for "", `socket` says that there are a reader and a writer
-- and `closing` that the writer is closed. `rekeying` is `none` before it is first set, since
-- `__init__` does not set it. `rekey_timers` counts the calls of `set_rekey` to come, `forwarders`
-- are the tasks of the forwarding handler, `sent` and `callbacks` are what was sent and what the
-- callbacks were called with.
pub record Transport : Type 0 where
  pub provider : Option Provider
  pub proxy_target : String
  pub proxy_port : Value
  pub proxy_ssl : Bool
  pub channels : ChannelManager Message
  pub auth_required : Bool
  pub proxy_auth_required : Bool
  pub auth_address : String
  pub proxy_auth_address : String
  pub failed_on : Option Failure
  pub connected : Bool
  pub connecting : Bool
  pub disconnecting : Bool
  pub socket : Bool
  pub closing : Bool
  pub aes_keys : List String
  pub rekeying : Option Bool
  pub rekey_timers : ℕ
  pub rekey_manager : Bool
  pub encrypted : Bool
  pub authenticated : Bool
  pub proxy_authenticated : Bool
  pub challenge_complete : Bool
  pub authentication_event : Bool
  pub forwarding_event : Bool
  pub encrypted_event : Bool
  pub forwarders : List Forwarder
  pub proxy_source : Value
  pub sent : List Message
  pub callbacks : List Message

-- `__init__`
unfoldable pub new_transport : Option Provider → String → Value → Bool → Transport
new_transport provider target port secure = record {
  provider = provider;
  proxy_target = target;
  proxy_port = port;
  proxy_ssl = secure;
  channels = record { channels = []; channel_count = 0 };
  auth_required = true;
  proxy_auth_required = true;
  auth_address = "";
  proxy_auth_address = "";
  failed_on = none;
  connected = false;
  connecting = false;
  disconnecting = false;
  socket = false;
  closing = false;
  aes_keys = [];
  rekeying = none;
  rekey_timers = 0;
  rekey_manager = false;
  encrypted = false;
  authenticated = false;
  proxy_authenticated = false;
  challenge_complete = false;
  authentication_event = false;
  forwarding_event = false;
  encrypted_event = false;
  forwarders = [];
  proxy_source = list nil;
  sent = [];
  callbacks = [];
}

-- What becomes of a task: it goes on, it ends with an exception, or it ends the program.
pub data Outcome : Type 0 where
  done : Transport → Outcome
  raises : Exc → Transport → Outcome
  exits : Transport → Outcome

abbrev pub state_of : Outcome → Transport
state_of (done t) = t
state_of (raises e t) = t
state_of (exits t) = t

abbrev pub send : Message → Transport → Transport
send m t = record t { sent = t.sent ++ m ∷ [] }

-- `reset_state`, which cancels the task that reads the socket too
unfoldable pub reset_state : Transport → Transport
reset_state t = record t {
  connected = false;
  encrypted = false;
  authenticated = false;
  proxy_authenticated = false;
  auth_required = true;
  proxy_auth_required = true;
}

-- `_close_socket`
abbrev close_writer : Transport → Transport
close_writer t =
    if t.socket then (if t.closing then t else record t { rekey_manager = false }) else t

unfoldable pub close_socket : Transport → Transport
unfolding reset_state
close_socket t =
    reset_state (record (close_writer t) { socket = false; closing = false; disconnecting = false })

abbrev is_empty : ChannelManager Message → Bool
is_empty m = elim m.channels [ [] ↦ true | c ∷ cs ↦ false ]

-- `disconnect`
abbrev pub closed_if_empty : Transport → Transport
closed_if_empty t =
    if is_empty t.channels then close_socket (record t { disconnecting = true }) else t

unfoldable pub disconnect : Transport → Option ℕ → Bool → Transport
unfolding close_socket remove_all_channels remove_channel
disconnect t chan_id force = closed_if_empty (record t {
  channels = if force then remove_all_channels t.channels else remove_channel t.channels chan_id;
})

-- The end of the read loop: the channels and the socket stay.
unfoldable pub lose_connection : Transport → Transport
lose_connection t = record t { connected = false; encrypted = false }
