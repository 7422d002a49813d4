-- ===== src/SocketServer.antt =====
-- fluxrpc/transports/socket/server.py and fluxrpc/transports/socket/messages.py: one peer of the
-- server, the messages that it sends, and what their handlers do. Writes to the socket are taken
-- to succeed, except that a peer that was destroyed has none. The ciphers of `Cryptodome` and the
-- decoder of messages are parameters; each event carries the random text that its handler draws.
pub mod Forwarding
pub mod Listening
pub mod Handlers
pub mod Peers
pub mod Receive
pub mod Trusted
pub mod Trust
pub mod Requests
pub mod Handshake
use aiotinyrpc.Base.{
  ℕ, String, str_eq, Bool, true, false, not, ◌&&◌, ◌||◌, Option, none, some, List, [], ◌∷◌, ◌++◌,
  if◌then◌else◌,
}
use aiotinyrpc.Base.Text.{reverse}
use aiotinyrpc.Python.Value.{Values}
use aiotinyrpc.Python.Exc.{Exc, Result, ok, err, raised, attribute_error}
use aiotinyrpc.Messages.{Message, Crypto}
use aiotinyrpc.Auth.{Bitcoin, Provider, Reply, Challenge, verify_auth, generate_challenge}

-- `KeyData`
pub record KeyData : Type 0 where
  pub aes : String
  pub rsa_private : String
  pub rsa_public : String

unfoldable pub burn_rsa_keys : KeyData → KeyData
burn_rsa_keys k = record k { rsa_private = ""; rsa_public = "" }

unfoldable pub generate : Crypto → String → KeyData → KeyData
generate c private k = record k { rsa_private = private; rsa_public = c.public_of private }

-- What the handlers do to files and to the terminal.
pub data Effect : Type 0 where
  opened closed : String → Effect
  written : String → String → Effect
  terminal_data : String → Effect
  terminal_size : ℕ → ℕ → Effect

-- `EncryptablePeer`; the flags `timer`, `pty`, `destroyed` say that there is a running timer or a
-- terminal, and that the peer is out of the group. `fh` holds the paths of the open files.
pub record Peer : Type 0 where
  pub key_data : KeyData
  pub encrypted_flag : Bool
  pub authenticated : Bool
  pub random : String
  pub proxied : Bool
  pub timer : Bool
  pub challenge_complete : Bool
  pub forwarding : Bool
  pub pty_attached : Bool
  pub destroyed : Bool
  pub fh : List String

-- The server as one of its peers sees it. `rpc_messages` is the queue of requests, without the
-- id of the peer, which is always the same, and `sockname` is the writer's own address.
pub record State : Type 0 where
  pub peer : Peer
  pub provider : Option Provider
  pub sockname : Values
  pub sent : List Message
  pub effects : List Effect
  pub rpc_messages : List (ℕ × String)

-- What becomes of a task: it goes on, it ends with an exception, or it ends the program.
pub data Outcome : Type 0 where
  done : State → Outcome
  raises : Exc → State → Outcome
  exits : State → Outcome

abbrev pub state_of : Outcome → State
state_of (done s) = s
state_of (raises e s) = s
state_of (exits s) = s

abbrev pub send : Message → State → State
send m s = record s { sent = s.sent ++ m ∷ [] }

abbrev pub set_peer : (Peer → Peer) → State → State
set_peer f s = record s { peer = f s.peer }

abbrev pub stop_timer : State → State
stop_timer s = set_peer (λ p. record p { timer = false }) s
