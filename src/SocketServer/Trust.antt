-- ===== src/SocketServer/Trust.antt =====
-- Authentication over the steps of a connection, in fluxrpc/transports/socket/server.py.
use aiotinyrpc.Base.{String, ◌≡◌, Bool, true, false, ◌||◌, Option, some, ◌⊎◌}
use aiotinyrpc.Base.Dict.{lookup}
use aiotinyrpc.Messages.{Crypto}
use aiotinyrpc.Auth.{Bitcoin, Provider}
use aiotinyrpc.SocketServer.Receive.{
  Connection, Phase, waits_challenge, waits_forwarding, bootstrapped, ended, Event, receives,
  times_out, resumes,
}
use aiotinyrpc.SocketServer.Trusted.{Verified, IsTrusted}

abbrev is_past : Phase → Bool
is_past waits_challenge = false
is_past waits_forwarding = true
is_past bootstrapped = true
is_past ended = false

-- The peer is past the challenge, or counts as authenticated.
unfoldable pub passes : Connection → Bool
passes k = is_past k.phase || k.state.peer.authenticated

-- The texts that come over the socket.
abbrev pub Arrives : (String → Type 0) → Event → Type 0
Arrives R (receives g text) = R text
Arrives R times_out = Unit
Arrives R (resumes g) = Unit

-- The challenge of this connection, or one that the provider held before.
abbrev pub Issued : Provider → String → String → String → String → Type 0
Issued p id to_sign i t = ((i ≡ id) × (t ≡ to_sign)) ⊎ (lookup i p.challenges ≡ some t)

module _ (c : Crypto) (b : Bitcoin) (R : String → Type 0) (D : String → String → Type 0)
    (a : Option String) where
  pub record IsGuarded (k : Connection) : Type 0 where
    pub state : IsTrusted c b R D a k.state
    pub past : is_past k.phase ≡ true → Verified c b R D a k.state

module _ (c : Crypto) (b : Bitcoin) (R : String → Type 0) (p : Provider) (id to_sign : String) where
  abbrev IsOwn : String → String → Type 0
  IsOwn = Issued p id to_sign
