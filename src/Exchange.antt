-- ===== src/Exchange.antt =====
-- The two ends of a socket together: fluxrpc/transports/socket/client.py reads what
-- fluxrpc/transports/socket/server.py has sent, and the other way round.
pub mod Files
pub mod Calls
pub mod Terminal
pub mod Greeting
pub mod Rekey
pub mod Keys
use aiotinyrpc.Base.{String, Bool, Option, none, some, List, [], ◌∷◌, ◌++◌, ◌≡◌, refl, ap}
use aiotinyrpc.Python.Exc.{Result, ok}
use aiotinyrpc.Messages.{Message, Crypto}
use aiotinyrpc.Auth.{Bitcoin}
use aiotinyrpc.SocketServer as Server
use aiotinyrpc.SocketServer.Receive as ServerReceive
use aiotinyrpc.SocketClient as Client
use aiotinyrpc.SocketClient.Handlers as ClientHandlers

abbrev pub newest : List Message → Option Message
newest [] = none
newest (m ∷ []) = some m
newest (m ∷ n ∷ ms) = newest (n ∷ ms)

pub newest-append : (ms : List Message) (m : Message) → newest (ms ++ m ∷ []) ≡ some m
newest-append [] m = refl
newest-append (n ∷ []) m = refl
newest-append (n ∷ o ∷ ms) m = newest-append (o ∷ ms) m

-- A message that is read as it was written.
abbrev pub IsDecoded : Crypto → Message → Type 0
IsDecoded c m = c.deserialize (c.serialize m) ≡ ok m

-- The two ends, which exchange one message at a time.
pub record Ends : Type 0 where
  pub server : Server.State
  pub client : Client.Transport

module _ (c : Crypto) (b : Bitcoin) where
  abbrev read_by_client :
      ClientHandlers.Drawn → Option Message → Client.Transport → Client.Transport
  read_by_client d none t = t
  read_by_client d (some m) t =
      Client.state_of (ClientHandlers.process_message c b d (c.serialize m) t)

  abbrev read_by_server : ServerReceive.Given → Option Message → Server.State → Server.State
  read_by_server g none s = s
  read_by_server g (some m) s =
      Server.state_of (ServerReceive.process_message c b g (c.serialize m) s)

  -- The newest message of one end arrives at the other.
  unfoldable pub to_client : ClientHandlers.Drawn → Ends → Ends
  unfolding ClientHandlers.process_message
  to_client d e = record e { client = read_by_client d (newest e.server.sent) e.client }

  unfoldable pub to_server : ServerReceive.Given → Ends → Ends
  unfolding ServerReceive.process_message
  to_server g e = record e { server = read_by_server g (newest e.client.sent) e.server }

  pub to_client-newest :
      (d : ClientHandlers.Drawn) (e : Ends) (m : Message)
      → newest e.server.sent ≡ some m
      → to_client d e ≡ record e {
        client = Client.state_of (ClientHandlers.process_message c b d (c.serialize m) e.client);
      }
  unfolding to_client
  to_client-newest d e m h = ap (λ o. record e { client = read_by_client d o e.client }) h

  pub to_server-newest :
      (g : ServerReceive.Given) (e : Ends) (m : Message)
      → newest e.client.sent ≡ some m
      → to_server g e ≡ record e {
        server = Server.state_of (ServerReceive.process_message c b g (c.serialize m) e.server);
      }
  unfolding to_server
  to_server-newest g e m h = ap (λ o. record e { server = read_by_server g o e.server }) h
