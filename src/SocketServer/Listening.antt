-- ===== src/SocketServer/Listening.antt =====
-- fluxrpc/transports/socket/server.py: `start_server`, `stop_server`, `valid_source_ip`,
-- `receive_message`, and the timer of a peer. What each attempt to bind the address comes to is given.
use aiotinyrpc.Base.{
  ℕ, zero, suc, String, str_eq, ◌≡◌, refl, Bool, false, ◌||◌, Option, none, some, List, [], ◌∷◌,
  ◌++◌, arith,
}
use aiotinyrpc.Python.Value.{nil}
use aiotinyrpc.Python.Exc.{Exc, Result, ok, err, raised, attribute_error}
use aiotinyrpc.SocketServer.{State}
use aiotinyrpc.SocketServer.Peers.{
  PeerGroup, PeerId, get_peer, destroy_peer, destroy_all_peers, destroy_all_peers-empties,
}

-- `asyncio.start_server`: it serves, it raises an `OSError`, or it raises anything else.
pub data Bind : Type 0 where
  serves : Bind
  os_error : Bind
  fails : Exc → Bind

-- `start_server` after the attempts: it serves, it has waited five seconds and tries again, or it
-- has raised. The number is that of the waits.
pub data Start : Type 0 where
  started : ℕ → Start
  retries : ℕ → Start
  raises : Exc → Start

abbrev once_more : Start → Start
once_more (started n) = started (suc n)
once_more (retries n) = retries (suc n)
once_more (raises e) = raises e

unfoldable pub start_server : List Bind → Start
start_server [] = retries 0
start_server (serves ∷ bs) = started 0
start_server (fails e ∷ bs) = raises e
start_server (os_error ∷ bs) = once_more (start_server bs)

-- `n` attempts that raise an `OSError`.
abbrev pub os_errors : ℕ → List Bind
os_errors zero = []
os_errors (suc n) = os_error ∷ os_errors n

-- However often the address is taken, the server serves at the first attempt that finds it free,
-- after one wait for each failed one.
pub start_server-os_errors :
    (n : ℕ) (bs : List Bind) → start_server (os_errors n ++ (serves ∷ bs)) ≡ started n
unfolding start_server
start_server-os_errors zero bs = refl
start_server-os_errors (suc n) bs = ground (arith, start_server-os_errors n bs)

-- A server with its peers, and whether its socket is open.
pub record Listening : Type 0 where
  pub group : PeerGroup
  pub serving : Bool
  pub timers : List PeerId

-- `stop_server`
unfoldable pub stop_server : Listening → Listening
unfolding destroy_all_peers
stop_server l = record l { group = destroy_all_peers l.group; serving = false }

pub stop_server-empties :
    (l : Listening) → ((stop_server l).group.peers ≡ []) × ((stop_server l).serving ≡ false)
unfolding stop_server
stop_server-empties l = (destroy_all_peers-empties l.group, refl)

-- `start_peer_timeout`
unfoldable pub start_peer_timeout : PeerId → Listening → Result Listening
unfolding get_peer raised
start_peer_timeout i l = elim (get_peer l.group i) [
  | none ↦ err (raised attribute_error nil)
  | some p ↦ ok (record l { timers = l.timers ++ (p ∷ []) })
]

-- `destroy_peer_timer` when its time is over
unfoldable pub destroy_peer_timer : PeerId → Listening → Listening
unfolding destroy_peer
destroy_peer_timer i l = record l { group = destroy_peer l.group i }

-- `valid_source_ip`
unfoldable pub valid_source_ip : List String → String → Bool
valid_source_ip [] ip = false
valid_source_ip (a ∷ as') ip = str_eq a ip || valid_source_ip as' ip

-- `receive_message`, which waits while the queue is empty
unfoldable pub receive_message : State → Option ((ℕ × String) × State)
receive_message s = elim s.rpc_messages [
  | [] ↦ none
  | (m ∷ ms) ↦ some (m, record s { rpc_messages = ms })
]
