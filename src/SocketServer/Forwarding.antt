-- ===== src/SocketServer/Forwarding.antt =====
-- fluxrpc/transports/socket/server.py: the forwarding of a connection and of a terminal:
-- `setup_forwarding`, `pipe`, `proxy_pty`, `attach_pty` and `detach_pty`. What a connection attempt,
-- a read and a look at the terminal come to is given, one after the other.
use aiotinyrpc.Base.{
  ℕ, zero, suc, ◌≡◌, refl, ap, String, Bool, true, false, Option, none, some, List, [], ◌∷◌, ◌++◌,
}
use aiotinyrpc.Python.Value.{Values, nil}
use aiotinyrpc.Python.Exc.{Exc, Result, ok, err, raised, attribute_error}
use aiotinyrpc.Transports.Abstract.{Bytes}
use mathlib.Core.List.{append_assoc}

-- An attempt of `setup_forwarding`: the address it connects from, or `none` for any exception.
abbrev pub Attempt : Type 0
Attempt = Option Values

-- The loop over the attempts that are left; a list that is too short is one more failure each.
unfoldable try_forwarding : ℕ → List Attempt → Option Values
try_forwarding zero as' = none
try_forwarding (suc n) [] = none
try_forwarding (suc n) (some address ∷ as') = some address
try_forwarding (suc n) (none ∷ as') = try_forwarding n as'

unfoldable pub setup_forwarding : List Attempt → Option Values
unfolding try_forwarding
setup_forwarding attempts = try_forwarding 3 attempts

-- What a read of `pipe` gives. After the last one the reader is at its end.
pub data Read : Type 0 where
  got : Bytes → Read
  fails : Exc → Read

-- How a pipe ends: it calls back with an id, or it closes its writer.
pub data Ending : Type 0 where
  calls_back : String → Ending
  closes_writer : Ending

abbrev ending : Option String → Ending
ending none = closes_writer
ending (some id) = calls_back id

-- `pipe`: what is written, how it ends, and what it raises after that.
unfoldable pub pipe : Option String → List Read → List Bytes × (Ending × Result (Unit {0}))
pipe callback [] = ([], (ending callback, ok tt))
pipe callback (fails e ∷ rs) = ([], (ending callback, err e))
pipe callback (got bs ∷ rs) = let rest = pipe callback rs in (bs ∷ rest.0, rest.1)

-- A look at the terminal: it is gone, there is nothing to read, or a read gives some bytes.
pub data Look : Type 0 where
  gone : Look
  quiet : Look
  output : Bytes → Look

pub data PtySent : Type 0 where
  pty_data : Bytes → PtySent
  pty_closed : PtySent

-- `proxy_pty` of a peer: what it sends, and whether it has ended.
unfoldable pub proxy_pty : List Look → List PtySent × Bool
proxy_pty [] = ([], false)
proxy_pty (gone ∷ ls) = (pty_closed ∷ [], true)
proxy_pty (quiet ∷ ls) = proxy_pty ls
proxy_pty (output [] ∷ ls) = (pty_closed ∷ [], true)
proxy_pty (output (b ∷ bs) ∷ ls) = let rest = proxy_pty ls in (pty_data (b ∷ bs) ∷ rest.0, rest.1)

-- The terminal of a peer, and the processes that were killed.
pub record Terminal : Type 0 where
  pub pty : Option ℕ
  pub pid : ℕ
  pub killed : List ℕ

-- `attach_pty`, which catches what an unknown peer raises
unfoldable pub attach_pty : ℕ → ℕ → Option Terminal → Option Terminal
attach_pty pid pty none = none
attach_pty pid pty (some t) = some (record t { pty = some pty; pid = pid })

abbrev kill_if : ℕ → Terminal → Terminal
kill_if zero t = t
kill_if (suc p) t = record t { killed = t.killed ++ (suc p ∷ []) }

-- `detach_pty`
unfoldable pub detach_pty : Option Terminal → Result Terminal
unfolding raised
detach_pty none = err (raised attribute_error nil)
detach_pty (some t) = ok (kill_if t.pid (record t { pty = none }))

-- What reads give before one fails.
abbrev pub piped : List Read → List Bytes
piped [] = []
piped (fails e ∷ rs) = []
piped (got bs ∷ rs) = bs ∷ piped rs

-- A pipe writes what it reads, in order, up to a read that fails, and whether one fails or not it
-- ends by its callback if it has one and by closing its writer if not.
pub pipe-piped :
    (callback : Option String) (rs : List Read)
    → ((pipe callback rs).0 ≡ piped rs) × ((pipe callback rs).1.0 ≡ ending callback)
unfolding pipe
pipe-piped callback [] = (refl, refl)
pipe-piped callback (fails e ∷ rs) = (refl, refl)
pipe-piped callback (got bs ∷ rs) =
    let (written, ended) = pipe-piped callback rs in (ap (λ xs. bs ∷ xs) written, ended)

-- The bytes that the looks give before the terminal is gone.
abbrev pub printed : List Look → List Bytes
printed [] = []
printed (gone ∷ ls) = []
printed (quiet ∷ ls) = printed ls
printed (output [] ∷ ls) = []
printed (output (b ∷ bs) ∷ ls) = (b ∷ bs) ∷ printed ls

abbrev pub all_data : List Bytes → List PtySent
all_data [] = []
all_data (bs ∷ bss) = pty_data bs ∷ all_data bss

abbrev pub closed_if : Bool → List PtySent
closed_if true = pty_closed ∷ []
closed_if false = []

-- The client of a terminal is sent what the terminal prints, in order, and that it is closed once
-- it is gone or a read of it is empty, and nothing after that.
pub proxy_pty-printed :
    (ls : List Look) → (proxy_pty ls).0 ≡ all_data (printed ls) ++ closed_if (proxy_pty ls).1
unfolding proxy_pty
proxy_pty-printed [] = refl
proxy_pty-printed (gone ∷ ls) = refl
proxy_pty-printed (quiet ∷ ls) = proxy_pty-printed ls
proxy_pty-printed (output [] ∷ ls) = refl
proxy_pty-printed (output (b ∷ bs) ∷ ls) = ap (λ xs. pty_data (b ∷ bs) ∷ xs) (proxy_pty-printed ls)

-- A peer that is detached twice has its process killed twice: `pid` is kept.
pub detach_pty-twice :
    (pid pty : ℕ) (t : Terminal)
    → (u : Terminal) × (v : Terminal) × (w : Terminal) × (attach_pty (suc pid) pty (some t)
        ≡ some u)
      × (detach_pty (some u) ≡ ok v)
      × (detach_pty (some v) ≡ ok w)
      × (w.killed ≡ t.killed ++ (suc pid ∷ suc pid ∷ []))
unfolding attach_pty detach_pty
detach_pty-twice pid pty t =
    (_, _, _, refl, refl, refl, append_assoc t.killed (suc pid ∷ []) (suc pid ∷ []))
