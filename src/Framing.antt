-- ===== src/Framing.antt =====
-- The bytes on the socket: how fluxrpc/transports/socket/client.py and
-- fluxrpc/transports/socket/server.py write messages, each followed by a separator, and how their
-- read loops take them apart. `StreamReader` of asyncio is given by what its reads come to.
pub mod Server
pub mod Client
pub mod Parts
pub mod Whole
pub mod Several
use aiotinyrpc.Base.{
  ℕ, zero, suc, ◌==◌, ◌||◌, ◌&&◌, Bool, true, false, List, [], ◌∷◌, ◌++◌, if◌then◌else◌,
}

abbrev pub Bytes : Type 0
Bytes = List ℕ

-- `b"<?!!?>"`
abbrev pub separator : Bytes
separator = 60 ∷ 63 ∷ 33 ∷ 33 ∷ 63 ∷ 62 ∷ []

-- `send`
abbrev pub framed : Bytes → Bytes
framed message = message ++ separator

abbrev pub is_empty : Bytes → Bool
is_empty [] = true
is_empty (b ∷ bs) = false

-- `rstrip(separator)` takes the separator for a set of bytes.
abbrev pub is_mark : ℕ → Bool
is_mark b = b == 60 || b == 63 || b == 33 || b == 62

unfoldable pub rstrip : Bytes → Bytes
rstrip [] = []
rstrip (b ∷ bs) = let rest = rstrip bs in if is_empty rest && is_mark b then [] else b ∷ rest

-- `b"".join`
abbrev pub join : List Bytes → Bytes
join [] = []
join (c ∷ cs) = c ++ join cs

abbrev pub starts_with : Bytes → Bytes → Bool
starts_with [] bs = true
starts_with (p ∷ ps) [] = false
starts_with (p ∷ ps) (b ∷ bs) = p == b && starts_with ps bs
