-- ===== src/Framing/Client.antt =====
-- `read_socket_loop` of fluxrpc/transports/socket/client.py.
use aiotinyrpc.Base.{
  ℕ, zero, suc, ◌==◌, ◌||◌, ◌&&◌, Bool, true, false, Option, none, some, List, [], ◌∷◌, ◌++◌,
  if◌then◌else◌,
}
use aiotinyrpc.Framing.{Bytes, separator, rstrip, join, starts_with, is_empty}

-- `bytes.split(separator)`, with the bytes of a match that are still to be skipped and the part
-- that is being read.
unfoldable pub split_from : ℕ → Bytes → Bytes → List Bytes
split_from k part [] = part ∷ []
split_from (suc k) part (b ∷ bs) = split_from k part bs
split_from zero part (b ∷ bs) = elim (starts_with separator (b ∷ bs)) [
  | true ↦ part ∷ split_from 5 [] bs
  | false ↦ split_from 0 (part ++ b ∷ []) bs
]

unfoldable pub split : Bytes → List Bytes
unfolding split_from
split bs = split_from 0 [] bs

-- `len(re.findall(separator, bs))`
unfoldable pub matches : ℕ → Bytes → ℕ
matches k [] = 0
matches (suc k) (b ∷ bs) = matches k bs
matches zero (b ∷ bs) = elim (starts_with separator (b ∷ bs)) [
  | true ↦ suc (matches 5 bs)
  | false ↦ matches 0 bs
]

-- `filter(None, ...)`
abbrev pub non_empty : List Bytes → List Bytes
non_empty [] = []
non_empty (c ∷ cs) = let rest = non_empty cs in if is_empty c then rest else c ∷ rest

abbrev same_bytes : Bytes → Bytes → Bool
same_bytes [] [] = true
same_bytes (b ∷ bs) (d ∷ ds) = b == d && same_bytes bs ds
same_bytes bs ds = false

abbrev pub ends_with : Bytes → Bytes → Bool
ends_with s [] = same_bytes s []
ends_with s (b ∷ bs) = same_bytes s (b ∷ bs) || ends_with s bs

-- What `read` returns until a chunk ends with the separator: the chunks before that one, and that
-- one. `none` is a loop that goes on for ever, since at the end of the stream `read` returns nothing
-- and does not raise.
abbrev pub put_chunk : Bytes → Option (List Bytes × Bytes) → Option (List Bytes × Bytes)
put_chunk c none = none
put_chunk c (some (cs, last)) = some (c ∷ cs, last)

unfoldable pub gather : List Bytes → Option (List Bytes × Bytes)
gather [] = none
gather (c ∷ cs) =
    let rest = gather cs in if ends_with separator c then some ([], c) else put_chunk c rest

-- What a turn of the loop comes to: messages for a task, the end of the loop by an exception, where
-- `pop` finds no part, or a turn without end.
pub data Turn : Type 0 where
  task : List Bytes → Turn
  raises : Turn
  spins : Turn

abbrev pub with_parts : List Bytes → List Bytes → Turn
with_parts chunks [] = raises
with_parts chunks (p ∷ ps) = task (rstrip (join (chunks ++ (p ++ separator) ∷ [])) ∷ ps)

abbrev pub several : ℕ → Bool
several (suc (suc n)) = true
several n = false

abbrev pub taken_apart : List Bytes → Bytes → Turn
taken_apart chunks last =
    if several (matches 0 last)
    then with_parts chunks (non_empty (split last))
    else task (rstrip (join (chunks ++ last ∷ [])) ∷ [])

abbrev pub gathered : Option (List Bytes × Bytes) → Turn
gathered none = spins
gathered (some (chunks, last)) = taken_apart chunks last

-- A turn in which `readuntil` returns data, and one in which it finds too much of it.
unfoldable pub turn_line : Bytes → Turn
unfolding rstrip
turn_line data_read = task (rstrip data_read ∷ [])

unfoldable pub turn_overrun : List Bytes → Turn
unfolding gather split matches rstrip
turn_overrun chunks = gathered (gather chunks)
