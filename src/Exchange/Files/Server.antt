-- ===== src/Exchange/Files/Server.antt =====
-- fluxrpc/transports/socket/server.py: `handle_file_stream_message` between its awaits. A write goes
-- to the end of the file, which is where it goes as long as a path is opened once.
use aiotinyrpc.Base.{
  ℕ, zero, suc, String, Bool, true, false, Option, none, some, List, [], ◌∷◌, ◌++◌, if◌then◌else◌,
}
use aiotinyrpc.Base.Dict.{Dict, lookup, insert, erase}
use aiotinyrpc.Transports.Abstract.{Bytes}
use aiotinyrpc.Exchange.Files.Client.{Entry}

-- `self.fh`, with the number of the handle of each open path, and the files.
pub record Files : Type 0 where
  pub fh : Dict ℕ
  pub count : ℕ
  pub disk : Dict Bytes

-- Where a task waits: for `aiofiles.open`, for the write, or for the close.
pub data Phase : Type 0 where
  opening writing closing finished : Phase

abbrev pub content_of : Option Bytes → Bytes
content_of none = []
content_of (some bs) = bs

abbrev pub write : Entry → Files → Files
write e s = record s {
  disk = insert e.path (content_of (lookup e.path s.disk) ++ e.data_read) s.disk;
}

-- Up to the first await.
unfoldable pub begin : Entry → Files → Phase × Files
unfolding lookup insert
begin e s = elim (lookup e.path s.fh) [ none ↦ (opening, s) | some h ↦ (writing, write e s) ]

-- `open(p, "wb")` empties the file.
abbrev pub open_file : String → Files → Files
open_file path s = record {
  fh = insert path s.count s.fh;
  count = suc s.count;
  disk = insert path [] s.disk;
}

-- From one await to the next. `none` is a `KeyError`.
unfoldable pub resume : Phase → Entry → Files → Option (Phase × Files)
unfolding lookup insert erase
resume opening e s = some (writing, write e (open_file e.path s))
resume writing e s =
    if e.eof
    then elim (lookup e.path s.fh) [ none ↦ none | some h ↦ some (closing, s) ]
    else some (finished, s)
resume closing e s = elim (lookup e.path s.fh) [
  | none ↦ none
  | some h ↦ some (finished, record s { fh = erase e.path s.fh })
]
resume finished e s = some (finished, s)

-- A task that runs to its end before another one runs: at most three awaits.
unfoldable pub finish : ℕ → Phase → Entry → Files → Option Files
unfolding resume
finish zero phase e s = none
finish (suc n) phase e s = elim phase [
  | finished ↦ some s
  | opening ↦ elim (resume opening e s) [ none ↦ none | some (p, s') ↦ finish n p e s' ]
  | writing ↦ elim (resume writing e s) [ none ↦ none | some (p, s') ↦ finish n p e s' ]
  | closing ↦ elim (resume closing e s) [ none ↦ none | some (p, s') ↦ finish n p e s' ]
]

unfoldable pub handle_entry : Entry → Files → Option Files
unfolding begin finish
handle_entry e s = let (phase, s') = begin e s in finish 4 phase e s'

unfoldable pub handle_entries : List Entry → Files → Option Files
unfolding handle_entry
handle_entries [] s = some s
handle_entries (e ∷ es) s = elim (handle_entry e s) [ none ↦ none | some s' ↦ handle_entries es s' ]

-- Two tasks, of two messages that were read one after the other, in any order of their parts:
-- `true` for the first.
unfoldable pub interleave : List Bool → Phase × Entry → Phase × Entry → Files → Option Files
unfolding resume
interleave [] x y s = some s
interleave (true ∷ ts) (p, e) y s = elim (resume p e s) [
  | none ↦ none
  | some (p', s') ↦ interleave ts (p', e) y s'
]
interleave (false ∷ ts) x (q, f) s = elim (resume q f s) [
  | none ↦ none
  | some (q', s') ↦ interleave ts x (q', f) s'
]
