-- ===== src/Exchange/Files/Race.antt =====
-- The tasks of two messages for one file that are read before the first task has opened it.
use aiotinyrpc.Base.{◌≡◌, String, str_eq_refl, true, false, none, some, [], ◌∷◌, ◌++◌, arith}
use aiotinyrpc.Base.Dict.{lookup, erase, lookup-insert, lookup-erase}
use aiotinyrpc.Transports.Abstract.{Bytes}
use aiotinyrpc.Exchange.Files.Client.{Entry}
use aiotinyrpc.Exchange.Files.Server.{
  Files, content_of, write, begin, open_file, resume, interleave,
}

module _ (path : String) (content : Bytes) where
  abbrev pub first : Entry
  first = record { data_read = content; path = path; eof = false }

  abbrev pub second : Entry
  second = record { data_read = []; path = path; eof = true }

  -- Both tasks run to their ends, the first one before the second at every await of both, and the
  -- file is empty: the second task opens it again.
  pub interleave-empties :
      (s : Files)
      → lookup path s.fh ≡ none
      → let (p, s1) = begin first s in
        let (q, s2) = begin second s1 in
        (s' : Files) × (interleave
            (true ∷ false ∷ true ∷ false ∷ false ∷ [])
            (p, first)
            (q, second)
            s2
          ≡ some s')
        × (lookup path s'.disk ≡ some [])
        × (lookup path s'.fh ≡ none)
  unfolding begin interleave resume
  interleave-empties s closed =
      let o = open_file path s in
      let w = write first o in
      let r = open_file path w in
      let x = write second r in
      (
        record x { fh = erase path x.fh },
        ground (
          arith,
          lookup-insert path path s.count s.fh,
          lookup-insert path path w.count w.fh,
          str_eq_refl path,
        ),
        ground (
          arith,
          lookup-insert path path [] w.disk,
          lookup-insert path path (content_of (lookup path r.disk) ++ []) r.disk,
          str_eq_refl path,
        ),
        ground (arith, lookup-erase path path x.fh, str_eq_refl path),
      )
