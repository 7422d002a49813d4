-- ===== src/Exchange/Files/Entries.antt =====
-- fluxrpc/transports/socket/server.py: one message of a file that is handled to its end.
use aiotinyrpc.Base.{
  ℕ, ◌≡◌, ◌≢◌, refl, ◌∙◌, String, str_eq_iff, str_eq_refl, true, false, none, some, [], ◌++◌, arith,
}
use aiotinyrpc.Base.Dict.{lookup, erase, lookup-insert, lookup-erase}
use aiotinyrpc.Transports.Abstract.{Bytes}
use aiotinyrpc.Exchange.Files.Client.{Entry}
use aiotinyrpc.Exchange.Files.Server.{Files, content_of, write, open_file, handle_entry}
use mathlib.Core.List.{append-nil}

module _ (path : String) where
  abbrev pub chunk : Bytes → Entry
  chunk bs = record { data_read = bs; path = path; eof = false }

  abbrev pub last_entry : Entry
  last_entry = record { data_read = []; path = path; eof = true }

  -- Other paths keep their files and their handles.
  abbrev pub Spares : Files → Files → Type 0
  Spares s s' =
      (k : String)
      → path ≢ k
      → (lookup k s'.disk ≡ lookup k s.disk) × (lookup k s'.fh ≡ lookup k s.fh)

  abbrev pub Holds : Bytes → Files → Type 0
  Holds content s = (lookup path s.disk ≡ some content) × ((h : ℕ) × (lookup path s.fh ≡ some h))

  -- A chunk for an open file goes to its end, and one for a file that is not open begins it anew.
  pub handle_entry-open :
      (bs old : Bytes) (s : Files)
      → Holds old s
      → (s' : Files) × (handle_entry (chunk bs) s ≡ some s') × Holds (old ++ bs) s' × Spares s s'
  unfolding handle_entry
  handle_entry-open bs old s (disk, (h, is_open)) = (
    write (chunk bs) s,
    ground arith,
    (ground (arith, lookup-insert path path (old ++ bs) s.disk, str_eq_refl path), (h, is_open)),
    λ k other. (
      ground (
        arith,
        lookup-insert path k (content_of (lookup path s.disk) ++ bs) s.disk,
        str_eq_iff path k,
      ),
      refl,
    ),
  )

  pub handle_entry-new :
      (bs : Bytes) (s : Files)
      → lookup path s.fh ≡ none
      → (s' : Files) × (handle_entry (chunk bs) s ≡ some s') × Holds bs s' × Spares s s'
  unfolding handle_entry
  handle_entry-new bs s closed =
      let o = open_file path s in
      (
        write (chunk bs) o,
        ground (arith, lookup-insert path path [] s.disk, str_eq_refl path),
        (
          ground (
            arith,
            lookup-insert path path [] s.disk,
            lookup-insert path path (content_of (lookup path o.disk) ++ bs) o.disk,
            str_eq_refl path,
          ),
          (s.count, ground (arith, lookup-insert path path s.count s.fh, str_eq_refl path)),
        ),
        λ k other. (
          ground (
            arith,
            lookup-insert path k [] s.disk,
            lookup-insert path k (content_of (lookup path o.disk) ++ bs) o.disk,
            str_eq_iff path k,
          ),
          ground (arith, lookup-insert path k s.count s.fh, str_eq_iff path k),
        ),
      )

  -- The end of a stream closes the file and leaves it as it is; without a chunk it makes it.
  abbrev pub Stored : Bytes → Files → Type 0
  Stored content s = (lookup path s.disk ≡ some content) × (lookup path s.fh ≡ none)

  pub handle_entry-last :
      (old : Bytes) (s : Files)
      → Holds old s
      → (s' : Files) × (handle_entry last_entry s ≡ some s') × Stored old s' × Spares s s'
  unfolding handle_entry
  handle_entry-last old s (disk, (h, is_open)) =
      let w = write last_entry s in
      (
        record w { fh = erase path w.fh },
        ground arith,
        (
          ground
              (arith, lookup-insert path path (old ++ []) s.disk, str_eq_refl path, append-nil old),
          ground (arith, lookup-erase path path s.fh, str_eq_refl path),
        ),
        λ k other. (
          ground (
            arith,
            lookup-insert path k (content_of (lookup path s.disk) ++ []) s.disk,
            str_eq_iff path k,
          ),
          ground (arith, lookup-erase path k s.fh, str_eq_iff path k),
        ),
      )

  pub handle_entry-empty :
      (s : Files)
      → lookup path s.fh ≡ none
      → (s' : Files) × (handle_entry last_entry s ≡ some s') × Stored [] s' × Spares s s'
  unfolding handle_entry
  handle_entry-empty s closed =
      let o = open_file path s in
      let w = write last_entry o in
      (
        record w { fh = erase path w.fh },
        ground (
          arith,
          lookup-insert path path [] s.disk,
          lookup-insert path path s.count s.fh,
          str_eq_refl path,
        ),
        (
          ground (
            arith,
            lookup-insert path path [] s.disk,
            lookup-insert path path (content_of (lookup path o.disk) ++ []) o.disk,
            str_eq_refl path,
          ),
          ground (arith, lookup-erase path path o.fh, str_eq_refl path),
        ),
        λ k other. (
          ground (
            arith,
            lookup-insert path k [] s.disk,
            lookup-insert path k (content_of (lookup path o.disk) ++ []) o.disk,
            str_eq_iff path k,
          ),
          ground (
            arith,
            lookup-insert path k s.count s.fh,
            lookup-erase path k o.fh,
            str_eq_iff path k,
          ),
        ),
      )

  pub Spares-trans : (s t u : Files) → Spares s t → Spares t u → Spares s u
  Spares-trans s t u h g k other = ((g k other).0 ∙ (h k other).0, (g k other).1 ∙ (h k other).1)
