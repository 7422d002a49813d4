-- ===== src/Exchange/Files/Transfer.antt =====
-- A transfer of files in which every message is handled before the next one is read.
use aiotinyrpc.Base.{
  ℕ, zero, suc, ◌≡◌, ◌≤◌, ◌<◌, refl, sym, ap, ◌∙◌, subst, String, str_eq, str_eq_iff, Option, none,
  some, List, [], ◌∷◌, ◌++◌, length, arith, Bool-cases, Option-cases, inl, inr,
}
use aiotinyrpc.Base.Dict.{Dict, lookup, insert, lookup-insert}
use aiotinyrpc.Transports.Abstract.{Bytes}
use aiotinyrpc.Exchange.Files.Client.{
  Entry, read, stream_file, stream_files, read-append, read-some,
}
use aiotinyrpc.Exchange.Files.Server.{Files, handle_entry, handle_entries}
use mathlib.Core.List.{append_assoc, append-nil}
use aiotinyrpc.Exchange.Files.Entries.{
  chunk, last_entry, Spares, Holds, Stored, handle_entry-open, handle_entry-new, handle_entry-last,
  handle_entry-empty, Spares-trans,
}

taken :
    (n b : ℕ) (bs cs : Bytes)
    → (read n (b ∷ bs)).0 ≡ b ∷ cs
    → (b ∷ cs) ++ (read n (b ∷ bs)).1 ≡ b ∷ bs
taken n b bs cs front =
    subst (λ x. x ++ (read n (b ∷ bs)).1 ≡ b ∷ bs) front (read-append n (b ∷ bs))

module _ (path : String) where
  -- The messages that there are, handled one after the other, make this file of this path.
  abbrev Sent : Bytes → Files → Option (List Entry) → Type 0
  Sent content s streamed =
      (es : List Entry) × (streamed ≡ some es)
      × ((s' : Files) × (handle_entries es s ≡ some s') × Stored path content s' × Spares path s s')

  stream_file-open :
      (fuel n : ℕ) (content old : Bytes) (s : Files)
      → 1 ≤ n
      → length content < fuel
      → Holds path old s
      → Sent (old ++ content) s (stream_file fuel n path content)
  unfolding stream_file handle_entries
  stream_file-open zero n content old s some_read h holds = absurd (omega (arith, h))
  stream_file-open (suc fuel) n [] old s some_read h holds =
      let (s', handled, stored, spares) = handle_entry-last path old s holds in
      (
        last_entry path ∷ [],
        refl,
        (s', ground arith, subst (λ x. Stored path x s') (sym (append-nil old)) stored, spares),
      )
  stream_file-open (suc fuel) n (b ∷ bs) old s some_read h holds =
      let (cs, front, shorter) = read-some n b bs some_read in
      let left = (read n (b ∷ bs)).1 in
      let (t, handled, holds', spares) = handle_entry-open path (b ∷ cs) old s holds in
      let (es, streamed, (s', rest, stored, spares')) =
        stream_file-open fuel n left (old ++ (b ∷ cs)) t some_read (omega (arith, h, shorter))
          holds' in
      (
        chunk path (b ∷ cs) ∷ es,
        ground arith,
        (
          s',
          ground arith,
          subst (λ x. Stored path x s')
              (append_assoc old (b ∷ cs) left ∙ ap (λ x. old ++ x) (taken n b bs cs front)) stored,
          Spares-trans path s t s' spares spares',
        ),
      )

  stream_file-closed :
      (n : ℕ) (content : Bytes) (s : Files)
      → 1 ≤ n
      → lookup path s.fh ≡ none
      → Sent content s (stream_file (suc (length content)) n path content)
  unfolding stream_file handle_entries
  stream_file-closed n [] s some_read closed =
      let (s', handled, stored, spares) = handle_entry-empty path s closed in
      (last_entry path ∷ [], refl, (s', ground arith, stored, spares))
  stream_file-closed n (b ∷ bs) s some_read closed =
      let (cs, front, shorter) = read-some n b bs some_read in
      let left = (read n (b ∷ bs)).1 in
      let (t, handled, holds, spares) = handle_entry-new path (b ∷ cs) s closed in
      let (es, streamed, (s', rest, stored, spares')) =
        stream_file-open (suc (length bs)) n left (b ∷ cs) t some_read (omega (arith, shorter))
          holds in
      (
        chunk path (b ∷ cs) ∷ es,
        ground arith,
        (
          s',
          ground arith,
          subst (λ x. Stored path x s') (taken n b bs cs front) stored,
          Spares-trans path s t s' spares spares',
        ),
      )

-- The files that a list of transfers leaves, the later ones over the earlier.
unfoldable pub stored : List (Bytes × String) → Dict Bytes → Dict Bytes
unfolding insert
stored [] disk = disk
stored ((content, path) ∷ files) disk = stored files (insert path content disk)

handle_entries-append :
    (es fs : List Entry) (s t : Files)
    → handle_entries es s ≡ some t
    → handle_entries (es ++ fs) s ≡ handle_entries fs t
unfolding handle_entries
handle_entries-append [] fs s t h = ap (handle_entries fs) (ground arith)
handle_entries-append (e ∷ es) fs s t h = elim (Option-cases (handle_entry e s)) [
  | inl stuck ↦ absurd (ground arith)
  | inr (u, handled) ↦ ground (arith, handle_entries-append es fs u t (ground arith))
]

stored-lookup :
    (files : List (Bytes × String)) (d e : Dict Bytes)
    → ((k : String) → lookup k d ≡ lookup k e)
    → (k : String) → lookup k (stored files d) ≡ lookup k (stored files e)
unfolding stored
stored-lookup [] d e same k = same k
stored-lookup ((content, path) ∷ files) d e same k =
    stored-lookup files (insert path content d) (insert path content e)
      (λ j. ground (arith, lookup-insert path j content d, lookup-insert path j content e, same j))
      k

one_file :
    (path : String) (content : Bytes) (s t : Files)
    → ((k : String) → lookup k s.fh ≡ none)
    → Stored path content t
    → Spares path s t
    → (k : String)
    → (lookup k t.disk ≡ lookup k (insert path content s.disk)) × (lookup k t.fh ≡ none)
one_file path content s t closed (disk, shut) spares k = elim (Bool-cases (str_eq path k)) [
  | inl e ↦ (
    ground (arith, lookup-insert path k content s.disk, str_eq_iff path k),
    ground (arith, str_eq_iff path k),
  )
  | inr e ↦
      let kept = spares k (λ same. ground (arith, str_eq_iff path k)) in
      (ground (arith, lookup-insert path k content s.disk), kept.1 ∙ closed k)
]

-- Every list of files is streamed in finitely many messages, whatever the size of a read, and a
-- server without open files that handles these in order has each file under its remote path with
-- all of its bytes, keeps its other files, and has no file open.
pub stream_files-Stored :
    (n : ℕ) (files : List (Bytes × String)) (s : Files)
    → 1 ≤ n
    → ((k : String) → lookup k s.fh ≡ none)
    → (es : List Entry) × (stream_files n files ≡ some es)
      × ((s' : Files) × (handle_entries es s ≡ some s')
          × ((k : String)
              → (lookup k s'.disk ≡ lookup k (stored files s.disk)) × (lookup k s'.fh ≡ none)))
unfolding stream_files stored handle_entries
stream_files-Stored n [] s some_read closed = ([], refl, (s, refl, λ k. (refl, closed k)))
stream_files-Stored n ((content, path) ∷ files) s some_read closed =
    let (es, streamed, (t, handled, (disk, shut), spares)) =
      stream_file-closed path n content s some_read (closed path) in
    let one = one_file path content s t closed (disk, shut) spares in
    let (fs, rest, (s', handled', holds)) =
      stream_files-Stored n files t some_read (λ k. (one k).1) in
    (
      es ++ fs,
      ground arith,
      (
        s',
        handle_entries-append es fs s t handled ∙ handled',
        λ k. (
          (holds k).0 ∙ stored-lookup files t.disk (insert path content s.disk) (λ j. (one j).0) k,
          (holds k).1,
        ),
      ),
    )
