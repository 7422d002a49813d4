-- ===== src/Exchange/Files/Client.antt =====
-- fluxrpc/transports/socket/client.py: the messages of `stream_files`. A file is its bytes, and a
-- `read` of it takes at most as many as it asks for from the front.
-- The connection that it makes first and ends last is taken as made.
use aiotinyrpc.Base.{
  ℕ, zero, suc, ◌≡◌, ◌≤◌, refl, ap, String, Bool, true, false, Option, none, some, List, [], ◌∷◌,
  ◌++◌, length, arith,
}
use aiotinyrpc.Transports.Abstract.{Bytes}

-- `FileEntryStreamMessage`
pub record Entry : Type 0 where
  pub data_read : Bytes
  pub path : String
  pub eof : Bool

-- `f.read(n)`, with what is left of the file.
unfoldable pub read : ℕ → Bytes → Bytes × Bytes
read n [] = ([], [])
read zero (b ∷ bs) = ([], b ∷ bs)
read (suc n) (b ∷ bs) = let (front, left) = read n bs in (b ∷ front, left)

-- 50 MB
abbrev pub chunk_size : ℕ
chunk_size = 52428800

-- The loop for one file, with fuel for its rounds. `none` is a loop that has not ended.
unfoldable pub stream_file : ℕ → ℕ → String → Bytes → Option (List Entry)
unfolding read
stream_file zero n path content = none
stream_file (suc fuel) n path content =
    let chunk = (read n content).0 in
    let rest = stream_file fuel n path (read n content).1 in
    elim chunk [
      | [] ↦ some (record { data_read = []; path = path; eof = true } ∷ [])
      | b ∷ bs ↦ elim rest [
        | none ↦ none
        | some es ↦ some (record { data_read = b ∷ bs; path = path; eof = false } ∷ es)
      ]
    ]

-- `stream_files`: the files with their remote paths, each with as much fuel as it has bytes and one
-- round for the end.
unfoldable pub stream_files : ℕ → List (Bytes × String) → Option (List Entry)
unfolding stream_file
stream_files n [] = some []
stream_files n ((content, path) ∷ files) =
    let rest = stream_files n files in
    elim (stream_file (suc (length content)) n path content) [
      | none ↦ none
      | some es ↦ elim rest [ none ↦ none | some fs ↦ some (es ++ fs) ]
    ]

pub read-append : (n : ℕ) (bs : Bytes) → (read n bs).0 ++ (read n bs).1 ≡ bs
unfolding read
read-append n [] = refl
read-append zero (b ∷ bs) = refl
read-append (suc n) (b ∷ bs) = ap (λ cs. b ∷ cs) (read-append n bs)

pub length-read : (n : ℕ) (bs : Bytes) → length (read n bs).1 ≤ length bs
unfolding read
length-read n [] = omega arith
length-read zero (b ∷ bs) = omega arith
length-read (suc n) (b ∷ bs) = omega (arith, length-read n bs)

-- A read that asks for something takes something, unless the file is at its end.
pub read-some :
    (n : ℕ) (b : ℕ) (bs : Bytes)
    → 1 ≤ n
    → (cs : Bytes) × ((read n (b ∷ bs)).0 ≡ b ∷ cs) × (length (read n (b ∷ bs)).1 ≤ length bs)
unfolding read
read-some zero b bs h = absurd (omega (arith, h))
read-some (suc n) b bs h = ((read n bs).0, refl, length-read n bs)
