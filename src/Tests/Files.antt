-- ===== src/Tests/Files.antt =====
-- Transfers of files, with reads of two bytes.
use aiotinyrpc.Base.{◌≡◌, refl, String, none, some, List, [], ◌∷◌, arith}
use aiotinyrpc.Base.Dict.{lookup}
use aiotinyrpc.Transports.Abstract.{Bytes}
use aiotinyrpc.Exchange.Files.Client.{Entry, stream_files}
use aiotinyrpc.Exchange.Files.Server.{Files, handle_entries}
use aiotinyrpc.Exchange.Files.Transfer.{stored, stream_files-Stored}

abbrev blank : Files
blank = record { fh = []; count = 0; disk = [] }

abbrev files : List (Bytes × String)
files = (1 ∷ 2 ∷ 3 ∷ [], "a") ∷ ([], "b") ∷ (4 ∷ 5 ∷ [], "a") ∷ []

stream_files-Stored_example :
    (es : List Entry) × (stream_files 2 files ≡ some es)
    × ((s' : Files) × (handle_entries es blank ≡ some s')
        × ((k : String)
            → (lookup k s'.disk ≡ lookup k (stored files [])) × (lookup k s'.fh ≡ none)))
unfolding lookup
stream_files-Stored_example = stream_files-Stored 2 files blank (omega arith) (λ k. refl)

later_wins : stored files [] ≡ ("a", 4 ∷ 5 ∷ []) ∷ ("b", []) ∷ []
unfolding stored
later_wins = refl
