-- ===== src/Framing/Whole.antt =====
-- The bytes that `rstrip` takes off a message, in fluxrpc/transports/socket/server.py and
-- fluxrpc/transports/socket/client.py, and what the server's read loop makes of a stream.
use aiotinyrpc.Base.{◌≡◌, refl, sym, ap, ◌∙◌, ◌&&◌, List, [], ◌∷◌, ◌++◌, map, if◌then◌else◌}
use mathlib.Core.List.{append_assoc, append-nil}
use aiotinyrpc.Framing.{Bytes, separator, framed, rstrip, join, is_empty, is_mark}
use aiotinyrpc.Framing.Server.{Read, line, overran, read_messages, whole}

-- What `rstrip` leaves depends on the bytes before, and on what is left of those after.
rstrip-append : (m n : Bytes) → rstrip n ≡ [] → rstrip (m ++ n) ≡ rstrip m
unfolding rstrip
rstrip-append [] n e = e
rstrip-append (b ∷ m) n e =
    ap (λ r. if is_empty r && is_mark b then [] else b ∷ r) (rstrip-append m n e)

pub rstrip-framed : (m : Bytes) → rstrip (framed m) ≡ rstrip m
unfolding rstrip
rstrip-framed m = rstrip-append m separator refl

append_one : {A : Type 0} (xs : List A) (y : A) (ys : List A) → (xs ++ y ∷ []) ++ ys ≡ xs ++ y ∷ ys
append_one [] y ys = refl
append_one (x ∷ xs) y ys = ap (λ r. x ∷ r) (append_one xs y ys)

pub join-append : (cs ds : List Bytes) → join (cs ++ ds) ≡ join cs ++ join ds
join-append [] ds = refl
join-append (c ∷ cs) ds =
    ap (λ r. c ++ r) (join-append cs ds) ∙ sym (append_assoc c (join cs) (join ds))

-- The reads that a stream of framed messages comes to: for each message some chunks, and then a line
-- with the rest of it.
pub data Delivers : List Bytes → List Read → Type 0 where
  nothing : Delivers [] []
  message :
      (chunks : List Bytes) (rest : Bytes) (ms : List Bytes) (reads : List Read)
      → Delivers ms reads
      → Delivers ((join chunks ++ rest) ∷ ms) (map overran chunks ++ line (framed rest) ∷ reads)

whole_lem :
    (buffer : List Bytes) (rest : Bytes)
    → rstrip (whole buffer (framed rest)) ≡ rstrip (join buffer ++ rest)
unfolding rstrip
whole_lem [] rest = rstrip-framed rest
whole_lem (c ∷ cs) rest =
    ap rstrip (join-append (c ∷ cs) (framed rest ∷ separator ∷ []))
    ∙ ap rstrip (ap (λ r. join (c ∷ cs) ++ r) (append_assoc rest separator separator))
    ∙ sym (ap rstrip (append_assoc (join (c ∷ cs)) rest (separator ++ separator)))
    ∙ rstrip-append (join (c ∷ cs) ++ rest) (separator ++ separator) refl

read_messages-chunks :
    (buffer chunks : List Bytes) (rest : Bytes) (reads : List Read)
    → read_messages buffer (map overran chunks ++ line (framed rest) ∷ reads)
      ≡ rstrip (join (buffer ++ chunks) ++ rest) ∷ read_messages [] reads
unfolding read_messages
read_messages-chunks buffer [] rest reads =
    ap (λ r. r ∷ read_messages [] reads)
      (whole_lem buffer rest ∙ ap (λ r. rstrip (join r ++ rest)) (sym (append-nil buffer)))
read_messages-chunks buffer (c ∷ cs) rest reads =
    read_messages-chunks (buffer ++ c ∷ []) cs rest reads
    ∙ ap (λ r. rstrip (join r ++ rest) ∷ read_messages [] reads) (append_one buffer c cs)

-- A stream of framed messages that is read with each line ending where a message ends, as it is when
-- no message holds the separator, whatever the chunks of a message that are read before its line:
-- the server reads those messages, each without the bytes of the separator's kind at its end.
pub read_messages-Delivers :
    (ms : List Bytes) (reads : List Read)
    → Delivers ms reads
    → read_messages [] reads ≡ map rstrip ms
unfolding read_messages
read_messages-Delivers _ _ nothing = refl
read_messages-Delivers _ _ (message chunks rest ms reads h) =
    read_messages-chunks [] chunks rest reads
    ∙ ap (λ r. rstrip (join chunks ++ rest) ∷ r) (read_messages-Delivers ms reads h)
