-- ===== src/Framing/Several.antt =====
-- A turn of the read loop of fluxrpc/transports/socket/client.py in which `readuntil` finds too much
-- data.
use aiotinyrpc.Base.{
  ◌≡◌, refl, sym, ap, ◌∙◌, true, false, some, List, [], ◌∷◌, ◌++◌, All, if◌then◌else◌,
}
use mathlib.Core.List.{append_assoc, append-nil}
use aiotinyrpc.Framing.{Bytes, separator, framed, rstrip, join, is_empty}
use aiotinyrpc.Framing.Whole.{rstrip-framed, join-append}
use aiotinyrpc.Framing.Client.{
  split, ends_with, non_empty, gather, put_chunk, task, turn_overrun, taken_apart, with_parts,
  several, gathered,
}
use aiotinyrpc.Framing.Parts.{
  IsFree, parts, split-parts, matches-parts, ends_with-parts, non_empty-append,
}

-- A chunk that the loop goes on after.
abbrev pub GoesOn : Bytes → Type 0
GoesOn c = ends_with separator c ≡ false

gather-chunks :
    (cs later : List Bytes) (last : Bytes)
    → All GoesOn cs
    → ends_with separator last ≡ true
    → gather (cs ++ last ∷ later) ≡ some (cs, last)
unfolding gather
gather-chunks [] later last g e =
    ap (λ t. if t then some ([], last) else put_chunk last (gather later)) e
gather-chunks (c ∷ cs) later last (g, gs) e =
    ap (λ t. if t then some ([], c) else put_chunk c (gather (cs ++ last ∷ later))) g
    ∙ ap (put_chunk c) (gather-chunks cs later last gs e)

non_empty_lem : (ps : List Bytes) → All (λ p. is_empty p ≡ false) ps → non_empty ps ≡ ps
non_empty_lem [] h = refl
non_empty_lem (p ∷ ps) (h, hs) =
    ap (λ t. if t then non_empty ps else p ∷ non_empty ps) h ∙ ap (λ r. p ∷ r) (non_empty_lem ps hs)

-- The first message, of which the chunks before hold a part.
rstrip-joined :
    (cs : List Bytes) (p : Bytes) → rstrip (join (cs ++ framed p ∷ [])) ≡ rstrip (join cs ++ p)
rstrip-joined cs p =
    ap rstrip (join-append cs (framed p ∷ []))
    ∙ ap (λ r. rstrip (join cs ++ r)) (append-nil (framed p))
    ∙ ap rstrip (sym (append_assoc (join cs) p separator))
    ∙ rstrip-framed (join cs ++ p)

taken_apart-several :
    (cs : List Bytes) (p q : Bytes) (ps : List Bytes)
    → All IsFree (p ∷ q ∷ ps)
    → taken_apart cs (parts (p ∷ q ∷ ps)) ≡ with_parts cs (non_empty (p ∷ q ∷ ps))
taken_apart-several cs p q ps f =
    ap
      (λ n.
        if several n
        then with_parts cs (non_empty (split (parts (p ∷ q ∷ ps))))
        else task (rstrip (join (cs ++ parts (p ∷ q ∷ ps) ∷ [])) ∷ []))
      (matches-parts (p ∷ q ∷ ps) f)
    ∙ ap (λ r. with_parts cs (non_empty r)) (split-parts (p ∷ q ∷ ps) f)
    ∙ ap (with_parts cs) (non_empty-append (p ∷ q ∷ ps))

taken_apart-one :
    (cs : List Bytes) (p : Bytes)
    → IsFree p
    → taken_apart cs (parts (p ∷ [])) ≡ task (rstrip (join cs ++ p) ∷ [])
taken_apart-one cs p f =
    ap
      (λ n.
        if several n
        then with_parts cs (non_empty (split (framed p)))
        else task (rstrip (join (cs ++ framed p ∷ [])) ∷ []))
      (matches-parts (p ∷ []) (f, tt))
    ∙ ap (λ r. task (r ∷ [])) (rstrip-joined cs p)

taken_apart-parts :
    (cs : List Bytes) (p : Bytes) (ps : List Bytes)
    → All IsFree (p ∷ ps)
    → All (λ q. is_empty q ≡ false) (p ∷ ps)
    → taken_apart cs (parts (p ∷ ps)) ≡ task (rstrip (join cs ++ p) ∷ ps)
taken_apart-parts cs p [] (f, fs) h = taken_apart-one cs p f
taken_apart-parts cs p (q ∷ ps) f h =
    taken_apart-several cs p q ps f
    ∙ ap (with_parts cs) (non_empty_lem (p ∷ q ∷ ps) h)
    ∙ ap (λ r. task (r ∷ q ∷ ps)) (rstrip-joined cs p)

-- Too much data at once: chunks that do not end with the separator, and then one that consists of
-- parts, each with the separator behind it, none of them empty and none holding the separator. The
-- turn gives exactly the parts of that last chunk, in order, of which the first has all the chunks
-- before it in front, separators that these hold included, and loses the bytes of the separator's
-- kind at its end. Chunks that are read later are not looked at.
pub turn_overrun-parts :
    (cs later : List Bytes) (p : Bytes) (ps : List Bytes)
    → All GoesOn cs
    → All IsFree (p ∷ ps)
    → All (λ q. is_empty q ≡ false) (p ∷ ps)
    → turn_overrun (cs ++ parts (p ∷ ps) ∷ later) ≡ task (rstrip (join cs ++ p) ∷ ps)
unfolding turn_overrun
turn_overrun-parts cs later p ps g f h =
    ap gathered (gather-chunks cs later (parts (p ∷ ps)) g (ends_with-parts p ps))
    ∙ taken_apart-parts cs p ps f h

-- Where the last chunk begins with the separator that ends a first message, that message and the
-- next become one.
pub turn_overrun-merges :
    (cs later : List Bytes) (p : Bytes)
    → All GoesOn cs
    → IsFree p
    → is_empty p ≡ false
    → turn_overrun (cs ++ parts ([] ∷ p ∷ []) ∷ later) ≡ task (rstrip (join cs ++ p) ∷ [])
unfolding turn_overrun
turn_overrun-merges cs later p g f h =
    ap gathered (gather-chunks cs later (parts ([] ∷ p ∷ [])) g (ends_with-parts [] (p ∷ [])))
    ∙ taken_apart-several cs [] p [] (tt, (f, tt))
    ∙ ap (with_parts cs) (non_empty_lem (p ∷ []) (h, tt))
    ∙ ap (λ r. task (r ∷ [])) (rstrip-joined cs p)
