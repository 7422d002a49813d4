-- ===== src/Framing/Parts.antt =====
-- `split` and `findall` on a chunk of whole messages, in the read loop of
-- fluxrpc/transports/socket/client.py.
use aiotinyrpc.Base.{
  suc, ◌≤◌, ◌==◌, ◌≡◌, refl, sym, ap, ◌∙◌, true, false, ◌&&◌, List, [], ◌∷◌, ◌++◌, All, length,
  length-append, arith, if◌then◌else◌,
}
use mathlib.Core.List.{append_assoc, append-nil}
use aiotinyrpc.Framing.{Bytes, separator, framed, starts_with, is_empty}
use aiotinyrpc.Framing.Client.{split, split_from, matches, ends_with, non_empty}

-- The separator does not stand in what is framed before its end.
abbrev pub IsFree : Bytes → Type 0
IsFree [] = Unit
IsFree (b ∷ bs) = (starts_with separator (framed (b ∷ bs)) ≡ false) × IsFree bs

-- Messages one after another, each framed.
abbrev pub parts : List Bytes → Bytes
parts [] = []
parts (p ∷ ps) = p ++ (separator ++ parts ps)

starts_with-append :
    (s m n : Bytes) → length s ≤ length m → starts_with s (m ++ n) ≡ starts_with s m
starts_with-append [] m n h = refl
starts_with-append (a ∷ s) [] n h = absurd (omega (arith, h))
starts_with-append (a ∷ s) (b ∷ m) n h =
    ap (λ r. a == b && r) (starts_with-append s m n (omega (arith, h)))

starts_with-rest :
    (m rest : Bytes)
    → starts_with separator (m ++ (separator ++ rest)) ≡ starts_with separator (framed m)
starts_with-rest m rest =
    ap (starts_with separator) (sym (append_assoc m separator rest))
    ∙ starts_with-append separator (framed m) rest (omega (arith, length-append m separator))

split_from-part :
    (part p rest : Bytes)
    → IsFree p
    → split_from 0 part (p ++ (separator ++ rest)) ≡ (part ++ p) ∷ split_from 0 [] rest
unfolding split_from
split_from-part part [] rest f = ap (λ r. r ∷ split_from 0 [] rest) (sym (append-nil part))
split_from-part part (b ∷ bs) rest (f, fs) =
    ap
      (λ t. elim t [
        | true ↦ part ∷ split_from 5 [] (bs ++ (separator ++ rest))
        | false ↦ split_from 0 (part ++ b ∷ []) (bs ++ (separator ++ rest))
      ])
      (starts_with-rest (b ∷ bs) rest ∙ f)
    ∙ split_from-part (part ++ b ∷ []) bs rest fs
    ∙ ap (λ r. r ∷ split_from 0 [] rest) (append_assoc part (b ∷ []) bs)

matches-part :
    (p rest : Bytes) → IsFree p → matches 0 (p ++ (separator ++ rest)) ≡ suc (matches 0 rest)
unfolding matches
matches-part [] rest f = refl
matches-part (b ∷ bs) rest (f, fs) =
    ap
      (λ t. elim t [
        | true ↦ suc (matches 5 (bs ++ (separator ++ rest)))
        | false ↦ matches 0 (bs ++ (separator ++ rest))
      ])
      (starts_with-rest (b ∷ bs) rest ∙ f)
    ∙ matches-part bs rest fs

split_from-parts : (ps : List Bytes) → All IsFree ps → split_from 0 [] (parts ps) ≡ ps ++ [] ∷ []
unfolding split_from
split_from-parts [] f = refl
split_from-parts (p ∷ ps) (f, fs) =
    split_from-part [] p (parts ps) f ∙ ap (λ r. p ∷ r) (split_from-parts ps fs)

-- The parts come back, and after the last separator an empty one.
pub split-parts : (ps : List Bytes) → All IsFree ps → split (parts ps) ≡ ps ++ [] ∷ []
unfolding split
split-parts ps f = split_from-parts ps f

pub matches-parts : (ps : List Bytes) → All IsFree ps → matches 0 (parts ps) ≡ length ps
unfolding matches
matches-parts [] f = refl
matches-parts (p ∷ ps) (f, fs) = matches-part p (parts ps) f ∙ ap suc (matches-parts ps fs)

ends_with-append : (s m n : Bytes) → ends_with s n ≡ true → ends_with s (m ++ n) ≡ true
ends_with-append s [] n h = h
ends_with-append s (b ∷ m) n h = ground (arith, ends_with-append s m n h)

pub ends_with-parts : (p : Bytes) (ps : List Bytes) → ends_with separator (parts (p ∷ ps)) ≡ true
ends_with-parts p [] = ends_with-append separator p separator refl
ends_with-parts p (q ∷ ps) =
    ends_with-append separator p (separator ++ parts (q ∷ ps))
      (ends_with-append separator separator (parts (q ∷ ps)) (ends_with-parts q ps))

pub non_empty-append : (ps : List Bytes) → non_empty (ps ++ [] ∷ []) ≡ non_empty ps
non_empty-append [] = refl
non_empty-append (p ∷ ps) = ap (λ r. if is_empty p then r else p ∷ r) (non_empty-append ps)
