-- ===== src/Tests/Framing.antt =====
-- Streams of bytes, cut by the reader.
use aiotinyrpc.Base.{◌≡◌, refl, [], ◌∷◌, map, List}
use aiotinyrpc.Framing.{Bytes, framed, rstrip}
use aiotinyrpc.Framing.Server.{Read, line, overran, read_messages}
use aiotinyrpc.Framing.Client.{task, raises, turn_overrun, turn_line}
use aiotinyrpc.Framing.Whole.{nothing, message, read_messages-Delivers}
use aiotinyrpc.Framing.Parts.{parts}
use aiotinyrpc.Framing.Several.{turn_overrun-parts}

abbrev one : Bytes
one = 1 ∷ 2 ∷ 3 ∷ []

abbrev two : Bytes
two = 4 ∷ 60 ∷ 5 ∷ []

-- The first message comes in two chunks and a line, the second in a line.
abbrev cut : List Read
cut = overran (1 ∷ []) ∷ overran (2 ∷ []) ∷ line (framed (3 ∷ [])) ∷ line (framed two) ∷ []

read_messages-Delivers_example : read_messages [] cut ≡ map rstrip (one ∷ two ∷ [])
read_messages-Delivers_example = read_messages-Delivers (one ∷ two ∷ []) cut (
    message ((1 ∷ []) ∷ (2 ∷ []) ∷ []) (3 ∷ []) (two ∷ []) (line (framed two) ∷ [])
      (message [] two [] [] nothing))

turn_overrun-parts_example :
    turn_overrun ((9 ∷ 8 ∷ []) ∷ parts (one ∷ two ∷ []) ∷ [])
    ≡ task ((9 ∷ 8 ∷ 1 ∷ 2 ∷ 3 ∷ []) ∷ two ∷ [])
unfolding rstrip
turn_overrun-parts_example =
    turn_overrun-parts ((9 ∷ 8 ∷ []) ∷ []) [] one (two ∷ []) (refl, tt)
      ((refl, (refl, (refl, tt))), ((refl, (refl, (refl, tt))), tt)) (refl, (refl, tt))

-- A chunk with two separators and nothing else, and a message whose last bytes are of the
-- separator's kind.
no_part : turn_overrun (parts ([] ∷ [] ∷ []) ∷ []) ≡ raises
unfolding turn_overrun
no_part = refl

stripped : turn_line (framed (7 ∷ 62 ∷ 33 ∷ [])) ≡ task ((7 ∷ []) ∷ [])
unfolding turn_line
stripped = refl
