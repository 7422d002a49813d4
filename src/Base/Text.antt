-- ===== src/Base/Text.antt =====
-- Prefixes and reversal of texts, character by character.
use Prim.Native.Char.{code}
use Prim.Native.String.{String, [], ◌∷◌, ◌++◌}
use Prim.Native.String.append
use text.Mathlib.TextEquality.{Char-path}
use mathlib.Core.Path.{◌≡◌}
use mathlib.Core.Option.{Option, none, some}
use native.Mathlib.Omega.{arith}
use aiotinyrpc.Base.Tests.{◌==◌, if◌then◌else◌}

-- `s[len(p):]` if `s.startswith(p)`
unfoldable pub strip_prefix : String → String → Option String
strip_prefix [] s = some s
strip_prefix (c ∷ p) [] = none
strip_prefix (c ∷ p) (d ∷ s) = if code c == code d then strip_prefix p s else none

pub strip_prefix-append : (p s : String) → strip_prefix p (p ++ s) ≡ some s
unfolding strip_prefix
strip_prefix-append [] s = rw append.nil
strip_prefix-append (c ∷ p) s = rw append.cons (ground (arith, strip_prefix-append p s))

pub append-strip_prefix : (p s t : String) → strip_prefix p s ≡ some t → s ≡ p ++ t
unfolding strip_prefix
append-strip_prefix [] s t h = rw append.nil (ground arith)
append-strip_prefix (c ∷ p) [] t h = cc
append-strip_prefix (c ∷ p) (d ∷ s) t h =
    rw append.cons (ground (arith, append-strip_prefix p s t, Char-path d c))

-- `s[::-1]`
reverse_onto : String → String → String
reverse_onto [] t = t
reverse_onto (c ∷ s) t = reverse_onto s (c ∷ t)

unfoldable pub reverse : String → String
unfolding reverse_onto
reverse s = reverse_onto s ""
