-- ===== src/Tests/Tally.antt =====
-- A text for a number, in place of Python's.
use Prim.Native.String.{String, [], ◌∷◌}
use aiotinyrpc.Base.{ℕ, zero, suc, ◌≡◌, refl, sym, ap, ◌∙◌}

unfoldable pub tally : ℕ → String
tally zero = []
tally (suc n) = "i" ∷ tally n

unfoldable ticks : String → ℕ
ticks [] = 0
ticks (c ∷ s) = suc (ticks s)

ticks-tally : (n : ℕ) → ticks (tally n) ≡ n
unfolding ticks tally
ticks-tally zero = refl
ticks-tally (suc n) = ap suc (ticks-tally n)

pub tally_injective : (m n : ℕ) → tally m ≡ tally n → m ≡ n
tally_injective m n h = sym (ticks-tally m) ∙ ap ticks h ∙ ticks-tally n
