-- ===== src/Python/Int.antt =====
-- Python's integers, over the native numbers.
use aiotinyrpc.Base.{ℕ, ◌==◌, Bool, false}

-- `negsuc n` is -(n + 1).
pub data ℤ : Type 0 where
  pos : ℕ → ℤ
  negsuc : ℕ → ℤ

abbrev pub int_eq : ℤ → ℤ → Bool
int_eq (pos a) (pos b) = a == b
int_eq (negsuc a) (negsuc b) = a == b
int_eq _ _ = false
