-- ===== src/Base/Int.antt =====
-- Signed integers as far as the program counts with them: `negsuc n` is -(n + 1).
use Prim.Native.Nat.{ℕ, zero, suc}
use mathlib.Core.Bool.{Bool, true, false}

pub data ℤ : Type 0 where
  pos : ℕ → ℤ
  negsuc : ℕ → ℤ

abbrev pub inc : ℤ → ℤ
inc (pos n) = pos (suc n)
inc (negsuc zero) = pos 0
inc (negsuc (suc n)) = negsuc n

abbrev pub dec : ℤ → ℤ
dec (pos zero) = negsuc 0
dec (pos (suc n)) = pos n
dec (negsuc n) = negsuc (suc n)

-- x > 0
abbrev pub is_positive : ℤ → Bool
is_positive (pos zero) = false
is_positive (pos (suc n)) = true
is_positive (negsuc n) = false
