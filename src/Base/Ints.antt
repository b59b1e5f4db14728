-- ===== src/Base/Ints.antt =====
-- The integers over the native numbers, with Boolean tests.
use Prim.Native.Nat.{ℕ, zero, suc}
use mathlib.Core.Bool.{Bool, true, false}
use spicy.Base.Tests.{ltb, ◌==◌}

-- `negsuc n` is below zero by one more than `n`.
pub data ℤ : Type 0 where
  pos negsuc : ℕ → ℤ

abbrev pub less : ℤ → ℤ → Bool
less (pos m) (pos n) = ltb m n
less (pos m) (negsuc n) = false
less (negsuc m) (pos n) = true
less (negsuc m) (negsuc n) = ltb n m

abbrev pub same : ℤ → ℤ → Bool
same (pos m) (pos n) = m == n
same (negsuc m) (negsuc n) = m == n
same _ _ = false

-- From a sign, true for a minus, and a magnitude.
abbrev pub of_sign : Bool × ℕ → ℤ
of_sign (false, n) = pos n
of_sign (true, zero) = pos 0
of_sign (true, suc n) = negsuc n
