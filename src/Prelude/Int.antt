-- ===== src/Prelude/Int.antt =====
-- Signed integers of the source, as a size on either side of zero.
use Prim.Native.Nat.{ℕ, suc, ◌+◌}
use mathlib.Core.Bool.{Bool}
use cipher_lake.Prelude.Tests.{ltb, nat_beq}

-- `negsuc n` is -(n + 1).
pub data ℤ : Type 0 where
  pos : ℕ → ℤ
  negsuc : ℕ → ℤ

abbrev pub above : ℤ → ℕ
above (pos n) = n
above (negsuc n) = 0

abbrev pub below : ℤ → ℕ
below (pos n) = 0
below (negsuc n) = suc n

abbrev pub lt_int : ℤ → ℤ → Bool
lt_int a b = ltb (above a + below b) (above b + below a)

abbrev pub eq_int : ℤ → ℤ → Bool
eq_int a b = nat_beq (above a + below b) (above b + below a)
