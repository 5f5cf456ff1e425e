-- ===== src/Prelude/Integers.antt =====
-- Integers, with the tests that the source makes.
use Prim.Native.Nat.{ℕ}
use mathlib.Core.Path.{◌≡◌}
use mathlib.Core.Logic.{◌↔◌}
use mathlib.Core.Bool.{Bool, true, false}
use native.Mathlib.Omega.{arith}
use omni_trade.Prelude.Tests.{ltb, eqb}

-- `negsuc n` is -1 - n.
pub data ℤ : Type 0 where
  pos negsuc : ℕ → ℤ

-- `z > n`, for an `n` that is not negative.
abbrev pub exceeds : ℕ → ℤ → Bool
exceeds n (pos z) = ltb n z
exceeds n (negsuc z) = false

abbrev pub is_one : ℤ → Bool
is_one (pos z) = eqb z 1
is_one (negsuc z) = false

pub is_one-pos : (z : ℤ) → (is_one z ≡ true) ↔ (z ≡ pos 1)
is_one-pos (pos z) = ((λ h. cc (z_one h)), λ h. ground (arith, h))
  where
    z_one : eqb z 1 ≡ true → z ≡ 1
    z_one h = ground (arith, h)
is_one-pos (negsuc z) = ((λ h. absurd (cc h)), λ h. absurd (cc h))
