-- ===== src/Float.antt =====
-- The Python `float`: the type and the operations that the program uses on it, as an interface.
-- A price, a quantity, a ratio and a point in time in seconds are all values of this type.
pub mod Fixed
use omni_trade.Prelude.{ℕ, Bool, if◌then◌else◌}

pub record Float : Type 1 where
  pub Carrier : Type 0
  -- `literal m k` is the float nearest to m / 10 ^ k: `literal 5 1` is 0.5.
  pub literal : ℕ → ℕ → Carrier
  pub add : Carrier → Carrier → Carrier
  pub sub : Carrier → Carrier → Carrier
  pub mul : Carrier → Carrier → Carrier
  -- The program divides only where it has tested that the divisor is not 0.
  pub div : Carrier → Carrier → Carrier
  -- `round(x)` of the built-ins, to a whole number.
  pub round : Carrier → Carrier
  pub lt : Carrier → Carrier → Bool
  pub le : Carrier → Carrier → Bool
  pub eq : Carrier → Carrier → Bool

abbrev pub F : ⦃fl : Float⦄ → Type 0
F ⦃fl⦄ = fl.Carrier

abbrev pub nought : ⦃fl : Float⦄ → F
nought ⦃fl⦄ = fl.literal 0 0

-- `abs(x)`, `-x`, and `x or 0` for a number.
module _ ⦃fl : Float⦄ where
  abbrev pub negative : F → F
  negative x = fl.sub nought x

  abbrev pub absolute : F → F
  absolute x = if fl.lt x nought then negative x else x
