-- ===== src/Float/Fixed.antt =====
-- An instance of the interface: decimal numbers in millionths, cut off where a result has more
-- digits. With it the model runs.
use omni_trade.Prelude.{
  ℕ, suc, ◌+◌, ◌-◌, ◌*◌, ◌/◌, ◌%◌, ◌^◌, Bool, true, false, not, ltb, leb, eqb, if◌then◌else◌,
}
use omni_trade.Float.{Float}

-- `negsuc n` is -(n + 1) millionths.
pub data Millionths : Type 0 where
  pos negsuc : ℕ → Millionths

abbrev pub difference : ℕ → ℕ → Millionths
difference a b = if leb b a then pos (a - b) else negsuc (b - a - 1)

abbrev negate : ℕ → Millionths
negate n = difference 0 n

abbrev pub scale : ℕ
scale = 1_000_000

abbrev pub plus : Millionths → Millionths → Millionths
plus (pos a) (pos b) = pos (a + b)
plus (pos a) (negsuc b) = difference a (suc b)
plus (negsuc a) (pos b) = difference b (suc a)
plus (negsuc a) (negsuc b) = negsuc (suc (a + b))

abbrev pub opposite : Millionths → Millionths
opposite (pos a) = negate a
opposite (negsuc a) = pos (suc a)

-- An operation on the absolute values, with the sign of a product.
abbrev signed : (ℕ → ℕ → ℕ) → Millionths → Millionths → Millionths
signed f (pos a) (pos b) = pos (f a b)
signed f (pos a) (negsuc b) = negate (f a (suc b))
signed f (negsuc a) (pos b) = negate (f (suc a) b)
signed f (negsuc a) (negsuc b) = pos (f (suc a) (suc b))

abbrev pub times : Millionths → Millionths → Millionths
times = signed λ a b. a * b / scale

abbrev pub over : Millionths → Millionths → Millionths
over = signed λ a b. a * scale / b

-- Half to even, as `round` does.
abbrev whole : ℕ → ℕ
whole n =
    let q = n / scale in
    let r = 2 * (n % scale) in
    if ltb r scale then q else if ltb scale r then q + 1 else if eqb (q % 2) 0 then q else q + 1

abbrev pub rounded : Millionths → Millionths
rounded (pos n) = pos (whole n * scale)
rounded (negsuc n) = negate (whole (suc n) * scale)

abbrev pub below : Millionths → Millionths → Bool
below (pos a) (pos b) = ltb a b
below (pos a) (negsuc b) = false
below (negsuc a) (pos b) = true
below (negsuc a) (negsuc b) = ltb b a

abbrev pub same : Millionths → Millionths → Bool
same (pos a) (pos b) = eqb a b
same (negsuc a) (negsuc b) = eqb a b
same _ _ = false

instance abbrev pub fixed : Float
fixed = record {
  Carrier = Millionths;
  literal = λ m k. pos (m * scale / 10 ^ k);
  add = plus;
  sub = λ a b. plus a (opposite b);
  mul = times;
  div = over;
  round = rounded;
  lt = below;
  le = λ a b. not (below b a);
  eq = same;
}
