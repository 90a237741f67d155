-- ===== src/Float.antt =====
-- `f32` and `f64` by their bit patterns: the tests and comparisons of IEEE 754 that the program
-- makes. Arithmetic, which rounds, is the parameter `Arith32`.
use drey.Prelude.{
  ℕ, ◌+◌, ◌-◌, ◌*◌, ◌/◌, ◌%◌, ◌^◌, Bool, true, false, not, ◌&&◌, ◌||◌, compare, Ordering, leb, ◌==◌,
  if◌then◌else◌,
}
use drey.Int.{ℤ, pos, negsuc}

-- The addition and the multiplication of the processor.
pub record Arith32 : Type 0 where
  pub add : ℕ → ℕ → ℕ
  pub mul : ℕ → ℕ → ℕ

-- A bit pattern: the sign, and the magnitude below it.
abbrev pub sign32 : ℕ → Bool
sign32 x = leb (2 ^ 31) x

abbrev pub magnitude32 : ℕ → ℕ
magnitude32 x = x % 2 ^ 31

-- `x.is_finite()`: the exponent is not all ones.
unfoldable pub is_finite32 : ℕ → Bool
is_finite32 x = not (leb 0x7f80_0000 (magnitude32 x))

-- `x.is_nan()`.
unfoldable pub is_nan32 : ℕ → Bool
is_nan32 x = not (leb (magnitude32 x) 0x7f80_0000)

abbrev pub signed_cmp : Bool → Bool → ℕ → ℕ → Ordering
signed_cmp false false a b = compare a b
signed_cmp false true a b = Ordering.gt
signed_cmp true false a b = Ordering.lt
signed_cmp true true a b = compare b a

-- `a.total_cmp(&b)`.
unfoldable pub total_cmp32 : ℕ → ℕ → Ordering
total_cmp32 x y = signed_cmp (sign32 x) (sign32 y) (magnitude32 x) (magnitude32 y)

-- The order of two numbers that are no NaN: the zeros are equal.
unfoldable pub num_cmp32 : ℕ → ℕ → Ordering
unfolding total_cmp32
num_cmp32 x y = if magnitude32 x == 0 && magnitude32 y == 0 then Ordering.eq else total_cmp32 x y

-- `x < y`, `x <= y` and `x >= y`, false where one is a NaN.
unfoldable pub lt32 : ℕ → ℕ → Bool
unfolding is_nan32 num_cmp32
lt32 x y = not (is_nan32 x || is_nan32 y) && elim (num_cmp32 x y) [ Ordering.lt ↦ true | _ ↦ false ]

unfoldable pub le32 : ℕ → ℕ → Bool
unfolding is_nan32 num_cmp32
le32 x y = not (is_nan32 x || is_nan32 y) && elim (num_cmp32 x y) [ Ordering.gt ↦ false | _ ↦ true ]

abbrev pub ge32 : ℕ → ℕ → Bool
ge32 x y = le32 y x

-- `f32::max` and `f32::min`, at numbers that are no NaN. Of two zeros either may be the result.
unfoldable pub max32 : ℕ → ℕ → ℕ
unfolding lt32
max32 x y = if lt32 x y then y else x

unfoldable pub min32 : ℕ → ℕ → ℕ
unfolding lt32
min32 x y = if lt32 y x then y else x

abbrev pub sign64 : ℕ → Bool
sign64 x = leb (2 ^ 63) x

abbrev pub magnitude64 : ℕ → ℕ
magnitude64 x = x % 2 ^ 63

unfoldable pub is_nan64 : ℕ → Bool
is_nan64 x = not (leb (magnitude64 x) 0x7ff0_0000_0000_0000)

unfoldable pub total_cmp64 : ℕ → ℕ → Ordering
total_cmp64 x y = signed_cmp (sign64 x) (sign64 y) (magnitude64 x) (magnitude64 y)

-- The absolute value of a finite number in units of 2 ^ -1074.
unfoldable pub units64 : ℕ → ℕ
units64 x =
    let e = magnitude64 x / 2 ^ 52 in
    let m = x % 2 ^ 52 in if e == 0 then m else (m + 2 ^ 52) * 2 ^ (e - 1)

-- `f.floor()` of a finite number, as the integer that it is.
unfoldable pub floor64 : ℕ → ℤ
unfolding units64
floor64 x =
    let u = units64 x in
    let up = (u + 2 ^ 1074 - 1) / 2 ^ 1074 in
    if sign64 x then (if up == 0 then pos 0 else negsuc (up - 1)) else pos (u / 2 ^ 1074)

-- `f > f.floor()`.
unfoldable pub has_fraction64 : ℕ → Bool
unfolding units64
has_fraction64 x = not (units64 x % 2 ^ 1074 == 0)
