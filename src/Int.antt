-- ===== src/Int.antt =====
-- Signed integers, and an `i64` as the bits that it is written with.
use drey.Prelude.{ℕ, ◌-◌, ◌^◌, ◌<◌, ◌≡◌, Bool, true, compare, Ordering, ltb, arith, if◌then◌else◌}

-- `negsuc n` is -(n + 1).
pub data ℤ : Type 0 where
  pos : ℕ → ℤ
  negsuc : ℕ → ℤ

-- `i64::cmp`.
unfoldable pub cmp_ℤ : ℤ → ℤ → Ordering
cmp_ℤ (pos m) (pos n) = compare m n
cmp_ℤ (pos m) (negsuc n) = Ordering.gt
cmp_ℤ (negsuc m) (pos n) = Ordering.lt
cmp_ℤ (negsuc m) (negsuc n) = compare n m

-- The range of an `i64`.
abbrev pub fits_i64 : ℤ → Bool
fits_i64 (pos n) = ltb n (2 ^ 63)
fits_i64 (negsuc n) = ltb n (2 ^ 63)

-- Two's complement.
unfoldable pub to_bits : ℤ → ℕ
to_bits (pos n) = n
to_bits (negsuc n) = 2 ^ 64 - 1 - n

unfoldable pub of_bits : ℕ → ℤ
of_bits w = if ltb w (2 ^ 63) then pos w else negsuc (2 ^ 64 - 1 - w)

pub of_bits-to_bits : (i : ℤ) → fits_i64 i ≡ true → of_bits (to_bits i) ≡ i
unfolding of_bits to_bits
of_bits-to_bits (pos n) h = ground arith
of_bits-to_bits (negsuc n) h = ground arith

pub to_bits-lt : (i : ℤ) → fits_i64 i ≡ true → to_bits i < 2 ^ 64
unfolding to_bits
to_bits-lt (pos n) h = ground arith
to_bits-lt (negsuc n) h = omega arith
