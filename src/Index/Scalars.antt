-- ===== src/Index/Scalars.antt =====
-- What the property index needs of `Scalar::total_order` of drey/src/types.rs, and of pairs of keys.
use drey.Prelude.{ℕ, ◌≡◌, refl, Bool, true, false, compare, Ordering, arith, [], ◌∷◌}
use drey.Ord.{
  LawfulOrd, flip, nat_ord, nat_lawful, text_ord, text_lawful, pair_ord, Text, then_cmp, cmp_text,
}
use drey.Int.{ℤ, pos, negsuc, cmp_ℤ}
use drey.Float.{total_cmp64, is_nan64, sign64, magnitude64, signed_cmp}
use drey.Types.{Scalar, total_order, cmp_f64, cmp_i64_f64, norm, by_nan}

flip-flip : (c : Ordering) → flip (flip c) ≡ c
flip-flip Ordering.lt = refl
flip-flip Ordering.eq = refl
flip-flip Ordering.gt = refl

flip-compare : (a b : ℕ) → compare b a ≡ flip (compare a b)
flip-compare a b = ground arith

flip_text : (a b : Text) → cmp_text b a ≡ flip (cmp_text a b)
unfolding cmp_text
flip_text [] [] = refl
flip_text [] (b ∷ bs) = refl
flip_text (a ∷ as') [] = refl
flip_text (a ∷ as') (b ∷ bs) = ground (arith, flip_text as' bs, flip-compare a b)

flip_ℤ : (a b : ℤ) → cmp_ℤ b a ≡ flip (cmp_ℤ a b)
unfolding cmp_ℤ
flip_ℤ (pos m) (pos n) = flip-compare m n
flip_ℤ (pos m) (negsuc n) = refl
flip_ℤ (negsuc m) (pos n) = refl
flip_ℤ (negsuc m) (negsuc n) = flip-compare n m

flip_signed : (s t : Bool) (a b : ℕ) → signed_cmp t s b a ≡ flip (signed_cmp s t a b)
flip_signed true true a b = flip-compare b a
flip_signed true false a b = refl
flip_signed false true a b = refl
flip_signed false false a b = flip-compare a b

flip-total_cmp64 : (a b : ℕ) → total_cmp64 b a ≡ flip (total_cmp64 a b)
unfolding total_cmp64
flip-total_cmp64 a b = flip_signed (sign64 a) (sign64 b) (magnitude64 a) (magnitude64 b)

flip-by_nan : (s t : Bool) (c d : Ordering) → d ≡ flip c → by_nan t s d ≡ flip (by_nan s t c)
flip-by_nan true true c d h = refl
flip-by_nan true false c d h = refl
flip-by_nan false true c d h = refl
flip-by_nan false false c d h = h

flip-cmp_f64 : (a b : ℕ) → cmp_f64 b a ≡ flip (cmp_f64 a b)
unfolding cmp_f64
flip-cmp_f64 a b =
    flip-by_nan (is_nan64 a) (is_nan64 b) (total_cmp64 (norm a) (norm b)) _
      (flip-total_cmp64 (norm a) (norm b))

-- The order of two scalars turned around.
pub flip-total_order : (a b : Scalar) → total_order b a ≡ flip (total_order a b)
unfolding total_order
flip-total_order (Scalar.bool true) (Scalar.bool true) = refl
flip-total_order (Scalar.bool true) (Scalar.bool false) = refl
flip-total_order (Scalar.bool false) (Scalar.bool true) = refl
flip-total_order (Scalar.bool false) (Scalar.bool false) = refl
flip-total_order (Scalar.bool a) (Scalar.i64 b) = refl
flip-total_order (Scalar.bool a) (Scalar.f64 b) = refl
flip-total_order (Scalar.bool a) (Scalar.string b) = refl
flip-total_order (Scalar.i64 a) (Scalar.bool b) = refl
flip-total_order (Scalar.i64 a) (Scalar.i64 b) = flip_ℤ a b
flip-total_order (Scalar.i64 a) (Scalar.f64 b) = refl
flip-total_order (Scalar.i64 a) (Scalar.string b) = refl
flip-total_order (Scalar.f64 a) (Scalar.bool b) = refl
flip-total_order (Scalar.f64 a) (Scalar.i64 b) = ground (arith, flip-flip (cmp_i64_f64 b a))
flip-total_order (Scalar.f64 a) (Scalar.f64 b) = flip-cmp_f64 a b
flip-total_order (Scalar.f64 a) (Scalar.string b) = refl
flip-total_order (Scalar.string a) (Scalar.bool b) = refl
flip-total_order (Scalar.string a) (Scalar.i64 b) = refl
flip-total_order (Scalar.string a) (Scalar.f64 b) = refl
flip-total_order (Scalar.string a) (Scalar.string b) = flip_text a b

eq_of_flip : (c : Ordering) → c ≡ flip c → c ≡ Ordering.eq
eq_of_flip Ordering.eq h = refl
eq_of_flip Ordering.lt h = absurd (ground arith)
eq_of_flip Ordering.gt h = absurd (ground arith)

-- A scalar equals itself, also a NaN.
pub total_order_refl : (a : Scalar) → total_order a a ≡ Ordering.eq
total_order_refl a = eq_of_flip (total_order a a) (flip-total_order a a)

abbrev Key : Type 0
Key = ℕ × Text

key_eq : (a b : ℕ × Text) → then_cmp (compare a.0 b.0) (cmp_text a.1 b.1) ≡ Ordering.eq → a ≡ b
key_eq (m, s) (n, t) h = ground (arith, text_lawful.eq_of_cmp s t)

key_flip :
    (a b : ℕ × Text)
    → then_cmp (compare a.0 b.0) (cmp_text a.1 b.1) ≡ Ordering.gt
    → then_cmp (compare b.0 a.0) (cmp_text b.1 a.1) ≡ Ordering.lt
key_flip (m, s) (n, t) h = ground (arith, flip_text s t, flip-compare m n)

key_trans :
    (a b c : ℕ × Text)
    → then_cmp (compare a.0 b.0) (cmp_text a.1 b.1) ≡ Ordering.lt
    → then_cmp (compare b.0 c.0) (cmp_text b.1 c.1) ≡ Ordering.lt
    → then_cmp (compare a.0 c.0) (cmp_text a.1 c.1) ≡ Ordering.lt
key_trans (a, s) (b, t) (c, u) h k = ground (arith, text_lawful.cmp-trans s t u)

key_refl : (a : ℕ × Text) → then_cmp (compare a.0 a.0) (cmp_text a.1 a.1) ≡ Ordering.eq
key_refl (m, s) = ground (arith, text_lawful.cmp-refl s)

-- The keys of the property index are a lawful order.
instance pub key_lawful : LawfulOrd (pair_ord {A = ℕ} {B = Text})
key_lawful = record {
  cmp-refl = key_refl;
  eq_of_cmp = key_eq;
  cmp-flip = key_flip;
  cmp-trans = key_trans;
}
