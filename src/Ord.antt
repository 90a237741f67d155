-- ===== src/Ord.antt =====
-- Orders on keys, as `BTreeMap` and the sorts use them, and the bytes of a Rust `String`.
use drey.Prelude.{
  ℕ, ◌≡◌, refl, ◌↔◌, Bool, true, false, List, [], ◌∷◌, compare, Ordering, arith, Ordering-cases,
  inl, inr,
}

-- `Ord::cmp`.
pub record Ord {ℓ} (K : Type ℓ) : Type ℓ where
  pub cmp : K → K → Ordering

-- What the keyed containers rely on.
pub record LawfulOrd {ℓ} {K : Type ℓ} (o : Ord K) : Type ℓ where
  pub cmp-refl : (a : K) → o.cmp a a ≡ Ordering.eq
  pub eq_of_cmp : (a b : K) → o.cmp a b ≡ Ordering.eq → a ≡ b
  pub cmp-flip : (a b : K) → o.cmp a b ≡ Ordering.gt → o.cmp b a ≡ Ordering.lt
  pub cmp-trans :
      (a b c : K) → o.cmp a b ≡ Ordering.lt → o.cmp b c ≡ Ordering.lt → o.cmp a c ≡ Ordering.lt

abbrev pub is_eq : Ordering → Bool
is_eq Ordering.eq = true
is_eq Ordering.lt = false
is_eq Ordering.gt = false

-- `Ordering::reverse` and `Ordering::then`.
abbrev pub flip : Ordering → Ordering
flip Ordering.lt = Ordering.gt
flip Ordering.eq = Ordering.eq
flip Ordering.gt = Ordering.lt

abbrev pub then_cmp : Ordering → Ordering → Ordering
then_cmp Ordering.lt d = Ordering.lt
then_cmp Ordering.eq d = d
then_cmp Ordering.gt d = Ordering.gt

-- Equality of keys is what the order says.
infix 50 ◌=?◌
abbrev pub ◌=?◌ {ℓ} : {K : Type ℓ} ⦃o : Ord K⦄ → K → K → Bool
◌=?◌ ⦃o⦄ a b = is_eq (o.cmp a b)

instance abbrev pub nat_ord : Ord ℕ
nat_ord = record { cmp = compare }

-- A `String` is its UTF-8 bytes; `str`'s order is the lexicographic order of the bytes.
abbrev pub Text : Type 0
Text = List ℕ

unfoldable pub cmp_text : Text → Text → Ordering
cmp_text [] [] = Ordering.eq
cmp_text [] (b ∷ bs) = Ordering.lt
cmp_text (a ∷ as') [] = Ordering.gt
cmp_text (a ∷ as') (b ∷ bs) = then_cmp (compare a b) (cmp_text as' bs)

instance abbrev pub text_ord : Ord Text
text_ord = record { cmp = cmp_text }

-- Pairs compare by the first component, then by the second.
instance abbrev pub pair_ord {ℓ κ} : {A : Type ℓ} {B : Type κ} ⦃a : Ord A⦄ ⦃b : Ord B⦄ → Ord (A × B)
pair_ord ⦃a⦄ ⦃b⦄ = record { cmp = λ x y. then_cmp (a.cmp x.0 y.0) (b.cmp x.1 y.1) }

module _ {ℓ} {K : Type ℓ} ⦃o : Ord K⦄ ⦃l : LawfulOrd o⦄ where
  pub =?_refl : (a : K) → (a =? a) ≡ true
  =?_refl a = ground (arith, l.cmp-refl a)

  pub =?_iff : (a b : K) → ((a =? b) ≡ true) ↔ (a ≡ b)
  =?_iff a b = (λ h. l.eq_of_cmp a b (ground arith), λ e. ground (arith, l.cmp-refl a))

  pub gt_of_lt : (j k : K) → o.cmp j k ≡ Ordering.lt → o.cmp k j ≡ Ordering.gt
  gt_of_lt j k h = elim (Ordering-cases (o.cmp k j)) [
    | inl lt ↦ absurd (ground (arith, l.cmp-trans j k j h lt, l.cmp-refl j))
    | inr (inl e) ↦ absurd (ground (arith, l.eq_of_cmp k j e, l.cmp-refl j))
    | inr (inr gt) ↦ gt
  ]

nat_trans :
    (a b c : ℕ) → compare a b ≡ Ordering.lt → compare b c ≡ Ordering.lt → compare a c ≡ Ordering.lt
nat_trans a b c p q = ground arith

nat_flip : (a b : ℕ) → compare a b ≡ Ordering.gt → compare b a ≡ Ordering.lt
nat_flip a b h = ground arith

nat_eq : (a b : ℕ) → compare a b ≡ Ordering.eq → a ≡ b
nat_eq a b h = ground arith

nat_refl : (a : ℕ) → compare a a ≡ Ordering.eq
nat_refl a = ground arith

instance pub nat_lawful : LawfulOrd nat_ord
nat_lawful = record {
  cmp-refl = nat_refl;
  eq_of_cmp = nat_eq;
  cmp-flip = nat_flip;
  cmp-trans = nat_trans;
}

text_refl : (a : Text) → cmp_text a a ≡ Ordering.eq
unfolding cmp_text
text_refl [] = refl
text_refl (a ∷ as') = ground (arith, text_refl as')

text_eq : (a b : Text) → cmp_text a b ≡ Ordering.eq → a ≡ b
unfolding cmp_text
text_eq [] [] h = refl
text_eq [] (b ∷ bs) h = absurd (ground arith)
text_eq (a ∷ as') [] h = absurd (ground arith)
text_eq (a ∷ as') (b ∷ bs) h = ground (arith, text_eq as' bs)

text_flip : (a b : Text) → cmp_text a b ≡ Ordering.gt → cmp_text b a ≡ Ordering.lt
unfolding cmp_text
text_flip [] [] h = absurd (ground arith)
text_flip [] (b ∷ bs) h = absurd (ground arith)
text_flip (a ∷ as') [] h = refl
text_flip (a ∷ as') (b ∷ bs) h = ground (arith, text_flip as' bs)

text_trans :
    (a b c : Text)
    → cmp_text a b ≡ Ordering.lt
    → cmp_text b c ≡ Ordering.lt
    → cmp_text a c ≡ Ordering.lt
unfolding cmp_text
text_trans [] [] c p q = q
text_trans [] (b ∷ bs) [] p q = absurd (ground arith)
text_trans [] (b ∷ bs) (c ∷ cs) p q = refl
text_trans (a ∷ as') [] c p q = absurd (ground arith)
text_trans (a ∷ as') (b ∷ bs) [] p q = absurd (ground arith)
text_trans (a ∷ as') (b ∷ bs) (c ∷ cs) p q = ground (arith, text_trans as' bs cs)

instance pub text_lawful : LawfulOrd text_ord
text_lawful = record {
  cmp-refl = text_refl;
  eq_of_cmp = text_eq;
  cmp-flip = text_flip;
  cmp-trans = text_trans;
}
