-- ===== src/Map/Keys.antt =====
-- The order of the entries: every map that `insert` and `remove` build is sorted, and in a sorted
-- map the entries are exactly what lookups find.
use drey.Prelude.{◌≡◌, refl, Bool, true, false, none, [], ◌∷◌, ◌++◌, Ordering, arith, ◌&&◌}
use drey.Ord.{Ord, LawfulOrd, gt_of_lt}
use drey.Map.{Map, get, insert, remove}

abbrev pub is_lt : Ordering → Bool
is_lt Ordering.lt = true
is_lt Ordering.eq = false
is_lt Ordering.gt = false

module _ {ℓ κ} {K : Type ℓ} {V : Type κ} ⦃o : Ord K⦄ where
  -- Every key of the map is greater than `k`.
  abbrev pub above : K → Map K V → Bool
  above k [] = true
  above k ((j, v) ∷ m) = is_lt (o.cmp k j) && above k m

  -- The keys ascend strictly.
  abbrev pub sorted : Map K V → Bool
  sorted [] = true
  sorted ((j, v) ∷ m) = above j m && sorted m

module _ {ℓ κ} {K : Type ℓ} {V : Type κ} ⦃o : Ord K⦄ ⦃l : LawfulOrd o⦄ where
  above_trans :
      (k j : K) (m : Map K V) → o.cmp k j ≡ Ordering.lt → above j m ≡ true → above k m ≡ true
  above_trans k j [] h a = refl
  above_trans k j ((i, w) ∷ m) h a = ground (arith, l.cmp-trans k j i h, above_trans k j m)

  above-insert :
      (i : K) (m : Map K V) (k : K) (v : V)
      → above i m ≡ true
      → o.cmp i k ≡ Ordering.lt
      → above i (insert m k v) ≡ true
  unfolding insert
  above-insert i [] k v a h = ground arith
  above-insert i ((j, w) ∷ m) k v a h = ground (arith, above-insert i m k v)

  pub sorted-insert : (m : Map K V) (k : K) (v : V) → sorted m ≡ true → sorted (insert m k v) ≡ true
  unfolding insert
  sorted-insert [] k v h = refl
  sorted-insert ((j, w) ∷ m) k v h =
      ground (arith, sorted-insert m k v, above_trans k j m, above-insert j m k v, l.cmp-flip k j)

  above-remove : (i : K) (m : Map K V) (k : K) → above i m ≡ true → above i (remove m k) ≡ true
  unfolding remove
  above-remove i [] k a = refl
  above-remove i ((j, w) ∷ m) k a = ground (arith, above-remove i m k)

  pub sorted-remove : (m : Map K V) (k : K) → sorted m ≡ true → sorted (remove m k) ≡ true
  unfolding remove
  sorted-remove [] k h = refl
  sorted-remove ((j, w) ∷ m) k h = ground (arith, sorted-remove m k, above-remove j m k)

  -- A key below all keys is not there.
  pub get-above : (k : K) (m : Map K V) → above k m ≡ true → get m k ≡ none
  unfolding get
  get-above k [] a = refl
  get-above k ((j, w) ∷ m) a = ground (arith, get-above k m, l.eq_of_cmp j k, l.cmp-refl j)

  -- A key that is greater than every key is inserted at the end.
  abbrev pub below : Map K V → K → Bool
  below [] k = true
  below ((j, w) ∷ m) k = is_lt (o.cmp j k) && below m k

  pub insert_last :
      (m : Map K V) (k : K) (v : V) → below m k ≡ true → insert m k v ≡ m ++ (k, v) ∷ []
  unfolding insert
  insert_last [] k v h = refl
  insert_last ((j, w) ∷ m) k v h = ground (arith, gt_of_lt j k, insert_last m k v)

  pub below-append :
      (m : Map K V) (j k : K) (w : V)
      → below m k ≡ true
      → o.cmp j k ≡ Ordering.lt
      → below (m ++ (j, w) ∷ []) k ≡ true
  below-append [] j k w h e = ground arith
  below-append ((i, x) ∷ m) j k w h e = ground (arith, below-append m j k w)
