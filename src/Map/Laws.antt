-- ===== src/Map/Laws.antt =====
-- What a lookup finds after an insertion and after a removal.
use drey.Prelude.{◌≡◌, refl, ap, true, none, some, [], ◌∷◌, arith, if◌then◌else◌}
use drey.Ord.{Ord, LawfulOrd, ◌=?◌, =?_iff}
use drey.Map.{Map, get, insert, remove}

module _ {ℓ κ} {K : Type ℓ} {V : Type κ} ⦃o : Ord K⦄ ⦃l : LawfulOrd o⦄ where
  pub get-insert :
      (m : Map K V) (k j : K) (v : V) → get (insert m k v) j ≡ (if k =? j then some v else get m j)
  unfolding get insert
  get-insert [] k j v = refl
  get-insert ((i, w) ∷ m) k j v =
      ground
        (arith, get-insert m k j v, l.eq_of_cmp k i, l.eq_of_cmp k j, l.eq_of_cmp i j, l.cmp-refl k)

  pub get-remove : (m : Map K V) (k j : K) → get (remove m k) j ≡ (if k =? j then none else get m j)
  unfolding get remove
  get-remove [] k j = ground arith
  get-remove ((i, w) ∷ m) k j =
      ground
        (arith, get-remove m k j, l.eq_of_cmp i k, l.eq_of_cmp i j, l.eq_of_cmp k j, l.cmp-refl k)

  -- Equal keys find the same.
  pub get_of_eq : (m : Map K V) (k j : K) → (k =? j) ≡ true → get m k ≡ get m j
  get_of_eq m k j h = ap (get m) ((=?_iff k j).0 h)
