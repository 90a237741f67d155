-- ===== src/Map.antt =====
-- `BTreeMap` and `HashMap` of the standard library: entries in ascending order of their keys.
-- Apart from `node_ids`, the program sorts wherever the order of a `HashMap` could show, so one order
-- serves both.
pub mod Laws
pub mod Keys
use drey.Prelude.{
  ℕ, Bool, true, false, Option, none, some, List, [], ◌∷◌, map, Ordering, if◌then◌else◌, is_some,
  unwrap_or, length,
}
use drey.Ord.{Ord, ◌=?◌}

abbrev pub Map {ℓ κ} : Type ℓ → Type κ → Type (ℓ ⊔ κ)
Map K V = List (K × V)

module _ {ℓ κ} {K : Type ℓ} {V : Type κ} ⦃o : Ord K⦄ where
  -- `map.get(&k)`.
  unfoldable pub get : Map K V → K → Option V
  get [] k = none
  get ((j, v) ∷ m) k = if j =? k then some v else get m k

  -- `map.contains_key(&k)`.
  abbrev pub contains_key : Map K V → K → Bool
  contains_key m k = is_some (get m k)

  -- `map.insert(k, v)`: a key that is there already stays, with the new value.
  unfoldable pub insert : Map K V → K → V → Map K V
  insert [] k v = (k, v) ∷ []
  insert ((j, w) ∷ m) k v =
      let rest = insert m k v in
      elim (o.cmp k j) [
        | Ordering.lt ↦ (k, v) ∷ (j, w) ∷ m
        | Ordering.eq ↦ (j, v) ∷ m
        | Ordering.gt ↦ (j, w) ∷ rest
      ]

  -- `map.remove(&k)`.
  unfoldable pub remove : Map K V → K → Map K V
  remove [] k = []
  remove ((j, v) ∷ m) k = let rest = remove m k in if j =? k then rest else (j, v) ∷ rest

  -- `map.get(&k).unwrap_or(&d)`; with `insert` it is `*map.entry(k).or_insert(d)`.
  abbrev pub get_or : Map K V → K → V → V
  get_or m k d = unwrap_or (get m k) d

module _ {ℓ κ} {K : Type ℓ} {V : Type κ} where
  -- `map.keys()` and `map.values()`.
  unfoldable pub keys : Map K V → List K
  keys = map (λ e. e.0)

  unfoldable pub values : Map K V → List V
  values = map (λ e. e.1)
