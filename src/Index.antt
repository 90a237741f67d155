-- ===== src/Index.antt =====
-- The index helpers of drey/src/store.rs: buckets of ids, adjacency, and the property index.
pub mod Buckets
pub mod Scalars
pub mod Posts
pub mod Lookups
pub mod Distinct
use drey.Prelude.{
  ℕ, Bool, true, false, Option, none, some, List, [], ◌∷◌, ◌++◌, ◌≡◌, if◌then◌else◌, unwrap_or,
}
use drey.Prelude.Membership.{retain_ne}
use drey.Ord.{Ord, Text, text_ord, nat_ord, pair_ord}
use drey.Map.{Map, get, get_or, insert, remove, contains_key}
use drey.Types.{Scalar, Value, Properties, as_scalar, scalar_key}

-- `key -> [id]`.
abbrev pub Buckets : Type 0
Buckets = Map ℕ (List ℕ)

-- `node -> edge_type -> [edge_id]`.
abbrev pub Adjacency : Type 0
Adjacency = Map ℕ Buckets

-- `(node_type, key) -> value -> [node_id]`.
abbrev pub PropIndex : Type 0
PropIndex = Map (ℕ × Text) (Map Scalar (List ℕ))

-- `v.is_empty()`.
abbrev pub is_empty {ℓ} : {A : Type ℓ} → List A → Bool
is_empty [] = true
is_empty (x ∷ xs) = false

module _ {ℓ} {K : Type ℓ} ⦃o : Ord K⦄ where
  -- `map.entry(key).or_default().push(value)`.
  unfoldable pub push_to : Map K (List ℕ) → K → ℕ → Map K (List ℕ)
  push_to m k v = insert m k (get_or m k [] ++ v ∷ [])

  -- `remove_from_vec`.
  unfoldable pub remove_from_vec : Map K (List ℕ) → K → ℕ → Map K (List ℕ)
  remove_from_vec m k v = elim (get m k) [
    | none ↦ m
    | some ids ↦ let left = retain_ne v ids in if is_empty left then remove m k else insert m k left
  ]

-- `map.entry(key).or_default()`.
unfoldable pub open_bucket : Buckets → ℕ → Buckets
open_bucket m k = if contains_key m k then m else insert m k []

unfoldable pub adj_insert : Adjacency → ℕ → ℕ → ℕ → Adjacency
unfolding push_to
adj_insert adj node etype edge = insert adj node (push_to (get_or adj node []) etype edge)

unfoldable pub adj_remove : Adjacency → ℕ → ℕ → ℕ → Adjacency
unfolding remove_from_vec
adj_remove adj node etype edge = elim (get adj node) [
  | none ↦ adj
  | some types ↦
      let left = remove_from_vec types etype edge in
      if is_empty left then remove adj node else insert adj node left
]

-- Where a value's id goes: the body of the loop of `index_node_properties`.
unfoldable pub index_value : ℕ → Text → ℕ → Option Scalar → PropIndex → PropIndex
unfolding push_to
index_value type_id key node none index = index
index_value type_id key node (some v) index =
    insert index (type_id, key) (push_to (get_or index (type_id, key) []) v node)

-- The body of the loop of `unindex_node_properties`: emptied containers are pruned.
unfoldable pub unindex_value : ℕ → Text → ℕ → Option Scalar → PropIndex → PropIndex
unfolding remove_from_vec
unindex_value type_id key node none index = index
unindex_value type_id key node (some v) index = elim (get index (type_id, key)) [
  | none ↦ index
  | some tree ↦
      let left = remove_from_vec tree v node in
      if is_empty left then remove index (type_id, key) else insert index (type_id, key) left
]

-- The set of indexed `(node_type, key)` pairs, by label.
abbrev pub Indexed : Type 0
Indexed = Map (Text × Text) (Unit {0})

module _ (indexed : Indexed) (type_id : ℕ) (label : Text) (node : ℕ) where
  -- `index_node_properties`.
  unfoldable pub index_node_properties : Properties → PropIndex → PropIndex
  unfolding index_value
  index_node_properties [] index = index
  index_node_properties ((key, value) ∷ p) index = index_node_properties p (
      if contains_key indexed (label, key)
      then index_value type_id key node (as_scalar value) index
      else index)

  -- `unindex_node_properties`.
  unfoldable pub unindex_node_properties : Properties → PropIndex → PropIndex
  unfolding unindex_value
  unindex_node_properties [] index = index
  unindex_node_properties ((key, value) ∷ p) index = unindex_node_properties p (
      if contains_key indexed (label, key)
      then unindex_value type_id key node (as_scalar value) index
      else index)
