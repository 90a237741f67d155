-- ===== src/Store.antt =====
-- drey/src/store.rs: the in-memory graph and its indexes. This file has the state and its gates;
-- `Nodes`, `Edges` and `Load` have the methods, `Consistent` the invariant, and the other modules
-- below the laws of the methods.
pub mod Nodes
pub mod Edges
pub mod Load
pub mod Consistent
pub mod PropIndexed
pub mod EdgeLaws
pub mod NodeLaws
pub mod Incident
pub mod NodeMethods
pub mod Registration
pub mod EdgeMethods
pub mod Patched
pub mod RemoveNode
use drey.Prelude.{
  ℕ, ◌+◌, ◌-◌, ◌^◌, Bool, true, false, not, ◌&&◌, Option, none, some, List, [], ◌∷◌, ltb, leb, ◌==◌,
  length, if◌then◌else◌,
}
use drey.Error.{Error, Result, ok, err, guard, and_then, invalid_property_value, invalid_node_type}
use drey.Ord.{Ord, Text, text_ord, nat_ord, pair_ord}
use drey.Float.{is_finite32}
use drey.Map.{Map, get, contains_key}
use drey.Types.{Value, Properties, is_valid, u32_max}
use drey.Mutation.{PropertyPatch}
use drey.Records.{NodeRecord, EdgeRecord}
use drey.Interner
use drey.Interner.{Interner}
use drey.Index.{Buckets, Adjacency, PropIndex, Indexed}

pub record Store : Type 0 where
  pub nodes : Map ℕ NodeRecord
  pub edges : Map ℕ EdgeRecord
  pub next_node_id : ℕ
  pub next_edge_id : ℕ
  pub node_types : Interner
  pub edge_types : Interner
  pub embedding_dim : Map ℕ (Option ℕ)
  pub out_adj : Adjacency
  pub in_adj : Adjacency
  pub nodes_by_type : Buckets
  pub edges_by_type : Buckets
  pub prop_index : PropIndex
  pub indexed : Indexed

-- `Store::default()`.
abbrev pub empty : Store
empty = record {
  nodes = [];
  edges = [];
  next_node_id = 0;
  next_edge_id = 0;
  node_types = Interner.empty;
  edge_types = Interner.empty;
  embedding_dim = [];
  out_adj = [];
  in_adj = [];
  nodes_by_type = [];
  edges_by_type = [];
  prop_index = [];
  indexed = [];
}

-- `id.checked_add(1)` of a `u64`.
abbrev pub checked_succ : ℕ → Option ℕ
checked_succ id = if ltb (id + 1) (2 ^ 64) then some (id + 1) else none

-- `validate_label`, with the error of the caller's category.
unfoldable pub validate_label : Text → Error → Result (Unit {0})
validate_label label e = guard (leb (length label) u32_max) e

-- `validate_key`.
unfoldable pub validate_key : Text → Result (Unit {0})
validate_key key = guard (leb (length key) u32_max) invalid_property_value

-- `validate_properties`.
unfoldable pub validate_properties : Properties → Result (Unit {0})
unfolding validate_key
validate_properties [] = ok tt
validate_properties ((k, v) ∷ p) =
    let rest = validate_properties p in
    and_then (validate_key k)
      (λ _. and_then (guard (is_valid v) invalid_property_value) (λ _. rest))

-- `validate_weight`.
unfoldable pub validate_weight : ℕ → Result (Unit {0})
unfolding is_finite32
validate_weight w = guard (is_finite32 w) invalid_property_value

-- The loop at the head of `update_edge_properties`.
unfoldable pub validate_patch : PropertyPatch → Result (Unit {0})
unfolding validate_key
validate_patch [] = ok tt
validate_patch ((k, none) ∷ p) =
    let rest = validate_patch p in and_then (validate_key k) (λ _. rest)
validate_patch ((k, some v) ∷ p) =
    let rest = validate_patch p in
    and_then (validate_key k)
      (λ _. and_then (guard (is_valid v) invalid_property_value) (λ _. rest))

-- `embedding.iter().all(|x| x.is_finite())`.
unfoldable pub all_finite : List ℕ → Bool
unfolding is_finite32
all_finite [] = true
all_finite (x ∷ xs) = is_finite32 x && all_finite xs

-- `Store::require_registered`.
unfoldable pub require_registered : Store → Text → Result ℕ
unfolding Interner.get
require_registered s label = elim (Interner.get s.node_types label) [
  | none ↦ err invalid_node_type
  | some id ↦ if contains_key s.embedding_dim id then ok id else err invalid_node_type
]
