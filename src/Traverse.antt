-- ===== src/Traverse.antt =====
-- drey/src/traverse.rs: the steps out of a node, neighbours, and the options of the searches.
-- `Dfs` has bounded traversal and `Search` the shortest paths.

pub mod Offers
pub mod Steps
pub mod Dfs
pub mod Walks
pub mod DfsLaws
pub mod Calls
pub mod Search
pub mod Chains
pub mod Discover
pub mod SearchLaws
pub mod Neighbors
use drey.Prelude.{
  ℕ, Bool, true, false, not, ◌&&◌, ◌||◌, Option, none, some, List, [], ◌∷◌, ◌++◌, ◌==◌, length,
  if◌then◌else◌,
}
use drey.Prelude.Membership.{contains}
use drey.Error.{Result, ok, err, panic, guard, and_then, node_not_found}
use drey.Ord.{Text, nat_ord}
use drey.Float.{lt32}
use drey.Map.{get, get_or, contains_key}
use drey.Types.{Direction, outbound, inbound, both}
use drey.Records.{EdgeRecord}
use drey.Interner
use drey.Interner.{Interner}
use drey.Index.{Buckets, Adjacency}
use drey.Store.{Store}
use drey.Graph.{Graph, validate_min_weight}

-- `MAX_TRAVERSAL_HOPS`.
abbrev pub max_traversal_hops : ℕ
max_traversal_hops = 64

-- `Neighbor`.
pub record Neighbor : Type 0 where
  pub node : ℕ
  pub via : ℕ
  pub edge_type : Text
  pub weight : ℕ

-- `NeighborOptions`.
pub record NeighborOptions : Type 0 where
  pub direction : Direction
  pub edge_types : List Text
  pub min_weight : Option ℕ

-- `CyclePolicy` and `CostMode`.
pub data CyclePolicy : Type 0 where
  no_revisit allow_revisit : CyclePolicy

pub data CostMode : Type 0 where
  unweighted_hops weighted_cost : CostMode

-- `TraversalOptions`.
pub record TraversalOptions : Type 0 where
  pub max_hops : Option ℕ
  pub direction : Direction
  pub edge_types : List Text
  pub min_weight : Option ℕ
  pub max_paths : ℕ
  pub cycle_policy : CyclePolicy

-- `TraversalOptions::default()`.
abbrev pub default_traversal : TraversalOptions
default_traversal = record {
  max_hops = none;
  direction = outbound;
  edge_types = [];
  min_weight = none;
  max_paths = 1000;
  cycle_policy = no_revisit;
}

-- `ShortestPathOptions`.
pub record ShortestPathOptions : Type 0 where
  pub direction : Direction
  pub edge_types : List Text
  pub min_weight : Option ℕ
  pub cost_mode : CostMode
  pub max_steps : Option ℕ

-- `Path`.
pub record GraphPath : Type 0 where
  pub nodes : List ℕ
  pub edges : List ℕ
  pub cost : ℕ

-- A step: the edge, and its other endpoint.
abbrev pub Hop : Type 0
Hop = ℕ × ℕ

-- The filter on edge types, a set of ids or all.
abbrev pub wanted : Option (List ℕ) → ℕ → Bool
wanted none t = true
wanted (some types) t = contains types t

-- `rec.weight < min`.
unfoldable pub too_light : Option ℕ → ℕ → Bool
unfolding lt32
too_light none w = false
too_light (some min) w = lt32 w min

module _ (s : Store) (min_weight : Option ℕ) (take_to skip_self_loops : Bool) where
  -- The body of the inner loop of `push_from`, behind the lookup of the record.
  abbrev pub hop_of : ℕ → EdgeRecord → List Hop
  hop_of e rec =
      if skip_self_loops && rec.source == rec.target
      then []
      else if too_light min_weight rec.weight
      then []
      else (e, if take_to then rec.target else rec.source) ∷ []

  -- `&self.store.edges[e]` of an edge that is not there panics.
  unfoldable pub hops_of_edges : List ℕ → Result (List Hop)
  hops_of_edges [] = ok []
  hops_of_edges (e ∷ es) =
      let rest = hops_of_edges es in
      elim (get s.edges e) [
        | none ↦ panic
        | some rec ↦ and_then rest (λ hops. ok (hop_of e rec ++ hops))
      ]

  -- The outer loop.
  unfoldable pub hops_of_types : Option (List ℕ) → Buckets → Result (List Hop)
  unfolding hops_of_edges
  hops_of_types type_ids [] = ok []
  hops_of_types type_ids ((etype, es) ∷ by_type) =
      let rest = hops_of_types type_ids by_type in
      if wanted type_ids etype
      then and_then (hops_of_edges es) (λ hops. and_then rest (λ others. ok (hops ++ others)))
      else rest

  -- `push_from`: what it appends.
  unfoldable pub push_from : Option (List ℕ) → Adjacency → ℕ → Result (List Hop)
  unfolding hops_of_types
  push_from type_ids adj node = hops_of_types type_ids (get_or adj node [])

-- `Graph::steps`.
unfoldable pub steps : Store → ℕ → Direction → Option (List ℕ) → Option ℕ → Result (List Hop)
unfolding push_from
steps s node outbound type_ids min_weight =
    push_from s min_weight true false type_ids s.out_adj node
steps s node inbound type_ids min_weight = push_from s min_weight false false type_ids s.in_adj node
steps s node both type_ids min_weight =
    and_then (push_from s min_weight true false type_ids s.out_adj node) (λ out.
      and_then (push_from s min_weight false true type_ids s.in_adj node) (λ inn. ok (out ++ inn)))

-- `types.iter().filter_map(..)`: the ids of the labels that are interned.
unfoldable pub interned_ids : Interner → List Text → List ℕ
unfolding Interner.get
interned_ids i [] = []
interned_ids i (t ∷ ts) =
    let rest = interned_ids i ts in elim (Interner.get i t) [ none ↦ rest | some id ↦ id ∷ rest ]

-- `Graph::resolve_type_ids`.
unfoldable pub resolve_type_ids : Store → List Text → Option (List ℕ)
unfolding interned_ids
resolve_type_ids s [] = none
resolve_type_ids s (t ∷ ts) = some (interned_ids s.edge_types (t ∷ ts))

-- The closure of `neighbors`; the record and the label are unwrapped.
unfoldable pub neighbor_of : Store → Hop → Result Neighbor
neighbor_of s (e, other) = elim (get s.edges e) [
  | none ↦ panic
  | some rec ↦ elim (Interner.label s.edge_types rec.edge_type) [
    | none ↦ panic
    | some label ↦ ok (record { node = other; via = e; edge_type = label; weight = rec.weight })
  ]
]

unfoldable pub neighbors_of : Store → List Hop → Result (List Neighbor)
unfolding neighbor_of
neighbors_of s [] = ok []
neighbors_of s (h ∷ hs) =
    let rest = neighbors_of s hs in
    and_then (neighbor_of s h) (λ n. and_then rest (λ ns. ok (n ∷ ns)))

-- `Graph::neighbors`.
unfoldable pub neighbors : Graph → ℕ → NeighborOptions → Result (List Neighbor)
unfolding steps resolve_type_ids neighbors_of
neighbors g node opts =
    let s = g.store in
    and_then (validate_min_weight opts.min_weight) (λ _.
      and_then (guard (contains_key s.nodes node) (node_not_found node)) (λ _.
        and_then (steps s node opts.direction (resolve_type_ids s opts.edge_types) opts.min_weight)
          (neighbors_of s)))
