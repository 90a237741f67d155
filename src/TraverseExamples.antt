-- ===== src/TraverseExamples.antt =====
-- The theorems on traversal, on the sample graph.
use drey.Prelude.{ℕ, ◌≡◌, refl, true, none, some, List, [], ◌∷◌}
use drey.Error.{ok}
use drey.Ord.{nat_ord, cmp_text}
use drey.Map.{get, insert, contains_key}
use drey.Interner
use drey.Types.{outbound, both}
use drey.Store.{validate_label, require_registered, validate_properties, validate_weight}
use drey.Store.Nodes
use drey.Store.Edges
use drey.Store.Consistent.{EdgesAgree}
use drey.Graph.{validate_min_weight, register_node_type, add_node, add_edge}
use drey.Traverse.{
  default_traversal, ShortestPathOptions, NeighborOptions, unweighted_hops, neighbors,
  resolve_type_ids, too_light,
}
use drey.Traverse.Dfs.{traverse}
use drey.Traverse.Walks.{Walk, begin, extend}
use drey.Traverse.Calls.{Traversed, traverse-Traversed}
use drey.Traverse.Steps.{allowed}
use drey.Traverse.Search.{bfs_path}
use drey.Traverse.SearchLaws.{Returned, bfs_path-Returned, allows, walked, bfs_path-Walk}
use drey.Traverse.Neighbors.{Listed, neighbors-Listed}
use drey.Samples.{linked, linked-IsConsistent}

abbrev same : ℕ → ℕ
same n = n

abbrev agree : EdgesAgree linked.store
agree = linked-IsConsistent.edges_agree

start_there : contains_key linked.store.nodes 0 ≡ true
unfolding get register_node_type add_node add_edge Nodes.register_node_type Nodes.add_node
    Edges.add_edge validate_label require_registered validate_properties validate_weight
    Interner.intern insert cmp_text
start_there = refl

no_minimum : validate_min_weight none ≡ ok tt
unfolding validate_min_weight
no_minimum = refl

traverse-Traversed_example :
    Traversed same linked 0 default_traversal agree (traverse same linked 0 default_traversal)
traverse-Traversed_example =
    traverse-Traversed same linked 0 default_traversal agree start_there no_minimum

abbrev any_path : ShortestPathOptions
any_path = record {
  direction = outbound;
  edge_types = [];
  min_weight = none;
  cost_mode = unweighted_hops;
  max_steps = none;
}

bfs_path-Returned_example :
    Returned same linked.store any_path none 0 1 agree
      (bfs_path same linked.store any_path none 0 1)
bfs_path-Returned_example = bfs_path-Returned same linked.store any_path none 0 1 agree

zero_to_one : allows same linked.store any_path none 0 1 agree 0 0 1 ≡ true
unfolding get register_node_type add_node add_edge Nodes.register_node_type Nodes.add_node
    Edges.add_edge validate_label require_registered validate_properties validate_weight
    Interner.intern insert cmp_text too_light
zero_to_one = refl

one_step : Walk (allows same linked.store any_path none 0 1 agree) 0 (1 ∷ 0 ∷ []) (0 ∷ [])
one_step = extend 0 0 1 [] [] begin zero_to_one

bfs_path-Walk_example :
    (ns es : List ℕ) × (bfs_path same linked.store any_path none 0 1
      ≡ ok (some (walked same linked.store any_path none 0 1 agree ns es)))
    × Walk (allows same linked.store any_path none 0 1 agree) 0 (1 ∷ ns) es
bfs_path-Walk_example =
    bfs_path-Walk same linked.store any_path none 0 1 agree (0 ∷ []) (0 ∷ []) refl one_step

abbrev all_around : NeighborOptions
all_around = record { direction = both; edge_types = []; min_weight = none }

neighbors-Listed_example :
    Listed linked.store
      (λ e m. allowed both (resolve_type_ids linked.store []) none 0 (get linked.store.edges e) m)
      (neighbors linked 0 all_around)
neighbors-Listed_example = neighbors-Listed linked 0 all_around agree start_there no_minimum
