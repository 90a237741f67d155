-- ===== src/Graph/Matching.antt =====
-- `edges_matching` of drey/src/graph.rs: the edges that a filter names, ascending.
use drey.Prelude.{ℕ, Bool, true, Option, none, some, List, [], ◌∷◌, ◌++◌, if◌then◌else◌}
use drey.Prelude.Membership.{sort, dedup}
use drey.Error.{Result, ok, panic, and_then}
use drey.Ord.{Text, nat_ord}
use drey.Float.{ge32, le32}
use drey.Map.{get, get_or, keys}
use drey.Mutation.{EdgeFilter}
use drey.Interner
use drey.Store.{Store}

-- `self.store.edges[id].weight`, a panic for an id that is not there.
unfoldable pub weight_of : Store → ℕ → Result ℕ
weight_of s id = elim (get s.edges id) [ none ↦ panic | some rec ↦ ok rec.weight ]

-- The ids in the bucket of one type label.
unfoldable pub bucket_of : Store → Text → List ℕ
unfolding Interner.get
bucket_of s t = elim (Interner.get s.edge_types t) [
  | none ↦ []
  | some id ↦ get_or s.edges_by_type id []
]

unfoldable pub bucket_union : Store → List Text → List ℕ
unfolding bucket_of
bucket_union s [] = []
bucket_union s (t ∷ ts) = bucket_of s t ++ bucket_union s ts

-- With no types named, all edges; else the set of those in the buckets of the types.
unfoldable pub candidates : Store → List Text → List ℕ
unfolding bucket_union sort dedup keys
candidates s [] = keys s.edges
candidates s (t ∷ ts) = dedup (sort (bucket_union s (t ∷ ts)))

-- `filter.min_weight.is_none_or(|min| w >= min)`.
unfoldable pub heavy_enough : Option ℕ → ℕ → Bool
unfolding le32
heavy_enough none w = true
heavy_enough (some min) w = ge32 w min

-- The filter over the candidates.
unfoldable pub keep_heavy : Store → Option ℕ → List ℕ → Result (List ℕ)
unfolding weight_of heavy_enough
keep_heavy s min [] = ok []
keep_heavy s min (id ∷ ids) =
    let rest = keep_heavy s min ids in
    and_then (weight_of s id)
      (λ w. and_then rest (λ kept. ok (if heavy_enough min w then id ∷ kept else kept)))

-- `Graph::edges_matching`.
unfoldable pub edges_matching : Store → EdgeFilter → Result (List ℕ)
unfolding candidates keep_heavy sort
edges_matching s filter =
    and_then (keep_heavy s filter.min_weight (candidates s filter.edge_types))
      (λ ids. ok (sort ids))
