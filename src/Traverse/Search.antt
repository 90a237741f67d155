-- ===== src/Traverse/Search.antt =====
-- `bfs_path` and `reconstruct` of drey/src/traverse.rs.
use drey.Prelude.{
  ℕ, zero, suc, ◌+◌, Bool, false, Option, none, some, List, [], ◌∷◌, ◌++◌, ltb, ◌==◌, length,
  if◌then◌else◌,
}
use drey.Prelude.Membership.{contains}
use drey.Error.{Result, ok, panic, and_then}
use drey.Ord.{nat_ord}
use drey.Map.{Map, get, insert}
use drey.Store.{Store}
use drey.Traverse.{Hop, GraphPath, ShortestPathOptions, steps}

-- `prev`: node to the node before it and the edge between them.
abbrev pub Prev : Type 0
Prev = Map ℕ (ℕ × ℕ)

-- The loop of `reconstruct`. What it pushes it reverses later, so that the lists here grow at the
-- front. `prev[&cur]` of a node that is not there panics.
unfoldable pub walk_back : ℕ → ℕ → Prev → ℕ → List ℕ → List ℕ → Result (List ℕ × List ℕ)
walk_back zero start prev cur nodes edges = panic
walk_back (suc fuel) start prev cur nodes edges =
    let back = walk_back fuel start prev in
    if cur == start
    then ok (nodes, edges)
    else elim (get prev cur) [ none ↦ panic | some (p, e) ↦ back p (p ∷ nodes) (e ∷ edges) ]

-- `reconstruct` in the mode `UnweightedHops`. No node comes twice, so that fuel above the number of
-- entries is enough.
unfoldable pub reconstruct : (ℕ → ℕ) → ℕ → ℕ → Prev → Result GraphPath
unfolding walk_back
reconstruct as_f32 start goal prev =
    and_then (walk_back (suc (length prev)) start prev goal (goal ∷ []) [])
      (λ x. ok (record { nodes = x.0; edges = x.1; cost = as_f32 (length x.1) }))

-- The variables of `bfs_path`.
pub record Bfs : Type 0 where
  pub prev : Prev
  pub seen : List ℕ
  pub q : List ℕ
  pub steps : ℕ

-- The body of the inner loop, and the loop.
abbrev pub discover : ℕ → Hop → Bfs → Bfs
discover cur (edge, other) b = if contains b.seen other then b else record b {
  prev = insert b.prev other (cur, edge);
  seen = other ∷ b.seen;
  q = b.q ++ other ∷ [];
}

abbrev pub discover_each : ℕ → List Hop → Bfs → Bfs
discover_each cur [] b = b
discover_each cur (h ∷ hs) b = discover_each cur hs (discover cur h b)

-- `opts.max_steps.is_some_and(|max| steps > max)`.
abbrev pub exhausted : Option ℕ → ℕ → Bool
exhausted none steps = false
exhausted (some max) steps = ltb max steps

module _ (as_f32 : ℕ → ℕ) (s : Store) (opts : ShortestPathOptions) (type_ids : Option (List ℕ))
    (start goal : ℕ) where
  -- The loop over the queue.
  unfoldable pub search : ℕ → Bfs → Result (Option GraphPath)
  unfolding reconstruct steps
  search zero b = panic
  search (suc fuel) b =
      let next = search fuel in
      elim b.q [
        | [] ↦ ok none
        | cur ∷ q ↦
            if cur == goal
            then and_then (reconstruct as_f32 start goal b.prev) (λ p. ok (some p))
            else if exhausted opts.max_steps (suc b.steps)
            then ok none
            else and_then (steps s cur opts.direction type_ids opts.min_weight)
                (λ hops. next (discover_each cur hops (record b { q = q; steps = suc b.steps })))
      ]

  -- `bfs_path`. A node enters the queue once, so that fuel above the number of nodes is enough.
  unfoldable pub bfs_path : Result (Option GraphPath)
  unfolding search
  bfs_path =
      search (length s.nodes + 2)
        (record { prev = []; seen = start ∷ []; q = start ∷ []; steps = 0 })
