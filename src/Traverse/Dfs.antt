-- ===== src/Traverse/Dfs.antt =====
-- `traverse` of drey/src/traverse.rs: the paths of bounded length, depth first. A stack is the list of
-- its elements, the top first, so that a path is the stack in reverse.
use drey.Prelude.{
  ℕ, zero, suc, ◌+◌, Bool, true, false, not, ◌&&◌, Option, none, some, List, [], ◌∷◌, ◌++◌, leb,
  length, if◌then◌else◌, unwrap_or,
}
use drey.Prelude.Membership.{contains, retain_ne}
use Prim.Native.Nat.{min}
use drey.Error.{
  Exec, Result, ok, panic, guard, and_then, pure, lift, gets, modify, unwrap, node_not_found, ◌>>=◌,
  ◌>>◌,
}
use drey.Ord.{nat_ord}
use drey.Map.{contains_key}
use drey.Store.{Store}
use drey.Graph.{Graph, validate_min_weight}
use drey.Traverse.{
  Hop, GraphPath, TraversalOptions, CyclePolicy, no_revisit, allow_revisit, max_traversal_hops,
  steps, resolve_type_ids,
}

-- The arguments that `dfs` mutates.
pub record Dfs : Type 0 where
  pub nodes_stack : List ℕ
  pub edges_stack : List ℕ
  pub on_path : List ℕ
  pub paths : List GraphPath

-- The elements of a stack from the bottom to the top.
unfoldable pub bottom_up : List ℕ → List ℕ
bottom_up [] = []
bottom_up (x ∷ xs) = bottom_up xs ++ x ∷ []

-- `stack.last()`, and what `pop` leaves.
abbrev pub top : List ℕ → Option ℕ
top [] = none
top (x ∷ xs) = some x

abbrev pub popped : List ℕ → List ℕ
popped [] = []
popped (x ∷ xs) = xs

abbrev pub forbids_revisit : CyclePolicy → Bool
forbids_revisit no_revisit = true
forbids_revisit allow_revisit = false

-- `nodes_stack.push`, `edges_stack.push` and `on_path.insert`, and their undoing: `inserted` is what
-- `insert` returned.
abbrev pub enter : Hop → Dfs → Dfs
enter (edge, other) d = record d {
  nodes_stack = other ∷ d.nodes_stack;
  edges_stack = edge ∷ d.edges_stack;
  on_path = if contains d.on_path other then d.on_path else other ∷ d.on_path;
}

abbrev pub leave : Bool → ℕ → Dfs → Dfs
leave inserted other d = record d {
  nodes_stack = popped d.nodes_stack;
  edges_stack = popped d.edges_stack;
  on_path = if inserted then retain_ne other d.on_path else d.on_path;
}

-- `as f32` of a small number is a parameter.
module _ (as_f32 : ℕ → ℕ) (s : Store) (opts : TraversalOptions) (type_ids : Option (List ℕ)) where
  -- `paths.len() >= opts.max_paths`.
  abbrev pub full : Dfs → Bool
  full d = leb opts.max_paths (length d.paths)

  -- `paths.push(..)`, which happens where the path has an edge.
  abbrev pub this_path : Dfs → GraphPath
  this_path d = record {
    nodes = bottom_up d.nodes_stack;
    edges = bottom_up d.edges_stack;
    cost = as_f32 (length d.edges_stack);
  }

  abbrev pub report : Dfs → Dfs
  report d = record d {
    paths = elim d.edges_stack [ [] ↦ d.paths | _ ∷ _ ↦ d.paths ++ this_path d ∷ [] ];
  }

  -- The loop over the steps, whose body calls `visit` on the path made longer.
  unfoldable pub visit_each : Exec Dfs (Unit {0}) → List Hop → Exec Dfs (Unit {0})
  visit_each visit [] = pure tt
  visit_each visit ((edge, other) ∷ hops) =
      let later = visit_each visit hops in
      (do
        d ← gets (λ d. d)
        if forbids_revisit opts.cycle_policy && contains d.on_path other then later else (do
          modify (enter (edge, other))
          visit
          modify (leave (not (contains d.on_path other)) other)
          d' ← gets (λ d. d)
          if full d' then pure tt else later))

  -- `dfs`. Each call stands one hop deeper, so that fuel above the hops that are left is enough.
  unfoldable pub dfs : ℕ → Exec Dfs (Unit {0})
  unfolding visit_each steps
  dfs zero = lift panic
  dfs (suc fuel) =
      let visit = dfs fuel in
      (do
        d ← gets (λ d. d)
        if full d then pure tt else (do
          modify report
          d' ← gets (λ d. d)
          if full d'
              then pure tt
              else (if leb (unwrap_or opts.max_hops 0) (length d'.edges_stack) then pure tt else (do
                current ← unwrap (top d'.nodes_stack)
                hops ← lift (steps s current opts.direction type_ids opts.min_weight)
                visit_each visit hops))))

-- The stacks at the call of `dfs`.
abbrev pub at_node : ℕ → Dfs
at_node n = record { nodes_stack = n ∷ []; edges_stack = []; on_path = n ∷ []; paths = [] }

-- `opts.max_hops` as `traverse` resolves it.
unfoldable pub effective_hops : Graph → TraversalOptions → ℕ
effective_hops g opts = min (unwrap_or opts.max_hops g.config.default_max_hops) max_traversal_hops

abbrev pub resolved : Graph → TraversalOptions → TraversalOptions
resolved g opts = record opts { max_hops = some (effective_hops g opts) }

-- The last line of `traverse`.
abbrev pub paths_of : Dfs × Result (Unit {0}) → Result (List GraphPath)
paths_of (d, r) = and_then r (λ _. ok d.paths)

-- `Graph::traverse`.
unfoldable pub traverse : (ℕ → ℕ) → Graph → ℕ → TraversalOptions → Result (List GraphPath)
unfolding effective_hops dfs resolve_type_ids validate_min_weight
traverse as_f32 g start opts =
    let s = g.store in
    and_then (validate_min_weight opts.min_weight) (λ _.
      and_then (guard (contains_key s.nodes start) (node_not_found start)) (λ _. paths_of (
        dfs as_f32 s (resolved g opts) (resolve_type_ids s opts.edge_types) (max_traversal_hops + 1)
          (at_node start))))
