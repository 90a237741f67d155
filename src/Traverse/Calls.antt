-- ===== src/Traverse/Calls.antt =====
-- The calls `traverse` and `neighbors` of drey/src/traverse.rs on a store whose indexes agree.
use drey.Prelude.{ℕ, ◌+◌, ◌≤◌, ◌≡◌, refl, Bool, true, List, length, arith}
use drey.Prelude.Membership.{contains}
use drey.Error.{Result, ok}
use drey.Ord.{nat_ord}
use drey.Map.{contains_key}
use drey.Store.Consistent.{EdgesAgree}
use drey.Graph.{Graph, validate_min_weight}
use drey.Traverse.{GraphPath, TraversalOptions, max_traversal_hops, resolve_type_ids}
use drey.Traverse.Dfs.{forbids_revisit, effective_hops, resolved, at_node, traverse}
use drey.Traverse.Walks.{AllOk, begin}
use drey.Traverse.DfsLaws.{good, Ready, dfs-Explores}

module _ (as_f32 : ℕ → ℕ) (g : Graph) (start : ℕ) (opts : TraversalOptions)
    (agree : EdgesAgree g.store) where
  -- What the options allow.
  abbrev pub allows : ℕ → ℕ → ℕ → Bool
  allows =
      good as_f32 g.store (resolved g opts) (resolve_type_ids g.store opts.edge_types) start agree

  effective_hops-le : effective_hops g opts ≤ 64
  unfolding effective_hops
  effective_hops-le = omega arith

  at_node-Ready :
      Ready as_f32 g.store
        (resolved g opts)
        (resolve_type_ids g.store opts.edge_types)
        start
        agree
        (at_node start)
  unfolding contains
  at_node-Ready = record {
    walk = begin;
    bounded = omega arith;
    on_path_is = λ x. refl;
    no_repeat = λ h. refl;
    collected = (tt, omega arith);
  }

  pub record Traversed (r : Result (List GraphPath)) : Type 0 where
    pub paths : List GraphPath
    pub returned : r ≡ ok paths
    pub all_ok :
        AllOk as_f32 allows start (effective_hops g opts) (forbids_revisit opts.cycle_policy) paths
    pub few : length paths ≤ opts.max_paths
    pub shallow : effective_hops g opts ≤ 64

  -- On a store whose indexes agree with its edges, from a node that is there and with a minimal
  -- weight that is no NaN, `traverse` returns, and does not run out of fuel or panic. It returns
  -- at most `max_paths` paths, each a walk from the node by recorded edges that the direction, the
  -- types and the minimal weight allow, of one edge at least and at most the effective hops, which
  -- are at most 64, and with no node twice where the policy forbids revisits.
  pub traverse-Traversed :
      contains_key g.store.nodes start ≡ true
      → validate_min_weight opts.min_weight ≡ ok tt
      → Traversed (traverse as_f32 g start opts)
  unfolding traverse
  traverse-Traversed there valid =
      let ids = resolve_type_ids g.store opts.edge_types in
      let x =
        dfs-Explores as_f32 g.store (resolved g opts) ids start agree (max_traversal_hops + 1)
          (at_node start) at_node-Ready (omega (arith, effective_hops-le)) in
      record {
        paths = x.found;
        returned = rw (valid, there, x.ran) refl;
        all_ok = x.collected.0;
        few = x.collected.1;
        shallow = effective_hops-le;
      }
