-- ===== src/Traverse/Walks.antt =====
-- Walks, and the paths that `traverse` of drey/src/traverse.rs may return.
use drey.Prelude.{ℕ, ◌≤◌, ◌<◌, ◌≡◌, Bool, true, not, ◌||◌, List, [], ◌∷◌, ◌++◌, length}
use drey.Prelude.Membership.{distinct}
use drey.Ord.{nat_ord}
use drey.Traverse.{GraphPath}
use drey.Traverse.Dfs.{bottom_up}

-- A walk from `start`, by the stacks of its nodes and of its edges: each edge is good to be
-- taken from the node below to its own.
pub data Walk (good : ℕ → ℕ → ℕ → Bool) (start : ℕ) : List ℕ → List ℕ → Type 0 where
  begin : Walk good start (start ∷ []) []
  extend :
      (n e m : ℕ) (ns es : List ℕ)
      → Walk good start (n ∷ ns) es
      → good n e m ≡ true
      → Walk good start (m ∷ n ∷ ns) (e ∷ es)

-- A path that `traverse` may return: a walk of one to `hops` edges, which repeats no node where the
-- policy forbids it.
pub record PathOk (as_f32 : ℕ → ℕ) (good : ℕ → ℕ → ℕ → Bool) (start hops : ℕ) (simple : Bool)
    (p : GraphPath) : Type 0 where
  pub node_stack : List ℕ
  pub edge_stack : List ℕ
  pub nodes_are : p.nodes ≡ bottom_up node_stack
  pub edges_are : p.edges ≡ bottom_up edge_stack
  pub cost_is : p.cost ≡ as_f32 (length edge_stack)
  pub walk : Walk good start node_stack edge_stack
  pub some_edge : 0 < length edge_stack
  pub bounded : length edge_stack ≤ hops
  pub no_repeat : (not simple || distinct node_stack) ≡ true

module _ (as_f32 : ℕ → ℕ) (good : ℕ → ℕ → ℕ → Bool) (start hops : ℕ) (simple : Bool) where
  abbrev pub AllOk : List GraphPath → Type 0
  AllOk [] = Unit {0}
  AllOk (p ∷ ps) = PathOk as_f32 good start hops simple p × AllOk ps

  pub AllOk-snoc :
      (ps : List GraphPath) (p : GraphPath)
      → AllOk ps
      → PathOk as_f32 good start hops simple p
      → AllOk (ps ++ p ∷ [])
  AllOk-snoc [] p h k = (k, tt)
  AllOk-snoc (q ∷ ps) p (a, h) k = (a, AllOk-snoc ps p h k)
