-- ===== src/Graph/Reads.antt =====
-- The lookups and the commit of drey/src/graph.rs.
use drey.Prelude.{ℕ, Option, none, some, List, length}
use drey.Error.{Exec, Result, ok, lift, gets, ◌>>=◌, ◌>>◌}
use drey.Types.{Node, Edge}
use drey.Store.Nodes
use drey.Store.Edges
use drey.Persist.Log.{WalPersistence}
use drey.Persist.Commit.{commit}
use drey.Graph.{Graph, on_store, ensure_writable}

-- `Graph::node` and `Graph::edge`.
unfoldable pub node : ℕ → Exec Graph (Option Node)
unfolding on_store
node id = on_store (Nodes.materialize_node id)

unfoldable pub edge : ℕ → Exec Graph (Option Edge)
unfolding on_store
edge id = on_store (Edges.materialize_edge id)

-- `Graph::counts`.
unfoldable pub counts : Graph → ℕ × ℕ
counts g = (length g.store.nodes, length g.store.edges)

-- `Graph::commit`, over what the file operations return.
module _ (durable : ℕ → ℕ → List ℕ → Result (Unit {0})) where
  unfoldable pub commit_to : Option WalPersistence → Exec Graph (Unit {0})
  unfolding commit
  commit_to none g = (g, ok tt)
  commit_to (some p) g = let r = commit durable p in (record g { persist = some r.0 }, r.1)

  unfoldable pub commit_graph : Exec Graph (Unit {0})
  unfolding ensure_writable commit_to
  commit_graph = do g ← gets (λ g. g); lift (ensure_writable g); commit_to g.persist
