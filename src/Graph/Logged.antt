-- ===== src/Graph/Logged.antt =====
-- What the methods of drey/src/graph.rs do to the store and to the log of the backend together: one
-- record for each change, and neither without the other.
use drey.Prelude.{
  ℕ, ◌^◌, ◌<◌, ◌≡◌, refl, Bool, true, false, Option, none, some, List, [], ◌∷◌, ◌++◌, length, arith,
  Bool-cases, inl, inr,
}
use drey.Error.{Error, and_then, follow, Result, ok, Exec, guard, returns, ◌>>=◌, ◌>>◌, pure}
use drey.Ord.{Text}
use drey.Atomic.{Atomic, fails, done, Atomic-lift}
use drey.Types.{Properties}
use drey.Config.{GraphConfig}
use drey.Mutation.{PropertyPatch, RemoveNodeMode, removes_incident, Mutation}
use drey.Store.{Store}
use drey.Store.Consistent.{IsConsistent}
use drey.Store.Nodes
use drey.Store.Edges
use drey.Store.NodeMethods.{
  NodeAdded, add_node_lem, EmbeddingSet, set_node_embedding_lem, EmbeddingCleared,
  clear_node_embedding_lem,
}
use drey.Store.Registration.{TypeRegistered, register_node_type_lem}
use drey.Store.EdgeMethods.{EdgeAdded, add_edge_lem, EdgeRemoved, remove_edge_lem}
use drey.Store.Patched.{
  PropertiesPatched, update_node_properties_lem, EdgePatched, update_edge_properties_lem,
}
use drey.Store.RemoveNode.{NodeRemoved, remove_node_lem}
use drey.Persist.Log.{WalPersistence, preflight, payload, append}
use drey.Graph.{
  Graph, on_store, backend_ready, ensure_writable, log_to, log, within_max, validate_embedding_dim,
  register_node_type, add_node, set_node_embedding, clear_node_embedding, update_node_properties,
  remove_node, add_edge, update_edge_properties, remove_edge,
}

-- The backend with one more record in its buffer.
abbrev pub recorded : Mutation → Option WalPersistence → Option WalPersistence
recorded m none = none
recorded m (some p) = some (record p { pending = p.pending ++ payload m ∷ [] })

-- The graph was writable, and the mutation stands last in its log.
pub record Logged (m : Mutation) (g g' : Graph) : Type 0 where
  pub writable : ensure_writable g ≡ ok tt
  pub config_kept : g'.config ≡ g.config
  pub persist : g'.persist ≡ recorded m g.persist

ensure_writable-returns : (g : Graph) → returns (ensure_writable g) ≡ true
unfolding ensure_writable backend_ready preflight
ensure_writable-returns g = elim (Bool-cases g.config.read_only) [
  | inl is ↦ rw is refl
  | inr isnt ↦ rw isnt (ready g.persist)
]
  where
    ready : (b : Option WalPersistence) → returns (backend_ready b) ≡ true
    ready none = refl
    ready (some p) = elim (Bool-cases p.poisoned) [ inl is ↦ rw is refl | inr isnt ↦ rw isnt refl ]

-- The backend that was checked takes the record.
pub log_of_ready :
    (m : Mutation) (b : Option WalPersistence) (g : Graph)
    → backend_ready b ≡ ok tt
    → g.persist ≡ b
    → log m g ≡ (record g { persist = recorded m b }, ok tt)
unfolding log log_to backend_ready append preflight
log_of_ready m none g ready e = rw e refl
log_of_ready m (some p) g ready e = rw e (rw ready refl)

pub ready_of_writable : (g : Graph) → ensure_writable g ≡ ok tt → backend_ready g.persist ≡ ok tt
unfolding ensure_writable
ready_of_writable g h = elim (Bool-cases g.config.read_only) [
  | inl is ↦ absurd (let bad = rw is at h in ground arith)
  | inr isnt ↦ rw isnt at h
]

module _ {A : Type 0} (op : Exec Store A) (m : A → Mutation) (g : Graph)
    {Done : Store → A → Type 0} where
  -- The common end of the methods: the store's method, then the log.
  Atomic-Logged :
      ensure_writable g ≡ ok tt
      → Atomic g.store Done (op g.store)
      → Atomic g
          (λ g' a. Done g'.store a × Logged (m a) g g')
          ((on_store op >>= λ a. log (m a) >> pure a) g)
  unfolding on_store
  Atomic-Logged writable h = go (op g.store) h
    where
      go :
          (r : Store × Result A)
          → Atomic g.store Done r
          → Atomic g
              (λ g' a. Done g'.store a × Logged (m a) g g')
              (follow (record g { store = r.0 }, r.1) (λ a. log (m a) >> pure a))
      go _ (fails e) = fails e
      go _ (done s' a q) =
          let g' = record g { store = s' } in
          let e = log_of_ready (m a) g.persist g' (ready_of_writable g writable) refl in
          rw e (
            done (record g' { persist = recorded (m a) g.persist }) a
              (q, record { writable = writable; config_kept = refl; persist = refl }))

-- The same of a method with no result.
Atomic-Logged_unit :
    (op : Exec Store (Unit {0})) (m : Mutation) (g : Graph) {Done : Store → Type 0}
    → ensure_writable g ≡ ok tt
    → Atomic g.store (λ s' _. Done s') (op g.store)
    → Atomic g (λ g' _. Done g'.store × Logged m g g') ((on_store op >> log m) g)
unfolding on_store
Atomic-Logged_unit op m g {Done} writable h = go (op g.store) h
  where
    go :
        (r : Store × Result (Unit {0}))
        → Atomic g.store (λ s' _. Done s') r
        → Atomic g
            (λ g' _. Done g'.store × Logged m g g')
            (follow (record g { store = r.0 }, r.1) (λ _. log m))
    go _ (fails e) = fails e
    go _ (done s' a q) =
        let g' = record g { store = s' } in
        let e = log_of_ready m g.persist g' (ready_of_writable g writable) refl in
        rw e (
          done (record g' { persist = recorded m g.persist }) tt
            (q, record { writable = writable; config_kept = refl; persist = refl }))

-- On a graph with a consistent store, `add_node` does not panic; where it fails the whole graph,
-- log included, is as it was. Where it succeeds the graph was writable, the store is consistent,
-- the id returned is the allocator's and the allocator is one higher, the id was free, the node is
-- recorded under it with the id of its type, which is registered, the given properties and no
-- embedding, no other node and no edge changed, the property index gives the node for each of its
-- indexed properties with a scalar value, ids stay below the allocators if they were, and exactly
-- this mutation, with the id, is appended to the log.
pub add_node-Logged :
    (label : Text) (p : Properties) (g : Graph)
    → IsConsistent g.store
    → Atomic g
        (λ g' id.
          NodeAdded label p g.store g'.store id × Logged (Mutation.add_node id label p) g g')
        (add_node label p g)
unfolding add_node
add_node-Logged label p g c =
    Atomic-lift _ (ensure_writable g) _ (ensure_writable-returns g) λ u writable.
      Atomic-Logged (Nodes.add_node label p) (λ id. Mutation.add_node id label p) g writable
        (add_node_lem label p g.store c)

-- On a graph with a consistent store and fewer than 2^32 edge labels, `add_edge` does not panic;
-- where it fails the whole graph is as it was. Where it succeeds the graph was writable, the store
-- is consistent, the id returned is the allocator's and the allocator is one higher, the edge is
-- recorded under that id with the id of its type's label, the nodes are unchanged, ids stay below
-- the allocators if they were, and exactly this mutation, with the id, is appended to the log.
pub add_edge-Logged :
    (source target : ℕ) (label : Text) (w : ℕ) (p : Properties) (g : Graph)
    → length g.store.edge_types.labels < 2 ^ 32
    → IsConsistent g.store
    → Atomic g
        (λ g' id.
          EdgeAdded source target label w p g.store g'.store id
          × Logged (Mutation.add_edge id source target label w p) g g')
        (add_edge source target label w p g)
unfolding add_edge
add_edge-Logged source target label w p g room c =
    Atomic-lift _ (ensure_writable g) _ (ensure_writable-returns g) λ u writable.
      Atomic-Logged (Edges.add_edge source target label w p)
        (λ id. Mutation.add_edge id source target label w p) g writable
        (add_edge_lem source target label w p g.store room c)

-- On a graph with a consistent store, `remove_node` does not panic; where it fails, also where it
-- refuses to orphan edges, the whole graph is as it was. Where it succeeds the graph was writable,
-- the node was there and is gone with every edge that touched it, every other node and edge is as
-- it was, the store is consistent, there was no touching edge in the rejecting mode, and exactly
-- this mutation is appended to the log.
pub remove_node-Logged :
    (node : ℕ) (mode : RemoveNodeMode) (g : Graph)
    → IsConsistent g.store
    → Atomic g
        (λ g' _.
          NodeRemoved node (removes_incident mode) g.store g'.store
          × Logged (Mutation.remove_node node mode) g g')
        (remove_node node mode g)
unfolding remove_node
remove_node-Logged node mode g c =
    Atomic-lift _ (ensure_writable g) _ (ensure_writable-returns g) λ u writable.
      Atomic-Logged_unit (Edges.remove_node node (removes_incident mode))
        (Mutation.remove_node node mode) g writable
        (remove_node_lem node (removes_incident mode) g.store c)

-- On a graph with a consistent store, `set_node_embedding` does not panic; where it fails the
-- whole graph is as it was. Where it succeeds the graph was writable, the node was there, the
-- vector is finite and has the dimension that the node's type declares, only the node's embedding
-- changed, the store is consistent, and exactly this mutation is appended to the log.
pub set_node_embedding-Logged :
    (node : ℕ) (v : List ℕ) (g : Graph)
    → IsConsistent g.store
    → Atomic g
        (λ g' _.
          EmbeddingSet node v g.store g'.store × Logged (Mutation.set_node_embedding node v) g g')
        (set_node_embedding node v g)
unfolding set_node_embedding
set_node_embedding-Logged node v g c =
    Atomic-lift _ (ensure_writable g) _ (ensure_writable-returns g) λ u writable.
      Atomic-Logged_unit (Nodes.set_node_embedding node v) (Mutation.set_node_embedding node v) g
        writable (set_node_embedding_lem node v g.store c)

-- On a graph with a consistent store, `update_node_properties` does not panic; where it fails the
-- whole graph is as it was. Where it succeeds the graph was writable, the node was there, and its
-- new properties, which are valid as a whole, have under each key what the last entry of the patch
-- for it says, a value or none, and what they had where the patch has no entry. No other node and
-- no edge changed. The property index gives the node for each of its new properties that is
-- indexed and has a scalar value, and does not give it for the old value of an indexed key that it
-- has no longer. The store is consistent, and exactly this mutation is appended to the log.
pub update_node_properties-Logged :
    (node : ℕ) (patch : PropertyPatch) (g : Graph)
    → IsConsistent g.store
    → Atomic g
        (λ g' _.
          PropertiesPatched node patch g.store g'.store
          × Logged (Mutation.update_node_properties node patch) g g')
        (update_node_properties node patch g)
unfolding update_node_properties
update_node_properties-Logged node patch g c =
    Atomic-lift _ (ensure_writable g) _ (ensure_writable-returns g) λ u writable.
      Atomic-Logged_unit (Nodes.update_node_properties node patch)
        (Mutation.update_node_properties node patch) g writable
        (update_node_properties_lem node patch g.store c)

-- On a graph with a consistent store, `remove_edge` does not panic; where it fails the whole graph
-- is as it was. Where it succeeds the graph was writable, the edge was there and is gone, every
-- other edge and all nodes are as they were, the store is consistent, and exactly this mutation is
-- appended to the log.
pub remove_edge-Logged :
    (edge : ℕ) (g : Graph)
    → IsConsistent g.store
    → Atomic g
        (λ g' _. EdgeRemoved edge g.store g'.store × Logged (Mutation.remove_edge edge) g g')
        (remove_edge edge g)
unfolding remove_edge
remove_edge-Logged edge g c =
    Atomic-lift _ (ensure_writable g) _ (ensure_writable-returns g) λ u writable.
      Atomic-Logged_unit (Edges.remove_edge edge) (Mutation.remove_edge edge) g writable
        (remove_edge_lem edge g.store c)

-- On a graph with a consistent store, `update_edge_properties` does not panic; where it fails the
-- whole graph is as it was. Where it succeeds the graph was writable, the edge was there, the keys
-- of the patch are short enough and the values that it sets valid, and only the edge's properties
-- changed: under each key they have what the last entry of the patch for it says, a value or none,
-- and what they had where the patch has no entry. The store is consistent, and exactly this
-- mutation is appended to the log.
pub update_edge_properties-Logged :
    (edge : ℕ) (patch : PropertyPatch) (g : Graph)
    → IsConsistent g.store
    → Atomic g
        (λ g' _.
          EdgePatched edge patch g.store g'.store
          × Logged (Mutation.update_edge_properties edge patch) g g')
        (update_edge_properties edge patch g)
unfolding update_edge_properties
update_edge_properties-Logged edge patch g c =
    Atomic-lift _ (ensure_writable g) _ (ensure_writable-returns g) λ u writable.
      Atomic-Logged_unit (Edges.update_edge_properties edge patch)
        (Mutation.update_edge_properties edge patch) g writable
        (update_edge_properties_lem edge patch g.store c)

-- On a graph with a consistent store, `clear_node_embedding` does not panic; where it fails the
-- whole graph is as it was. Where it succeeds the graph was writable, the node was there, only its
-- embedding changed, to none, the store is consistent, and exactly this mutation is appended to
-- the log.
pub clear_node_embedding-Logged :
    (node : ℕ) (g : Graph)
    → IsConsistent g.store
    → Atomic g
        (λ g' _.
          EmbeddingCleared node g.store g'.store × Logged (Mutation.clear_node_embedding node) g g')
        (clear_node_embedding node g)
unfolding clear_node_embedding
clear_node_embedding-Logged node g c =
    Atomic-lift _ (ensure_writable g) _ (ensure_writable-returns g) λ u writable.
      Atomic-Logged_unit (Nodes.clear_node_embedding node) (Mutation.clear_node_embedding node) g
        writable (clear_node_embedding_lem node g.store c)

two_guards-returns :
    (a b : Bool) (e e' : Error) → returns (and_then (guard a e) (λ _. guard b e')) ≡ true
two_guards-returns false b e e' = refl
two_guards-returns true false e e' = refl
two_guards-returns true true e e' = refl

validate_embedding_dim-returns :
    (config : GraphConfig) (dim : Option ℕ) → returns (validate_embedding_dim config dim) ≡ true
unfolding validate_embedding_dim
validate_embedding_dim-returns config none = refl
validate_embedding_dim-returns config (some d) =
    two_guards-returns _ (within_max config.max_embedding_dim d) _ _

-- On a graph with a consistent store and fewer than 2^32 node labels, `register_node_type` does
-- not panic; where it fails, also on a conflicting declaration, the whole graph is as it was.
-- Where it succeeds the graph was writable, the label has an id that declares the dimension, every
-- declaration that was there stands, nodes and edges are unchanged, the store is consistent, and
-- exactly this mutation is appended to the log.
pub register_node_type-Logged :
    (label : Text) (dim : Option ℕ) (g : Graph)
    → length g.store.node_types.labels < 2 ^ 32
    → IsConsistent g.store
    → Atomic g
        (λ g' _.
          TypeRegistered label dim g.store g'.store
          × Logged (Mutation.register_node_type label dim) g g')
        (register_node_type label dim g)
unfolding register_node_type
register_node_type-Logged label dim g room c =
    Atomic-lift _ (ensure_writable g) _ (ensure_writable-returns g) λ u writable.
      Atomic-lift _ (validate_embedding_dim g.config dim) _
        (validate_embedding_dim-returns g.config dim)
        λ u' allowed.
          Atomic-Logged_unit (Nodes.register_node_type label dim)
            (Mutation.register_node_type label dim) g writable
            (register_node_type_lem label dim g.store room c)
