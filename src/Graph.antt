-- ===== src/Graph.antt =====
-- drey/src/graph.rs: the handle and its mutation methods. A method works on the store and then
-- logs what it did; the loaded epoch and the directory of the handle, which no method here reads,
-- are left out.
pub mod Matching
pub mod Logged
pub mod Calls
pub mod Reads
use drey.Prelude.{
  ℕ, ◌^◌, Bool, true, false, not, Option, none, some, List, [], ◌∷◌, leb, length, if◌then◌else◌,
}
use drey.Error.{
  Exec, Result, ok, err, guard, and_then, pure, raise, lift, ok_or, gets, modify, require, ◌>>=◌,
  ◌>>◌, storage, edge_not_found, invalid_node_type, invalid_property_value,
}
use drey.Ord.{Text, nat_ord}
use drey.Float.{Arith32, is_finite32, is_nan32}
use drey.Config.{GraphConfig}
use drey.Map.{Map, get, insert}
use drey.Types.{Properties, u32_max}
use drey.Mutation.{
  PropertyPatch, WeightUpdate, RemoveNodeMode, removes_incident, EdgeFilter, Mutation, apply_update,
  bounds_valid, multiply_by,
}
use drey.Store.{Store}
use drey.Store.Nodes
use drey.Store.Edges
use drey.Persist.Log.{WalPersistence, preflight, append}
use Matching.{edges_matching, weight_of}

pub record Graph : Type 0 where
  pub store : Store
  pub config : GraphConfig
  pub persist : Option WalPersistence

-- A method of the store, on the graph's store.
unfoldable pub on_store {ℓ} : {A : Type ℓ} → Exec Store A → Exec Graph A
on_store m g = let r = m g.store in (record g { store = r.0 }, r.1)

-- The two refusals of `ensure_writable`.
unfoldable pub backend_ready : Option WalPersistence → Result (Unit {0})
unfolding preflight
backend_ready none = ok tt
backend_ready (some p) = preflight p

unfoldable pub ensure_writable : Graph → Result (Unit {0})
unfolding backend_ready
ensure_writable g = and_then (guard (not g.config.read_only) storage) (λ _. backend_ready g.persist)

-- `Graph::log`: nothing without a backend.
unfoldable pub log_to : Option WalPersistence → Mutation → Exec Graph (Unit {0})
unfolding append
log_to none m g = (g, ok tt)
log_to (some p) m g = let r = append m p in (record g { persist = some r.0 }, r.1)

unfoldable pub log : Mutation → Exec Graph (Unit {0})
unfolding log_to
log m g = log_to g.persist m g

-- `validate_embedding_dim`.
unfoldable pub within_max : Option ℕ → ℕ → Bool
within_max none dim = true
within_max (some max) dim = leb dim max

unfoldable pub validate_embedding_dim : GraphConfig → Option ℕ → Result (Unit {0})
unfolding within_max
validate_embedding_dim config none = ok tt
validate_embedding_dim config (some dim) =
    and_then (guard (leb dim u32_max) invalid_node_type)
      (λ _. guard (within_max config.max_embedding_dim dim) invalid_node_type)

-- `validate_min_weight`.
unfoldable pub validate_min_weight : Option ℕ → Result (Unit {0})
unfolding is_nan32
validate_min_weight none = ok tt
validate_min_weight (some w) = guard (not (is_nan32 w)) invalid_property_value

unfoldable pub register_node_type : Text → Option ℕ → Exec Graph (Unit {0})
unfolding ensure_writable validate_embedding_dim on_store log
register_node_type label dim = do
  g ← gets (λ g. g)
  lift (ensure_writable g)
  lift (validate_embedding_dim g.config dim)
  on_store (Nodes.register_node_type label dim)
  log (Mutation.register_node_type label dim)

-- The records of `add_node`, `set_node_embedding` and `add_edge` are built only for a backend;
-- without one `log` does nothing with them.
unfoldable pub add_node : Text → Properties → Exec Graph ℕ
unfolding ensure_writable on_store log
add_node label p = do
  g ← gets (λ g. g)
  lift (ensure_writable g)
  id ← on_store (Nodes.add_node label p)
  log (Mutation.add_node id label p)
  pure id

unfoldable pub set_node_embedding : ℕ → List ℕ → Exec Graph (Unit {0})
unfolding ensure_writable on_store log
set_node_embedding node v = do
  g ← gets (λ g. g)
  lift (ensure_writable g)
  on_store (Nodes.set_node_embedding node v)
  log (Mutation.set_node_embedding node v)

unfoldable pub update_node_properties : ℕ → PropertyPatch → Exec Graph (Unit {0})
unfolding ensure_writable on_store log
update_node_properties node patch = do
  g ← gets (λ g. g)
  lift (ensure_writable g)
  on_store (Nodes.update_node_properties node patch)
  log (Mutation.update_node_properties node patch)

unfoldable pub clear_node_embedding : ℕ → Exec Graph (Unit {0})
unfolding ensure_writable on_store log
clear_node_embedding node = do
  g ← gets (λ g. g)
  lift (ensure_writable g)
  on_store (Nodes.clear_node_embedding node)
  log (Mutation.clear_node_embedding node)

unfoldable pub remove_node : ℕ → RemoveNodeMode → Exec Graph (Unit {0})
unfolding ensure_writable on_store log
remove_node node mode = do
  g ← gets (λ g. g)
  lift (ensure_writable g)
  on_store (Edges.remove_node node (removes_incident mode))
  log (Mutation.remove_node node mode)

unfoldable pub add_edge : ℕ → ℕ → Text → ℕ → Properties → Exec Graph ℕ
unfolding ensure_writable on_store log
add_edge source target label w p = do
  g ← gets (λ g. g)
  lift (ensure_writable g)
  id ← on_store (Edges.add_edge source target label w p)
  log (Mutation.add_edge id source target label w p)
  pure id

unfoldable pub update_edge_properties : ℕ → PropertyPatch → Exec Graph (Unit {0})
unfolding ensure_writable on_store log
update_edge_properties edge patch = do
  g ← gets (λ g. g)
  lift (ensure_writable g)
  on_store (Edges.update_edge_properties edge patch)
  log (Mutation.update_edge_properties edge patch)

unfoldable pub remove_edge : ℕ → Exec Graph (Unit {0})
unfolding ensure_writable on_store log
remove_edge edge = do
  g ← gets (λ g. g)
  lift (ensure_writable g)
  on_store (Edges.remove_edge edge)
  log (Mutation.remove_edge edge)

module _ (f : Arith32) where
  unfoldable pub update_edge_weight : ℕ → WeightUpdate → Exec Graph ℕ
  unfolding ensure_writable on_store log apply_update bounds_valid is_finite32
  update_edge_weight edge update = do
    g ← gets (λ g. g)
    lift (ensure_writable g)
    require (bounds_valid update) invalid_property_value
    rec ← ok_or (get g.store.edges edge) (edge_not_found edge)
    let new = apply_update f update rec.weight
    require (is_finite32 new) invalid_property_value
    w ← on_store (Edges.set_edge_weight edge new)
    log (Mutation.set_edge_weight edge new)
    pure new

  -- The loop of `decay_edges` that computes and checks every result before any write.
  unfoldable pub decayed : Store → ℕ → List ℕ → Result (List (ℕ × ℕ))
  unfolding weight_of apply_update is_finite32
  decayed s factor [] = ok []
  decayed s factor (id ∷ ids) =
      let rest = decayed s factor ids in
      and_then (weight_of s id) (λ w.
        let new = apply_update f (multiply_by factor) w in
        and_then (guard (is_finite32 new) invalid_property_value)
          (λ _. and_then rest (λ updates. ok ((id, new) ∷ updates))))

  -- The loop that writes them.
  unfoldable pub write_weights : List (ℕ × ℕ) → Exec Store (Unit {0})
  write_weights [] = pure tt
  write_weights ((id, new) ∷ updates) = do w ← Edges.set_edge_weight id new; write_weights updates

  -- `decay_edges`: the report is the number of edges.
  unfoldable pub decay_edges : EdgeFilter → ℕ → Exec Graph ℕ
  unfolding ensure_writable on_store log decayed write_weights edges_matching validate_min_weight
  decay_edges filter factor = do
    g ← gets (λ g. g)
    lift (ensure_writable g)
    require (is_finite32 factor) invalid_property_value
    lift (validate_min_weight filter.min_weight)
    ids ← lift (edges_matching g.store filter)
    updates ← lift (decayed g.store factor ids)
    on_store (write_weights updates)
    log (Mutation.decay_edges filter factor)
    pure (length ids)
