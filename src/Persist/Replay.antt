-- ===== src/Persist/Replay.antt =====
-- `apply_replay` of drey/src/persist/mod.rs: a committed mutation on the store being rebuilt.
use drey.Prelude.{ℕ, List, [], ◌∷◌}
use Prim.Native.Nat.{max}
use drey.Error.{
  Exec, pure, lift, ok_or, gets, modify, require, ◌>>=◌, ◌>>◌, codec, invalid_property_value,
}
use drey.Float.{Arith32, is_finite32}
use drey.Config.{GraphConfig}
use drey.Mutation.{Mutation, removes_incident}
use drey.Store.{Store, checked_succ}
use drey.Store.Nodes
use drey.Store.Edges
use drey.Graph.{validate_embedding_dim}
use drey.Graph.Matching.{edges_matching, weight_of}

-- The store, and the two allocators that the replay raises.
pub record Replay : Type 0 where
  pub store : Store
  pub max_node : ℕ
  pub max_edge : ℕ

-- Where the replay of a log starts: at the store of the snapshot, whose allocators it may raise.
unfoldable pub start : Store → Replay
start s = record { store = s; max_node = s.next_node_id; max_edge = s.next_edge_id }

unfoldable pub on_store {ℓ} : {A : Type ℓ} → Exec Store A → Exec Replay A
on_store m r = let x = m r.store in (record r { store = x.0 }, x.1)

-- The writes of a replayed decay, one edge at a time.
unfoldable pub decay_each : Arith32 → ℕ → List ℕ → Exec Store (Unit {0})
unfolding weight_of
decay_each f factor [] = pure tt
decay_each f factor (e ∷ ids) = do
  s ← gets (λ s. s)
  w ← lift (weight_of s e)
  x ← Edges.set_edge_weight e (f.mul w factor)
  decay_each f factor ids

-- `apply_replay`.
unfoldable pub apply_replay : Arith32 → GraphConfig → Mutation → Exec Replay (Unit {0})
unfolding on_store decay_each validate_embedding_dim is_finite32 edges_matching
apply_replay f config (Mutation.clear_node_embedding node) =
    on_store (Nodes.clear_node_embedding node)
apply_replay f config (Mutation.register_node_type label dim) = do
  lift (validate_embedding_dim config dim)
  on_store (Nodes.register_node_type label dim)
apply_replay f config (Mutation.add_node id label p) = do
  on_store (Nodes.insert_node_checked id label p)
  next ← ok_or (checked_succ id) codec
  modify (λ r. record r { max_node = max r.max_node next })
apply_replay f config (Mutation.set_node_embedding node v) =
    on_store (Nodes.set_node_embedding node v)
apply_replay f config (Mutation.update_node_properties node patch) =
    on_store (Nodes.update_node_properties node patch)
apply_replay f config (Mutation.remove_node node mode) =
    on_store (Edges.remove_node node (removes_incident mode))
apply_replay f config (Mutation.add_edge id source target label w p) = do
  on_store (Edges.insert_edge_checked id source target label w p)
  next ← ok_or (checked_succ id) codec
  modify (λ r. record r { max_edge = max r.max_edge next })
apply_replay f config (Mutation.set_edge_weight edge w) = do
  x ← on_store (Edges.set_edge_weight edge w)
  pure tt
apply_replay f config (Mutation.update_edge_properties edge patch) =
    on_store (Edges.update_edge_properties edge patch)
apply_replay f config (Mutation.remove_edge edge) = on_store (Edges.remove_edge edge)
apply_replay f config (Mutation.decay_edges filter factor) = do
  require (is_finite32 factor) invalid_property_value
  r ← gets (λ r. r)
  ids ← lift (edges_matching r.store filter)
  on_store (decay_each f factor ids)

-- The loop over the committed mutations, and the allocators that it leaves.
unfoldable pub apply_all : Arith32 → GraphConfig → List Mutation → Exec Replay (Unit {0})
unfolding apply_replay
apply_all f config [] = pure tt
apply_all f config (m ∷ ms) = do apply_replay f config m; apply_all f config ms

unfoldable pub finish : Replay → Store
finish r = record (r.store) {
  next_node_id = max r.store.next_node_id r.max_node;
  next_edge_id = max r.store.next_edge_id r.max_edge;
}
