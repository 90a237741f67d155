-- ===== src/Store/Load.antt =====
-- The raw inserts of drey/src/store.rs, by which a snapshot's records become a store, and the
-- rebuilding and sorting of the indexes behind them.
use drey.Prelude.{ℕ, List, [], ◌∷◌}
use drey.Prelude.Membership.{sort}
use drey.Error.{Exec, pure, unwrap, gets, modify, ◌>>=◌, ◌>>◌}
use drey.Ord.{nat_ord}
use drey.Map.{Map, get, insert, keys}
use drey.Records.{NodeRecord, EdgeRecord}
use drey.Interner
use drey.Index.{push_to, adj_insert, index_node_properties}
use drey.Store.{Store}

-- `Store::insert_node_raw`.
unfoldable pub insert_node_raw : ℕ → NodeRecord → Exec Store (Unit {0})
unfolding push_to index_node_properties
insert_node_raw id rec = do
  modify (λ s. record s { nodes_by_type = push_to s.nodes_by_type rec.node_type id })
  s ← gets (λ s. s)
  label ← unwrap (Interner.label s.node_types rec.node_type)
  modify (λ s. record s {
    nodes = insert s.nodes id rec;
    prop_index = index_node_properties s.indexed rec.node_type label id rec.properties s.prop_index;
  })

-- `Store::insert_edge_raw`.
unfoldable pub insert_edge_raw : ℕ → EdgeRecord → Store → Store
unfolding adj_insert push_to
insert_edge_raw id rec s = record s {
  out_adj = adj_insert s.out_adj rec.source rec.edge_type id;
  in_adj = adj_insert s.in_adj rec.target rec.edge_type id;
  edges_by_type = push_to s.edges_by_type rec.edge_type id;
  edges = insert s.edges id rec;
}

-- `for v in map.values_mut()`.
abbrev on_values {ℓ κ} : {K : Type ℓ} {V : Type κ} → (V → V) → Map K V → Map K V
on_values f [] = []
on_values f ((k, v) ∷ m) = (k, f v) ∷ on_values f m

-- `Store::sort_indexes`.
unfoldable pub sort_indexes : Store → Store
unfolding sort
sort_indexes s = record s {
  out_adj = on_values (on_values sort) s.out_adj;
  in_adj = on_values (on_values sort) s.in_adj;
  nodes_by_type = on_values sort s.nodes_by_type;
  edges_by_type = on_values sort s.edges_by_type;
  prop_index = on_values (on_values sort) s.prop_index;
}

-- The loop of `rebuild_property_indexes`; an id with no record or a type with no label is a panic.
unfoldable pub reindex_all : List ℕ → Exec Store (Unit {0})
unfolding index_node_properties
reindex_all [] = pure tt
reindex_all (id ∷ ids) = do
  s ← gets (λ s. s)
  rec ← unwrap (get s.nodes id)
  label ← unwrap (Interner.label s.node_types rec.node_type)
  modify (λ s. record s {
    prop_index = index_node_properties s.indexed rec.node_type label id rec.properties s.prop_index;
  })
  reindex_all ids

-- `Store::rebuild_property_indexes`.
unfoldable pub rebuild_property_indexes : Exec Store (Unit {0})
unfolding reindex_all sort_indexes
rebuild_property_indexes = do
  modify (λ s. record s { prop_index = [] })
  ids ← gets (λ s. keys s.nodes)
  reindex_all ids
  modify sort_indexes
