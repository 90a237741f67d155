-- ===== src/Store/Nodes.antt =====
-- The methods of `Store` on node types and nodes, except removal.
use drey.Prelude.{ℕ, Bool, true, false, not, Option, none, some, List, ◌==◌, length}
use drey.Error.{
  Exec, pure, raise, lift, ok_or, unwrap, gets, modify, require, ◌>>=◌, ◌>>◌, invalid_node_type,
  invalid_property_value, resource_limit, node_not_found, codec, dimension_mismatch,
}
use drey.Ord.{Text, nat_ord}
use drey.Map.{get, insert, contains_key}
use drey.Types.{Properties, Node}
use drey.Mutation.{PropertyPatch, apply_patch}
use drey.Records.{NodeRecord}
use drey.Interner
use drey.Interner.{Interner}
use drey.Index.{push_to, open_bucket, index_node_properties, unindex_node_properties}
use drey.Store.{
  Store, checked_succ, validate_label, validate_properties, all_finite, require_registered,
}

-- `self.node_types.intern(label)`.
unfoldable pub intern_node_type : Text → Exec Store ℕ
intern_node_type label s =
    let r = Interner.intern s.node_types label in pure r.1 (record s { node_types = r.0 })

-- `existing != embedding_dim`.
unfoldable pub same_dim : Option ℕ → Option ℕ → Bool
same_dim none none = true
same_dim (some a) (some b) = a == b
same_dim _ _ = false

-- A declaration that is there, with another dimension.
unfoldable pub conflicts : Option (Option ℕ) → Option ℕ → Bool
unfolding same_dim
conflicts none dim = false
conflicts (some existing) dim = not (same_dim existing dim)

unfoldable pub declare : ℕ → Option ℕ → Store → Store
unfolding open_bucket
declare id dim s = record s {
  embedding_dim = insert s.embedding_dim id dim;
  nodes_by_type = open_bucket s.nodes_by_type id;
}

-- `Store::register_node_type`.
unfoldable pub register_node_type : Text → Option ℕ → Exec Store (Unit {0})
unfolding intern_node_type conflicts declare
register_node_type label dim = do
  lift (validate_label label invalid_node_type)
  id ← intern_node_type label
  existing ← gets (λ s. get s.embedding_dim id)
  require (not (conflicts existing dim)) invalid_node_type
  modify (declare id dim)

-- The writes of `insert_node_checked` behind the gates.
unfoldable pub put_node : ℕ → ℕ → Text → Properties → Store → Store
unfolding push_to index_node_properties
put_node id type_id label p s = record s {
  nodes_by_type = push_to s.nodes_by_type type_id id;
  prop_index = index_node_properties s.indexed type_id label id p s.prop_index;
  nodes = insert s.nodes id (record { node_type = type_id; properties = p; embedding = none });
}

-- `Store::insert_node_checked`.
unfoldable pub insert_node_checked : ℕ → Text → Properties → Exec Store (Unit {0})
unfolding put_node
insert_node_checked id label p = do
  s ← gets (λ s. s)
  type_id ← lift (require_registered s label)
  lift (validate_properties p)
  require (not (contains_key s.nodes id)) codec
  modify (put_node id type_id label p)

-- `Store::add_node`.
unfoldable pub add_node : Text → Properties → Exec Store ℕ
unfolding insert_node_checked
add_node label p = do
  id ← gets (λ s. s.next_node_id)
  next ← ok_or (checked_succ id) resource_limit
  insert_node_checked id label p
  modify (λ s. record s { next_node_id = next })
  pure id

-- `.copied().flatten()`.
abbrev pub flatten : Option (Option ℕ) → Option ℕ
flatten none = none
flatten (some d) = d

-- The match of `set_node_embedding` on the declared dimension.
unfoldable pub check_dim : Option ℕ → ℕ → Exec Store (Unit {0})
check_dim none n = raise invalid_node_type
check_dim (some dim) n = require (dim == n) (dimension_mismatch dim n)

unfoldable pub put_embedding : ℕ → NodeRecord → Option (List ℕ) → Store → Store
put_embedding node rec v s = record s { nodes = insert s.nodes node (record rec { embedding = v }) }

-- `Store::set_node_embedding`.
unfoldable pub set_node_embedding : ℕ → List ℕ → Exec Store (Unit {0})
unfolding check_dim put_embedding
set_node_embedding node v = do
  s ← gets (λ s. s)
  rec ← ok_or (get s.nodes node) (node_not_found node)
  require (all_finite v) invalid_property_value
  check_dim (flatten (get s.embedding_dim rec.node_type)) (length v)
  modify (put_embedding node rec (some v))

-- What `Graph::clear_node_embedding` does to the store, between its check and its log; a replay does
-- the same.
unfoldable pub clear_node_embedding : ℕ → Exec Store (Unit {0})
unfolding put_embedding
clear_node_embedding node = do
  s ← gets (λ s. s)
  rec ← ok_or (get s.nodes node) (node_not_found node)
  modify (put_embedding node rec none)

-- `Store::reindex_node`; a node with no record or a type with no label is a panic.
unfoldable pub reindex_node : ℕ → Properties → Properties → Exec Store (Unit {0})
unfolding index_node_properties unindex_node_properties
reindex_node node old new = do
  s ← gets (λ s. s)
  rec ← unwrap (get s.nodes node)
  label ← unwrap (Interner.label s.node_types rec.node_type)
  modify (λ s. record s {
    prop_index =
        index_node_properties s.indexed rec.node_type label node new
          (unindex_node_properties s.indexed rec.node_type label node old s.prop_index);
  })

unfoldable pub put_properties : ℕ → NodeRecord → Properties → Store → Store
put_properties node rec p s = record s {
  nodes = insert s.nodes node (record rec { properties = p });
}

-- `Store::update_node_properties`.
unfoldable pub update_node_properties : ℕ → PropertyPatch → Exec Store (Unit {0})
unfolding reindex_node put_properties
update_node_properties node patch = do
  s ← gets (λ s. s)
  rec ← ok_or (get s.nodes node) (node_not_found node)
  let new = apply_patch rec.properties patch
  lift (validate_properties new)
  reindex_node node rec.properties new
  modify (put_properties node rec new)

-- `Store::materialize_node`.
unfoldable pub materialize_node : ℕ → Exec Store (Option Node)
materialize_node id = do
  s ← gets (λ s. s)
  elim (get s.nodes id) [
    | none ↦ pure none
    | some rec ↦ do
      label ← unwrap (Interner.label s.node_types rec.node_type)
      pure (
          some (record {
            id = id;
            node_type = label;
            properties = rec.properties;
            embedding = rec.embedding;
          }))
  ]
