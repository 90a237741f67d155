-- ===== src/Store/Edges.antt =====
-- The methods of `Store` on edges, and the removal of nodes with their edges.
use drey.Prelude.{ℕ, Bool, not, Option, none, some, List, [], ◌∷◌, ◌++◌, if◌then◌else◌}
use drey.Prelude.Membership.{sort, dedup}
use drey.Error.{
  Exec, pure, raise, lift, ok_or, unwrap, gets, modify, require, ◌>>=◌, ◌>>◌, resource_limit,
  node_not_found, edge_not_found, invalid_edge_type, dangling_edge, codec,
}
use drey.Ord.{Text, nat_ord}
use drey.Map.{get, get_or, insert, remove, contains_key}
use drey.Types.{Properties, Edge}
use drey.Mutation.{PropertyPatch, apply_patch}
use drey.Records.{NodeRecord, EdgeRecord}
use drey.Interner
use drey.Interner.{Interner}
use drey.Index.{
  Buckets, Adjacency, is_empty, push_to, remove_from_vec, adj_insert, adj_remove,
  unindex_node_properties,
}
use drey.Store.{
  Store, checked_succ, validate_label, validate_properties, validate_weight, validate_patch,
}

-- `self.edge_types.intern(label)`.
unfoldable pub intern_edge_type : Text → Exec Store ℕ
intern_edge_type label s =
    let r = Interner.intern s.edge_types label in pure r.1 (record s { edge_types = r.0 })

-- The writes of `insert_edge_checked` behind the gates.
unfoldable pub put_edge : ℕ → EdgeRecord → Store → Store
unfolding adj_insert push_to
put_edge id rec s = record s {
  out_adj = adj_insert s.out_adj rec.source rec.edge_type id;
  in_adj = adj_insert s.in_adj rec.target rec.edge_type id;
  edges_by_type = push_to s.edges_by_type rec.edge_type id;
  edges = insert s.edges id rec;
}

-- `Store::insert_edge_checked`.
unfoldable pub insert_edge_checked : ℕ → ℕ → ℕ → Text → ℕ → Properties → Exec Store (Unit {0})
unfolding intern_edge_type put_edge
insert_edge_checked id source target label w p = do
  s ← gets (λ s. s)
  require (contains_key s.nodes source) (node_not_found source)
  require (contains_key s.nodes target) (node_not_found target)
  lift (validate_properties p)
  lift (validate_weight w)
  lift (validate_label label invalid_edge_type)
  require (not (contains_key s.edges id)) codec
  type_id ← intern_edge_type label
  modify (
      put_edge id (record {
        source = source;
        target = target;
        edge_type = type_id;
        weight = w;
        properties = p;
      }))

-- `Store::add_edge`.
unfoldable pub add_edge : ℕ → ℕ → Text → ℕ → Properties → Exec Store ℕ
unfolding insert_edge_checked
add_edge source target label w p = do
  id ← gets (λ s. s.next_edge_id)
  next ← ok_or (checked_succ id) resource_limit
  insert_edge_checked id source target label w p
  modify (λ s. record s { next_edge_id = next })
  pure id

unfoldable pub put_edge_record : ℕ → EdgeRecord → Store → Store
put_edge_record edge rec s = record s { edges = insert s.edges edge rec }

-- `Store::set_edge_weight`.
unfoldable pub set_edge_weight : ℕ → ℕ → Exec Store ℕ
unfolding put_edge_record
set_edge_weight edge w = do
  lift (validate_weight w)
  s ← gets (λ s. s)
  rec ← ok_or (get s.edges edge) (edge_not_found edge)
  modify (put_edge_record edge (record rec { weight = w }))
  pure w

-- `Store::update_edge_properties`.
unfoldable pub update_edge_properties : ℕ → PropertyPatch → Exec Store (Unit {0})
unfolding put_edge_record
update_edge_properties edge patch = do
  lift (validate_patch patch)
  s ← gets (λ s. s)
  rec ← ok_or (get s.edges edge) (edge_not_found edge)
  modify (put_edge_record edge (record rec { properties = apply_patch rec.properties patch }))

-- The writes of `remove_edge`.
unfoldable pub drop_edge : ℕ → EdgeRecord → Store → Store
unfolding adj_remove remove_from_vec
drop_edge edge rec s = record s {
  edges = remove s.edges edge;
  out_adj = adj_remove s.out_adj rec.source rec.edge_type edge;
  in_adj = adj_remove s.in_adj rec.target rec.edge_type edge;
  edges_by_type = remove_from_vec s.edges_by_type rec.edge_type edge;
}

-- `Store::remove_edge`.
unfoldable pub remove_edge : ℕ → Exec Store (Unit {0})
unfolding drop_edge
remove_edge edge = do
  s ← gets (λ s. s)
  rec ← ok_or (get s.edges edge) (edge_not_found edge)
  modify (drop_edge edge rec)

-- `for e in incident { self.remove_edge(e)?; }`.
unfoldable pub remove_edges : List ℕ → Exec Store (Unit {0})
unfolding remove_edge
remove_edges [] = pure tt
remove_edges (e ∷ es) = do remove_edge e; remove_edges es

-- `for edges in types.values() { out.extend_from_slice(edges) }`.
unfoldable pub all_ids : Buckets → List ℕ
all_ids [] = []
all_ids ((etype, ids) ∷ types) = ids ++ all_ids types

-- The edge lists of a node, one behind the other.
abbrev pub edges_at : Adjacency → ℕ → List ℕ
edges_at adj node = all_ids (get_or adj node [])

-- `Store::incident_edges`.
unfoldable pub incident_edges : Store → ℕ → List ℕ
unfolding sort dedup all_ids
incident_edges s node = dedup (sort (edges_at s.out_adj node ++ edges_at s.in_adj node))

-- The `if` of `remove_node` on the incident edges.
unfoldable pub detach : ℕ → List ℕ → Bool → Exec Store (Unit {0})
unfolding remove_edges
detach node incident remove_incident =
    if is_empty incident
    then pure tt
    else if remove_incident
    then remove_edges incident
    else raise (dangling_edge node)

-- The writes of `remove_node` behind the edges.
unfoldable pub drop_node : ℕ → NodeRecord → Text → Store → Store
unfolding remove_from_vec unindex_node_properties
drop_node node rec label s = record s {
  nodes = remove s.nodes node;
  nodes_by_type = remove_from_vec s.nodes_by_type rec.node_type node;
  prop_index =
      unindex_node_properties s.indexed rec.node_type label node rec.properties s.prop_index;
}

-- `Store::remove_node`.
unfoldable pub remove_node : ℕ → Bool → Exec Store (Unit {0})
unfolding incident_edges detach drop_node
remove_node node remove_incident = do
  s ← gets (λ s. s)
  require (contains_key s.nodes node) (node_not_found node)
  detach node (incident_edges s node) remove_incident
  s ← gets (λ s. s)
  rec ← unwrap (get s.nodes node)
  label ← unwrap (Interner.label s.node_types rec.node_type)
  modify (drop_node node rec label)

-- `Store::materialize_edge`.
unfoldable pub materialize_edge : ℕ → Exec Store (Option Edge)
materialize_edge id = do
  s ← gets (λ s. s)
  elim (get s.edges id) [
    | none ↦ pure none
    | some rec ↦ do
      label ← unwrap (Interner.label s.edge_types rec.edge_type)
      pure (
          some (record {
            id = id;
            source = rec.source;
            target = rec.target;
            edge_type = label;
            weight = rec.weight;
            properties = rec.properties;
          }))
  ]
