-- ===== src/Examples.antt =====
-- The theorems on the sample graph and on small values.
use drey.Prelude.{ℕ, ◌≡◌, refl, true, false, some, List, [], ◌∷◌, ◌++◌, map, arith}
use drey.Prelude.Membership.{contains}
use drey.Error.{Result, ok}
use drey.Ord.{Text, nat_ord, cmp_text}
use drey.Codec.Utf8.{valid_utf8}
use drey.Int.{pos}
use drey.Atomic.{Atomic}
use drey.Map.{get, insert}
use drey.Types.{Value, Scalar, Properties}
use drey.Records.{NodeRecord, EdgeRecord}
use drey.Mutation.{PropertyPatch, remove_incident_edges, Mutation}
use drey.Interner
use drey.Interner.Laws.{IsValid, IsValid-empty, Interned, intern_lem}
use drey.Interner.Load.{from_labels-labels, from_labels-IsValid}
use drey.Codec.Decodes.{Decodes}
use drey.Codec.Values.{read_value, write_value, read_properties, write_properties}
use drey.Codec.ValueTrip.{Decodes-value, Decodes-properties}
use drey.Codec.Records.{read_node_record, write_node_record, read_edge_record, write_edge_record}
use drey.Codec.RecordTrip.{Decodes-node_record, Decodes-edge_record}
use drey.Store.{Store}
use drey.Store.Consistent.{IsConsistent}
use drey.Store.NodeLaws.{NodesAgree-rest, EdgesAgree-more_nodes}
use drey.Store.Nodes
use drey.Store.Edges
use drey.Store.Edges.{incident_edges}
use drey.Store.Incident.{touches, contains-incident_edges}
use drey.Store.Registration.{TypeRegistered}
use drey.Store.NodeMethods.{
  NodeInserted, insert_node_checked_lem, NodeAdded, EmbeddingSet, EmbeddingCleared,
}
use drey.Store.EdgeMethods.{
  EdgeInserted, insert_edge_checked_lem, EdgeAdded, EdgeRewritten, reweighted, set_edge_weight_lem,
  EdgeRemoved,
}
use drey.Store.Patched.{PropertiesPatched, EdgePatched}
use drey.Store.RemoveNode.{NodeRemoved}
use drey.Graph.{
  Graph, register_node_type, add_node, set_node_embedding, update_node_properties, remove_node,
  add_edge, clear_node_embedding, update_edge_properties, remove_edge,
}
use drey.Graph.Logged.{
  Logged, register_node_type-Logged, add_node-Logged, set_node_embedding-Logged,
  update_node_properties-Logged, remove_node-Logged, add_edge-Logged, update_edge_properties-Logged,
  remove_edge-Logged, clear_node_embedding-Logged,
}
use drey.Graph.Calls.{Steps-pending}
use drey.Persist.Log.{WalPersistence, payload}
use drey.Persist.MutationCodec.{read_mutation, write_mutation}
use drey.Persist.MutationTrip.{Decodes-mutation}
use drey.Codec.Crc.{crc32}
use drey.Persist.Commit.{commit}
use drey.Persist.Committed.{Committed, commit_lem}
use drey.Persist.Replay.{Replay, start, apply_all, finish}
use drey.Persist.Agreement.{apply_all-Steps}
use drey.Samples.{
  max_arith, calls, four_calls, a_text, e_text, one, empty-IsConsistent, opened, typed, two_nodes,
  linked, edge_room, typed-IsConsistent, two_nodes-IsConsistent, linked-IsConsistent,
}

apply_all-Steps_example :
    (r : Replay) × (apply_all max_arith opened.config calls (start opened.store) ≡ (r, ok tt))
    × (finish r ≡ linked.store)
apply_all-Steps_example = apply_all-Steps four_calls

abbrev fresh_log : WalPersistence
fresh_log = record { epoch = 0; pending = []; poisoned = false; wal_len = 20 }

Steps-pending_example :
    linked.persist ≡ some (record fresh_log { pending = [] ++ map payload calls })
Steps-pending_example = Steps-pending fresh_log four_calls refl

remove_node-Logged_example :
    Atomic linked
      (λ g' _.
        NodeRemoved 0 true linked.store g'.store
        × Logged (Mutation.remove_node 0 remove_incident_edges) linked g')
      (remove_node 0 remove_incident_edges linked)
remove_node-Logged_example = remove_node-Logged 0 remove_incident_edges linked linked-IsConsistent

add_edge-Logged_example :
    Atomic two_nodes
      (λ g' id.
        EdgeAdded 0 1 e_text one [] two_nodes.store g'.store id
        × Logged (Mutation.add_edge id 0 1 e_text one []) two_nodes g')
      (add_edge 0 1 e_text one [] two_nodes)
add_edge-Logged_example =
    add_edge-Logged 0 1 e_text one [] two_nodes edge_room two_nodes-IsConsistent

add_node-Logged_example :
    Atomic typed
      (λ g' id.
        NodeAdded a_text [] typed.store g'.store id
        × Logged (Mutation.add_node id a_text []) typed g')
      (add_node a_text [] typed)
add_node-Logged_example = add_node-Logged a_text [] typed typed-IsConsistent

register_node_type-Logged_example :
    Atomic opened
      (λ g' _.
        TypeRegistered a_text (some 2) opened.store g'.store
        × Logged (Mutation.register_node_type a_text (some 2)) opened g')
      (register_node_type a_text (some 2) opened)
register_node_type-Logged_example =
    register_node_type-Logged a_text (some 2) opened (omega arith) empty-IsConsistent

set_node_embedding-Logged_example :
    Atomic linked
      (λ g' _.
        EmbeddingSet 0 (one ∷ one ∷ []) linked.store g'.store
        × Logged (Mutation.set_node_embedding 0 (one ∷ one ∷ [])) linked g')
      (set_node_embedding 0 (one ∷ one ∷ []) linked)
set_node_embedding-Logged_example =
    set_node_embedding-Logged 0 (one ∷ one ∷ []) linked linked-IsConsistent

abbrev patch : PropertyPatch
patch = (a_text, some (Value.bool true)) ∷ []

-- The sample graph where the property "a" of the type "a" is indexed.
abbrev indexed_store : Store
indexed_store = record linked.store { indexed = ((a_text, a_text), tt) ∷ [] }

abbrev indexed_graph : Graph
indexed_graph = record linked { store = indexed_store }

indexed_store-IsConsistent : IsConsistent indexed_store
indexed_store-IsConsistent = record {
  nodes_agree = NodesAgree-rest linked.store indexed_store linked-IsConsistent.nodes_agree;
  edges_agree =
      EdgesAgree-more_nodes linked.store indexed_store linked-IsConsistent.edges_agree (λ n m. m);
}

update_node_properties-Logged_example :
    Atomic indexed_graph
      (λ g' _.
        PropertiesPatched 0 patch indexed_store g'.store
        × Logged (Mutation.update_node_properties 0 patch) indexed_graph g')
      (update_node_properties 0 patch indexed_graph)
update_node_properties-Logged_example =
    update_node_properties-Logged 0 patch indexed_graph indexed_store-IsConsistent

update_edge_properties-Logged_example :
    Atomic linked
      (λ g' _.
        EdgePatched 0 patch linked.store g'.store
        × Logged (Mutation.update_edge_properties 0 patch) linked g')
      (update_edge_properties 0 patch linked)
update_edge_properties-Logged_example =
    update_edge_properties-Logged 0 patch linked linked-IsConsistent

remove_edge-Logged_example :
    Atomic linked
      (λ g' _. EdgeRemoved 0 linked.store g'.store × Logged (Mutation.remove_edge 0) linked g')
      (remove_edge 0 linked)
remove_edge-Logged_example = remove_edge-Logged 0 linked linked-IsConsistent

contains-incident_edges_example :
    contains (incident_edges linked.store 1) 0 ≡ touches (get linked.store.edges 0) 1
contains-incident_edges_example =
    contains-incident_edges linked.store linked-IsConsistent.edges_agree 1 0

abbrev flagged : Properties
flagged = (a_text, Value.bool true) ∷ []

insert_node_checked_lem_example :
    Atomic indexed_store
      (λ s' _. NodeInserted 7 a_text flagged indexed_store s')
      (Nodes.insert_node_checked 7 a_text flagged indexed_store)
insert_node_checked_lem_example =
    insert_node_checked_lem 7 a_text flagged indexed_store indexed_store-IsConsistent

insert_edge_checked_lem_example :
    Atomic two_nodes.store
      (λ s' _. EdgeInserted 7 1 0 e_text one [] two_nodes.store s')
      (Edges.insert_edge_checked 7 1 0 e_text one [] two_nodes.store)
insert_edge_checked_lem_example =
    insert_edge_checked_lem 7 1 0 e_text one [] two_nodes.store edge_room two_nodes-IsConsistent

set_edge_weight_lem_example :
    Atomic linked.store
      (λ s' a. EdgeRewritten 0 (reweighted 0) linked.store s' × (a ≡ 0))
      (Edges.set_edge_weight 0 0 linked.store)
set_edge_weight_lem_example = set_edge_weight_lem 0 0 linked.store linked-IsConsistent

clear_node_embedding-Logged_example :
    Atomic linked
      (λ g' _.
        EmbeddingCleared 1 linked.store g'.store
        × Logged (Mutation.clear_node_embedding 1) linked g')
      (clear_node_embedding 1 linked)
clear_node_embedding-Logged_example = clear_node_embedding-Logged 1 linked linked-IsConsistent

abbrev list_value : Value
list_value = Value.list (Scalar.bool true ∷ Scalar.i64 (pos 5) ∷ Scalar.string a_text ∷ [])

Decodes-value_example : Decodes read_value (write_value list_value) list_value
unfolding valid_utf8 cmp_text
Decodes-value_example = Decodes-value list_value refl

abbrev props : Properties
props = (a_text, list_value) ∷ (e_text, Value.null) ∷ []

Decodes-properties_example : Decodes read_properties (write_properties props) props
unfolding valid_utf8 cmp_text
Decodes-properties_example = Decodes-properties props refl

abbrev node_record : NodeRecord
node_record = record { node_type = 3; properties = props; embedding = some (one ∷ []) }

Decodes-node_record_example : Decodes read_node_record (write_node_record node_record) node_record
unfolding valid_utf8 cmp_text
Decodes-node_record_example = Decodes-node_record node_record refl refl refl

abbrev edge_record : EdgeRecord
edge_record = record { source = 1; target = 2; edge_type = 3; weight = one; properties = props }

Decodes-edge_record_example : Decodes read_edge_record (write_edge_record edge_record) edge_record
unfolding valid_utf8 cmp_text
Decodes-edge_record_example = Decodes-edge_record edge_record refl refl refl refl refl

abbrev mutation : Mutation
mutation = Mutation.add_edge 4 1 2 e_text one props

Decodes-mutation_example : Decodes read_mutation (write_mutation mutation) mutation
unfolding valid_utf8 cmp_text
Decodes-mutation_example = Decodes-mutation mutation refl

intern_lem_example : Interned Interner.empty a_text (Interner.intern Interner.empty a_text)
intern_lem_example = intern_lem Interner.empty a_text IsValid-empty (omega arith)

abbrev two_labels : Interner.Interner
two_labels = record { labels = e_text ∷ a_text ∷ []; index = (a_text, 1) ∷ (e_text, 0) ∷ [] }

two_labels_load : Interner.from_labels (e_text ∷ a_text ∷ []) ≡ ok two_labels
unfolding Interner.from_labels cmp_text get insert
two_labels_load = refl

from_labels-IsValid_example : IsValid two_labels × (two_labels.labels ≡ e_text ∷ a_text ∷ [])
from_labels-IsValid_example =
    from_labels-IsValid (e_text ∷ a_text ∷ []) two_labels (omega arith) two_labels_load

two_labels-IsValid : IsValid two_labels
two_labels-IsValid =
    (from_labels-IsValid (e_text ∷ a_text ∷ []) two_labels (omega arith) two_labels_load).0

from_labels-labels_example :
    (it' : Interner.Interner) × (Interner.from_labels two_labels.labels ≡ ok it')
    × (it'.labels ≡ two_labels.labels)
    × ((l : Text) → Interner.get it' l ≡ Interner.get two_labels l)
from_labels-labels_example = from_labels-labels two_labels two_labels-IsValid (omega arith)

-- The known answer of the test `crc32_matches_ieee_known_answer`, for "123456789".
crc32_known_answer : crc32 (49 ∷ 50 ∷ 51 ∷ 52 ∷ 53 ∷ 54 ∷ 55 ∷ 56 ∷ 57 ∷ []) ≡ 0xcbf4_3926
unfolding crc32
crc32_known_answer = refl

abbrev dirty_log : WalPersistence
dirty_log = record {
  epoch = 1;
  pending = payload (Mutation.remove_edge 3) ∷ [];
  poisoned = false;
  wal_len = 20;
}

-- A disk that takes every write.
abbrev good_disk : ℕ → ℕ → List ℕ → Result (Unit {0})
good_disk epoch len frames = ok tt

commit_lem_example : Committed good_disk dirty_log (commit good_disk dirty_log)
commit_lem_example = commit_lem good_disk (λ epoch len frames. refl) dirty_log
