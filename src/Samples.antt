-- ===== src/Samples.antt =====
-- A graph for the examples: two nodes and an edge, made by four calls on a fresh handle.
use drey.Prelude.{ℕ, ◌^◌, ◌<◌, ◌≡◌, refl, false, none, some, List, [], ◌∷◌, length, arith}
use drey.Error.{ok}
use drey.Float.{Arith32}
use drey.Mutation.{Mutation}
use drey.Graph.Calls.{Step, Steps}
use drey.Ord.{Text, nat_ord, cmp_text}
use drey.Interner
use drey.Atomic.{Atomic-ok}
use drey.Map.{get, insert}
use drey.Index.Buckets.{holds, listed}
use drey.Store.{empty, validate_label, require_registered, validate_properties, validate_weight}
use drey.Prelude.Membership.{contains}
use drey.Config.{default}
use drey.Graph.{Graph, register_node_type, add_node, add_edge}
use drey.Store.Nodes
use drey.Store.Edges
use drey.Store.Consistent.{IsConsistent}
use drey.Graph.Logged.{register_node_type-Logged, add_node-Logged, add_edge-Logged}
use drey.Interner.Laws.{IsValid-empty}

-- The texts "a" and "e", and the `f32` 1.0.
abbrev pub a_text : Text
a_text = 97 ∷ []

abbrev pub e_text : Text
e_text = 101 ∷ []

abbrev pub one : ℕ
one = 0x3f80_0000

some_of_none : {A : Type 0} {a : A} → none ≡ some a → ⊥
some_of_none h = ground arith

pub empty-IsConsistent : IsConsistent empty
unfolding get holds listed contains
empty-IsConsistent = record {
  nodes_agree = record {
    labelled = λ n r h. absurd (some_of_none h);
    registered = λ n r h. absurd (some_of_none h);
    embedded = λ n r h. absurd (some_of_none h);
    declared = λ t h. absurd (ground arith);
    by_type = λ t n. refl;
    labels = IsValid-empty;
  };
  edges_agree = record {
    from_node = λ e r h. absurd (some_of_none h);
    to_node = λ e r h. absurd (some_of_none h);
    labelled = λ e r h. absurd (some_of_none h);
    finite = λ e r h. absurd (some_of_none h);
    outbound = λ n t e. refl;
    inbound = λ n t e. refl;
    by_type = λ t e. refl;
    out_sorted = λ n. refl;
    in_sorted = λ n. refl;
    out_distinct = λ n t. refl;
    in_distinct = λ n t. refl;
    labels = IsValid-empty;
  };
}

-- A fresh handle with a backend, and the graphs after each of four calls.
abbrev pub opened : Graph
opened = record {
  store = empty;
  config = default;
  persist = some (record { epoch = 0; pending = []; poisoned = false; wal_len = 20 });
}

abbrev pub typed : Graph
typed = (register_node_type a_text (some 2) opened).0

abbrev pub one_node : Graph
one_node = (add_node a_text [] typed).0

abbrev pub two_nodes : Graph
two_nodes = (add_node a_text [] one_node).0

abbrev pub linked : Graph
linked = (add_edge 0 1 e_text one [] two_nodes).0

pub typed_run : register_node_type a_text (some 2) opened ≡ (typed, ok tt)
unfolding register_node_type Nodes.register_node_type validate_label get
typed_run = refl

pub one_node_run : add_node a_text [] typed ≡ (one_node, ok 0)
unfolding add_node register_node_type Nodes.register_node_type validate_label get Nodes.add_node
    require_registered Interner.intern insert cmp_text validate_properties
one_node_run = refl

pub two_nodes_run : add_node a_text [] one_node ≡ (two_nodes, ok 1)
unfolding add_node register_node_type Nodes.register_node_type validate_label get Nodes.add_node
    require_registered Interner.intern insert cmp_text validate_properties
two_nodes_run = refl

pub linked_run : add_edge 0 1 e_text one [] two_nodes ≡ (linked, ok 0)
unfolding add_edge Edges.add_edge validate_weight add_node register_node_type
    Nodes.register_node_type validate_label get Nodes.add_node require_registered Interner.intern
    insert cmp_text validate_properties
linked_run = refl

no_edge_types : length two_nodes.store.edge_types.labels ≡ 0
unfolding add_node register_node_type Nodes.register_node_type validate_label get Nodes.add_node
    require_registered Interner.intern insert cmp_text validate_properties
no_edge_types = refl

pub edge_room : length two_nodes.store.edge_types.labels < 2 ^ 32
edge_room = omega (arith, no_edge_types)

pub typed-IsConsistent : IsConsistent typed.store
typed-IsConsistent =
    (Atomic-ok (register_node_type-Logged a_text (some 2) opened (omega arith) empty-IsConsistent)
      typed tt typed_run).0.consistent

pub one_node-IsConsistent : IsConsistent one_node.store
one_node-IsConsistent =
    (Atomic-ok (add_node-Logged a_text [] typed typed-IsConsistent) one_node 0
      one_node_run).0.consistent

pub two_nodes-IsConsistent : IsConsistent two_nodes.store
two_nodes-IsConsistent =
    (Atomic-ok (add_node-Logged a_text [] one_node one_node-IsConsistent) two_nodes 1
      two_nodes_run).0.consistent

pub linked-IsConsistent : IsConsistent linked.store
linked-IsConsistent =
    (Atomic-ok (add_edge-Logged 0 1 e_text one [] two_nodes edge_room two_nodes-IsConsistent) linked
      0 linked_run).0.consistent

-- A computable stand-in for the arithmetic of `f32`.
abbrev pub max_arith : Arith32
max_arith = record { add = λ x y. x; mul = λ x y. y }

abbrev pub calls : List Mutation
calls =
    Mutation.register_node_type a_text (some 2)
    ∷ Mutation.add_node 0 a_text []
    ∷ Mutation.add_node 1 a_text []
    ∷ Mutation.add_edge 0 0 1 e_text one []
    ∷ []

pub four_calls : Steps max_arith calls opened linked
four_calls = Steps.step (Step.registered_type a_text (some 2) typed_run) (
    Steps.step (Step.added_node a_text [] 0 one_node_run) (
      Steps.step (Step.added_node a_text [] 1 two_nodes_run)
        (Steps.step (Step.added_edge 0 1 e_text one [] 0 linked_run) (Steps.stay linked))))
