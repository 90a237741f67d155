-- ===== src/Store/EdgeLaws.antt =====
-- The writes to edges keep the indexes exact.
use drey.Prelude.{ℕ, ◌≡◌, true, none, some, [], is_some, arith, Option-cases, inl, inr}
use drey.Prelude.Membership.{retain_ne}
use drey.Ord.{nat_ord, nat_lawful}
use drey.Map.{get, get_or, contains_key}
use drey.Map.Keys.{sorted, sorted-insert, sorted-remove}
use drey.Map.Laws.{get-insert, get-remove, get_of_eq}
use drey.Float.{is_finite32}
use drey.Records.{EdgeRecord}
use drey.Interner
use drey.Index.{Adjacency, Buckets, push_to, remove_from_vec, adj_insert, adj_remove}
use drey.Index.Buckets.{holds-push_to, holds-remove_from_vec, listed-adj_insert, listed-adj_remove}
use drey.Index.Distinct.{distinct-adj_insert, distinct-adj_remove}
use drey.Store.{Store}
use drey.Store.Edges.{put_edge, put_edge_record, drop_edge}
use drey.Store.Consistent.{EdgesAgree}

sorted-push_to : (m : Buckets) (k v : ℕ) → sorted m ≡ true → sorted (push_to m k v) ≡ true
unfolding push_to
sorted-push_to m k v h = sorted-insert m k _ h

sorted-remove_from_vec :
    (m : Buckets) (k v : ℕ) → sorted m ≡ true → sorted (remove_from_vec m k v) ≡ true
unfolding remove_from_vec
sorted-remove_from_vec m k v h = elim (Option-cases (get m k)) [
  | inl nothing ↦ ground arith
  | inr (ids, e) ↦ ground (arith, sorted-insert m k (retain_ne v ids) h, sorted-remove m k h)
]

sorted-adj_insert :
    (adj : Adjacency) (n t e node : ℕ)
    → ((k : ℕ) → sorted (get_or adj k []) ≡ true)
    → sorted (get_or (adj_insert adj n t e) node []) ≡ true
unfolding adj_insert
sorted-adj_insert adj n t e node h = ground (
  arith,
  h n,
  h node,
  get-insert adj n node (push_to (get_or adj n []) t e),
  sorted-push_to (get_or adj n []) t e,
)

sorted-adj_remove :
    (adj : Adjacency) (n t e node : ℕ)
    → ((k : ℕ) → sorted (get_or adj k []) ≡ true)
    → sorted (get_or (adj_remove adj n t e) node []) ≡ true
unfolding adj_remove
sorted-adj_remove adj n t e node h = elim (Option-cases (get adj n)) [
  | inl nothing ↦ ground (arith, h node)
  | inr (types, found) ↦ ground (
    arith,
    h n,
    h node,
    get-insert adj n node (remove_from_vec types t e),
    get-remove adj n node,
    sorted-remove_from_vec types t e,
  )
]

-- A new edge between nodes that are there.
pub put_edge-EdgesAgree :
    (s : Store) (id : ℕ) (rec : EdgeRecord)
    → get s.edges id ≡ none
    → contains_key s.nodes rec.source ≡ true
    → contains_key s.nodes rec.target ≡ true
    → is_some (Interner.label s.edge_types rec.edge_type) ≡ true
    → is_finite32 rec.weight ≡ true
    → EdgesAgree s
    → EdgesAgree (put_edge id rec s)
unfolding put_edge
put_edge-EdgesAgree s id rec new a b l f h = record {
  from_node = λ e r g. ground (arith, get-insert s.edges id e rec, h.from_node e r);
  to_node = λ e r g. ground (arith, get-insert s.edges id e rec, h.to_node e r);
  labelled = λ e r g. ground (arith, get-insert s.edges id e rec, h.labelled e r);
  finite = λ e r g. ground (arith, get-insert s.edges id e rec, h.finite e r);
  outbound = λ n t e. ground (
    arith,
    get-insert s.edges id e rec,
    listed-adj_insert s.out_adj rec.source rec.edge_type id n t e,
    h.outbound n t e,
  );
  inbound = λ n t e. ground (
    arith,
    get-insert s.edges id e rec,
    listed-adj_insert s.in_adj rec.target rec.edge_type id n t e,
    h.inbound n t e,
  );
  by_type = λ t e. ground (
    arith,
    get-insert s.edges id e rec,
    holds-push_to s.edges_by_type rec.edge_type id t e,
    h.by_type t e,
  );
  out_sorted = λ n. sorted-adj_insert s.out_adj rec.source rec.edge_type id n h.out_sorted;
  in_sorted = λ n. sorted-adj_insert s.in_adj rec.target rec.edge_type id n h.in_sorted;
  out_distinct =
      distinct-adj_insert s.out_adj rec.source rec.edge_type id h.out_distinct
        (ground (arith, h.outbound rec.source rec.edge_type id, new));
  in_distinct =
      distinct-adj_insert s.in_adj rec.target rec.edge_type id h.in_distinct
        (ground (arith, h.inbound rec.target rec.edge_type id, new));
  labels = h.labels;
}

-- A record written again, with the same ends and type.
pub put_edge_record-EdgesAgree :
    (s : Store) (id : ℕ) (old rec : EdgeRecord)
    → get s.edges id ≡ some old
    → rec.source ≡ old.source
    → rec.target ≡ old.target
    → rec.edge_type ≡ old.edge_type
    → is_finite32 rec.weight ≡ true
    → EdgesAgree s
    → EdgesAgree (put_edge_record id rec s)
unfolding put_edge_record
put_edge_record-EdgesAgree s id old rec was same_source same_target same_type f h = record {
  from_node =
      λ e r g. ground (arith, get-insert s.edges id e rec, h.from_node e r, h.from_node id old);
  to_node = λ e r g. ground (arith, get-insert s.edges id e rec, h.to_node e r, h.to_node id old);
  labelled =
      λ e r g. ground (arith, get-insert s.edges id e rec, h.labelled e r, h.labelled id old);
  finite = λ e r g. ground (arith, get-insert s.edges id e rec, h.finite e r);
  outbound = λ n t e.
      ground (arith, get-insert s.edges id e rec, get_of_eq s.edges id e, h.outbound n t e);
  inbound =
      λ n t e. ground (arith, get-insert s.edges id e rec, get_of_eq s.edges id e, h.inbound n t e);
  by_type =
      λ t e. ground (arith, get-insert s.edges id e rec, get_of_eq s.edges id e, h.by_type t e);
  out_sorted = h.out_sorted;
  in_sorted = h.in_sorted;
  out_distinct = h.out_distinct;
  in_distinct = h.in_distinct;
  labels = h.labels;
}

pub drop_edge-EdgesAgree :
    (s : Store) (id : ℕ) (rec : EdgeRecord)
    → get s.edges id ≡ some rec
    → EdgesAgree s
    → EdgesAgree (drop_edge id rec s)
unfolding drop_edge
drop_edge-EdgesAgree s id rec was h = record {
  from_node = λ e r g. ground (arith, get-remove s.edges id e, h.from_node e r);
  to_node = λ e r g. ground (arith, get-remove s.edges id e, h.to_node e r);
  labelled = λ e r g. ground (arith, get-remove s.edges id e, h.labelled e r);
  finite = λ e r g. ground (arith, get-remove s.edges id e, h.finite e r);
  outbound = λ n t e. ground (
    arith,
    get-remove s.edges id e,
    listed-adj_remove s.out_adj rec.source rec.edge_type id n t e,
    h.outbound n t e,
  );
  inbound = λ n t e. ground (
    arith,
    get-remove s.edges id e,
    listed-adj_remove s.in_adj rec.target rec.edge_type id n t e,
    h.inbound n t e,
  );
  by_type = λ t e. ground (
    arith,
    get-remove s.edges id e,
    holds-remove_from_vec s.edges_by_type rec.edge_type id t e,
    h.by_type t e,
  );
  out_sorted = λ n. sorted-adj_remove s.out_adj rec.source rec.edge_type id n h.out_sorted;
  in_sorted = λ n. sorted-adj_remove s.in_adj rec.target rec.edge_type id n h.in_sorted;
  out_distinct = distinct-adj_remove s.out_adj rec.source rec.edge_type id h.out_distinct;
  in_distinct = distinct-adj_remove s.in_adj rec.target rec.edge_type id h.in_distinct;
  labels = h.labels;
}
