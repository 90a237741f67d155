-- ===== src/Store/NodeLaws.antt =====
-- The writes to nodes keep the records and the indexes in agreement.
use drey.Prelude.{
  ℕ, ◌≡◌, ◌≢◌, ◌∙◌, refl, ap, ◌<◌, ◌^◌, inl, inr, Bool-cases, true, false, Option, none, some, List,
  ◌==◌, is_some, arith, length,
}
use mathlib.Core.Path.{subst}
use drey.Ord.{Text, nat_ord, nat_lawful, ◌=?◌, =?_iff}
use drey.Map.{get, insert, contains_key}
use drey.Map.Laws.{get-insert, get-remove, get_of_eq}
use drey.Types.{Properties}
use drey.Records.{NodeRecord, EdgeRecord}
use drey.Interner
use drey.Interner.{Interner}
use drey.Interner.Laws.{intern_lem, label_kept}
use drey.Index.Buckets.{holds-push_to, holds-remove_from_vec, holds-open_bucket}
use drey.Store.{Store}
use drey.Store.Nodes.{put_node, put_embedding, put_properties, declare, conflicts, same_dim}
use drey.Store.Edges.{drop_node}
use drey.Store.Consistent.{NodesAgree, EdgesAgree, EmbeddingOk, IsConsistent}

-- The record that `put_node` writes.
abbrev made : ℕ → Properties → NodeRecord
made t p = record { node_type = t; properties = p; embedding = none }

pub declaration_kept :
    (s : Store) (t : ℕ) (dim : Option ℕ)
    → conflicts (get s.embedding_dim t) dim ≡ false
    → (u : ℕ) → contains_key s.embedding_dim u ≡ true
    → get (insert s.embedding_dim t dim) u ≡ get s.embedding_dim u
unfolding conflicts same_dim
declaration_kept s t dim c u d =
    ground (arith, get-insert s.embedding_dim t u dim, get_of_eq s.embedding_dim t u)

pub put_node-NodesAgree :
    (s : Store) (id t : ℕ) (label : Text) (p : Properties)
    → get s.nodes id ≡ none
    → is_some (Interner.label s.node_types t) ≡ true
    → contains_key s.embedding_dim t ≡ true
    → NodesAgree s
    → NodesAgree (put_node id t label p s)
unfolding put_node
put_node-NodesAgree s id t label p new l d h = record {
  labelled = λ n r g. ground (arith, get-insert s.nodes id n (made t p), h.labelled n r);
  registered = λ n r g. ground (arith, get-insert s.nodes id n (made t p), h.registered n r);
  embedded = λ n r g. elim (Bool-cases (id == n)) [
    | inl same ↦
        let e : made t p ≡ r = ground (arith, get-insert s.nodes id n (made t p)) in
        subst (λ (x : NodeRecord). EmbeddingOk (get s.embedding_dim x.node_type) x.embedding) e tt
    | inr other ↦ h.embedded n r (ground (arith, get-insert s.nodes id n (made t p)))
  ];
  by_type = λ u n. ground (
    arith,
    get-insert s.nodes id n (made t p),
    holds-push_to s.nodes_by_type t id u n,
    h.by_type u n,
  );
  declared = h.declared;
  labels = h.labels;
}

-- Nodes stay: what an edge points to is still there.
abbrev mixed : Store → Store → Store
mixed s s' = record s {
  next_node_id = s'.next_node_id;
  next_edge_id = s'.next_edge_id;
  prop_index = s'.prop_index;
}

pub EdgesAgree-more_nodes :
    (s s' : Store)
    → EdgesAgree s
    → ((n : ℕ) → contains_key s.nodes n ≡ true → contains_key s'.nodes n ≡ true)
    → EdgesAgree (record s' {
      edges = s.edges;
      out_adj = s.out_adj;
      in_adj = s.in_adj;
      edges_by_type = s.edges_by_type;
      edge_types = s.edge_types;
    })
EdgesAgree-more_nodes s s' h more = record {
  from_node = λ e r g. more r.source (h.from_node e r g);
  to_node = λ e r g. more r.target (h.to_node e r g);
  labelled = h.labelled;
  finite = h.finite;
  outbound = h.outbound;
  inbound = h.inbound;
  by_type = h.by_type;
  out_sorted = h.out_sorted;
  in_sorted = h.in_sorted;
  out_distinct = h.out_distinct;
  in_distinct = h.in_distinct;
  labels = h.labels;
}

-- The agreement of the nodes is about these fields alone.
pub NodesAgree-rest :
    (s s' : Store)
    → NodesAgree s
    → NodesAgree (record s' {
      nodes = s.nodes;
      node_types = s.node_types;
      embedding_dim = s.embedding_dim;
      nodes_by_type = s.nodes_by_type;
    })
NodesAgree-rest s s' h = record {
  labelled = h.labelled;
  registered = h.registered;
  embedded = h.embedded;
  declared = h.declared;
  by_type = h.by_type;
  labels = h.labels;
}

-- Allocators and the property index are not part of the agreement.
pub IsConsistent-rest :
    (s s' : Store)
    → IsConsistent s
    → IsConsistent (record s {
      next_node_id = s'.next_node_id;
      next_edge_id = s'.next_edge_id;
      prop_index = s'.prop_index;
    })
IsConsistent-rest s s' c = record {
  nodes_agree = NodesAgree-rest s (mixed s s') c.nodes_agree;
  edges_agree = EdgesAgree-more_nodes s (mixed s s') c.edges_agree (λ n m. m);
}

pub put_node-EdgesAgree :
    (s : Store) (id t : ℕ) (label : Text) (p : Properties)
    → EdgesAgree s
    → EdgesAgree (put_node id t label p s)
unfolding put_node
put_node-EdgesAgree s id t label p h =
    EdgesAgree-more_nodes s (put_node id t label p s) h
      λ n m. ground (arith, get-insert s.nodes id n (made t p))

-- A record written again, with the same type and an embedding that fits.
module _ (s : Store) (id : ℕ) (old : NodeRecord) (was : get s.nodes id ≡ some old) where
  rewritten :
      (rec : NodeRecord)
      → rec.node_type ≡ old.node_type
      → EmbeddingOk (get s.embedding_dim rec.node_type) rec.embedding
      → NodesAgree s
      → NodesAgree (record s { nodes = insert s.nodes id rec })
  rewritten rec t v h = record {
    labelled =
        λ n r g. ground (arith, get-insert s.nodes id n rec, h.labelled n r, h.labelled id old);
    registered =
        λ n r g. ground (arith, get-insert s.nodes id n rec, h.registered n r, h.registered id old);
    embedded = λ n r g. elim (Bool-cases (id == n)) [
      | inl same ↦
          let e : rec ≡ r = ground (arith, get-insert s.nodes id n rec) in
          subst (λ (x : NodeRecord). EmbeddingOk (get s.embedding_dim x.node_type) x.embedding) e v
      | inr other ↦ h.embedded n r (ground (arith, get-insert s.nodes id n rec))
    ];
    by_type =
        λ u n. ground (arith, get-insert s.nodes id n rec, get_of_eq s.nodes id n, h.by_type u n);
    declared = h.declared;
    labels = h.labels;
  }

  rewritten_edges :
      (rec : NodeRecord) → EdgesAgree s → EdgesAgree (record s { nodes = insert s.nodes id rec })
  rewritten_edges rec h =
      EdgesAgree-more_nodes s (record s { nodes = insert s.nodes id rec }) h
        λ n m. ground (arith, get-insert s.nodes id n rec)

  pub put_embedding-NodesAgree :
      (v : Option (List ℕ))
      → EmbeddingOk (get s.embedding_dim old.node_type) v
      → NodesAgree s
      → NodesAgree (put_embedding id old v s)
  unfolding put_embedding
  put_embedding-NodesAgree v ok h = rewritten (record old { embedding = v }) refl ok h

  pub put_embedding-EdgesAgree :
      (v : Option (List ℕ)) → EdgesAgree s → EdgesAgree (put_embedding id old v s)
  unfolding put_embedding
  put_embedding-EdgesAgree v h = rewritten_edges (record old { embedding = v }) h

  pub put_properties-NodesAgree :
      (p : Properties) → NodesAgree s → NodesAgree (put_properties id old p s)
  unfolding put_properties
  put_properties-NodesAgree p h =
      rewritten (record old { properties = p }) refl (h.embedded id old was) h

  pub put_properties-EdgesAgree :
      (p : Properties) → EdgesAgree s → EdgesAgree (put_properties id old p s)
  unfolding put_properties
  put_properties-EdgesAgree p h = rewritten_edges (record old { properties = p }) h

label_of_eq :
    (s : Store) (t u : ℕ)
    → (t =? u) ≡ true
    → Interner.label s.node_types t ≡ Interner.label s.node_types u
label_of_eq s t u h = ap (Interner.label s.node_types) ((=?_iff t u).0 h)

-- A type label is interned: what had a label has it still.
pub intern-NodesAgree :
    (s : Store) (label : Text)
    → length s.node_types.labels < 2 ^ 32
    → NodesAgree s
    → NodesAgree (record s { node_types = (Interner.intern s.node_types label).0 })
intern-NodesAgree s label room h =
    let i = intern_lem s.node_types label h.labels room in
    let keep = λ (t : ℕ). label_kept s.node_types label h.labels i t in
    record {
      labelled = λ n r g. keep r.node_type (h.labelled n r g);
      registered = h.registered;
      embedded = h.embedded;
      declared = λ t d. keep t (h.declared t d);
      by_type = h.by_type;
      labels = i.valid;
    }

pub intern-EdgesAgree :
    (s : Store) (label : Text)
    → length s.edge_types.labels < 2 ^ 32
    → EdgesAgree s
    → EdgesAgree (record s { edge_types = (Interner.intern s.edge_types label).0 })
intern-EdgesAgree s label room h =
    let i = intern_lem s.edge_types label h.labels room in
    record {
      from_node = h.from_node;
      to_node = h.to_node;
      labelled = λ e r g. label_kept s.edge_types label h.labels i r.edge_type (h.labelled e r g);
      finite = h.finite;
      outbound = h.outbound;
      inbound = h.inbound;
      by_type = h.by_type;
      out_sorted = h.out_sorted;
      in_sorted = h.in_sorted;
      out_distinct = h.out_distinct;
      in_distinct = h.in_distinct;
      labels = i.valid;
    }

-- A declaration of a type that has a label: a type that was declared keeps its dimension.
pub declare-NodesAgree :
    (s : Store) (t : ℕ) (dim : Option ℕ)
    → conflicts (get s.embedding_dim t) dim ≡ false
    → is_some (Interner.label s.node_types t) ≡ true
    → NodesAgree s
    → NodesAgree (declare t dim s)
unfolding declare
declare-NodesAgree s t dim c l h = record {
  declared = λ u d. ground (
    arith,
    get-insert s.embedding_dim t u dim,
    get_of_eq s.embedding_dim t u,
    label_of_eq s t u,
    h.declared u,
  );
  labelled = h.labelled;
  registered =
      λ n r g. ground (arith, get-insert s.embedding_dim t r.node_type dim, h.registered n r);
  embedded =
      λ n r g. rw (declaration_kept s t dim c r.node_type (h.registered n r g)) (h.embedded n r g);
  by_type = λ u n. holds-open_bucket s.nodes_by_type t u n ∙ h.by_type u n;
  labels = h.labels;
}

-- The removal of a node with no edges at it.
pub drop_node-NodesAgree :
    (s : Store) (id : ℕ) (rec : NodeRecord) (label : Text)
    → get s.nodes id ≡ some rec
    → NodesAgree s
    → NodesAgree (drop_node id rec label s)
unfolding drop_node
drop_node-NodesAgree s id rec label was h = record {
  labelled = λ n r g. ground (arith, get-remove s.nodes id n, h.labelled n r);
  registered = λ n r g. ground (arith, get-remove s.nodes id n, h.registered n r);
  embedded = λ n r g. h.embedded n r (ground (arith, get-remove s.nodes id n));
  by_type = λ u n. ground (
    arith,
    get-remove s.nodes id n,
    get_of_eq s.nodes id n,
    holds-remove_from_vec s.nodes_by_type rec.node_type id u n,
    h.by_type u n,
  );
  declared = h.declared;
  labels = h.labels;
}

pub drop_node-EdgesAgree :
    (s : Store) (id : ℕ) (rec : NodeRecord) (label : Text)
    → ((e : ℕ) (r : EdgeRecord) → get s.edges e ≡ some r → (r.source ≢ id) × (r.target ≢ id))
    → EdgesAgree s
    → EdgesAgree (drop_node id rec label s)
unfolding drop_node
drop_node-EdgesAgree s id rec label apart h = record {
  from_node = λ e r g. ground (arith, get-remove s.nodes id r.source, h.from_node e r, apart e r g);
  to_node = λ e r g. ground (arith, get-remove s.nodes id r.target, h.to_node e r, apart e r g);
  labelled = h.labelled;
  finite = h.finite;
  outbound = h.outbound;
  inbound = h.inbound;
  by_type = h.by_type;
  out_sorted = h.out_sorted;
  in_sorted = h.in_sorted;
  out_distinct = h.out_distinct;
  in_distinct = h.in_distinct;
  labels = h.labels;
}
