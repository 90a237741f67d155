-- ===== src/Persist/Load/Sound.antt =====
-- The records that `load_snapshot` of drey/src/persist/mod.rs accepts keep the store in agreement.
use drey.Prelude.{
  ℕ, zero, suc, ◌^◌, ◌<◌, ◌≡◌, refl, ap, ◌∙◌, true, false, Option, none, some, List, [], ◌∷◌, ltb,
  ◌==◌, length, get_elem?, arith, is_some, Bool-cases, inl, inr,
}
use mathlib.Core.Path.{subst}
use drey.Error.{ok}
use drey.Ord.{Text, text_ord, pair_ord, nat_ord, nat_lawful}
use drey.Float.{is_finite32}
use drey.Map.{Map, get, insert, contains_key}
use drey.Map.Laws.{get-insert}
use drey.Records.{NodeRecord, EdgeRecord}
use drey.Interner
use drey.Interner.{Interner}
use drey.Index.{push_to, index_node_properties}
use drey.Index.Buckets.{holds-push_to}
use drey.Index.Posts.{found, found-posted, found-index_node_properties}
use drey.Mutation.Patches.{latest}
use drey.Store.PropIndexed.{PropsIndexed}
use drey.Store.{Store}
use drey.Store.Consistent.{NodesAgree, IsConsistent, EmbeddingOk}
use drey.Store.Nodes.{declare, conflicts}
use drey.Store.NodeLaws.{EdgesAgree-more_nodes, NodesAgree-rest, declare-NodesAgree}
use drey.Store.Edges.{put_edge}
use drey.Store.EdgeLaws.{put_edge-EdgesAgree}
use drey.Store.Load.{insert_node_raw, insert_edge_raw}
use drey.Persist.Load.{type_count, check_embedding}

pub none_of_nil : {V : Type 0} (m : Map ℕ V) (k : ℕ) {v : V} → m ≡ [] → get m k ≡ some v → ⊥
unfolding get
none_of_nil m k e h = ground (arith, ap (λ x. get x k) e, h)

-- An id below the number of labels has one.
pub label_of_count :
    (i : Interner) (t : ℕ) → ltb t (type_count i) ≡ true → is_some (Interner.label i t) ≡ true
unfolding Interner.label
label_of_count i t h = go i.labels t (ground arith)
  where
    go : (ls : List Text) (t : ℕ) → t < length ls → is_some (get_elem? ls t) ≡ true
    go [] t h = absurd (omega arith)
    go (l ∷ ls) zero h = refl
    go (l ∷ ls) (suc t) h = go ls t (omega arith)

-- The tables of a store, and its agreement.
pub record Sound (nt et : Interner) (nn ne : ℕ) (s : Store) : Type 0 where
  pub node_types_are : s.node_types ≡ nt
  pub edge_types_are : s.edge_types ≡ et
  pub next_node_is : s.next_node_id ≡ nn
  pub next_edge_is : s.next_edge_id ≡ ne
  pub consistent : length nt.labels < 2 ^ 32 → length et.labels < 2 ^ 32 → IsConsistent s
  pub props_indexed : PropsIndexed s

unconflicted :
    (s : Store) (t : ℕ) (dim : Option ℕ)
    → contains_key s.embedding_dim t ≡ false
    → conflicts (get s.embedding_dim t) dim ≡ false
unfolding conflicts
unconflicted s t dim h = go (get s.embedding_dim t) h
  where
    go : (o : Option (Option ℕ)) → is_some o ≡ false → conflicts o dim ≡ false
    go none h = refl
    go (some d) h = absurd (ground arith)

-- The store with a node record written.
abbrev pub put_raw : ℕ → NodeRecord → Text → Store → Store
put_raw id rec label s = record s {
  nodes_by_type = push_to s.nodes_by_type rec.node_type id;
  nodes = insert s.nodes id rec;
  prop_index = index_node_properties s.indexed rec.node_type label id rec.properties s.prop_index;
}

pub insert_node_raw-label :
    (s : Store) (id : ℕ) (rec : NodeRecord) (label : Text)
    → Interner.label s.node_types rec.node_type ≡ some label
    → insert_node_raw id rec s ≡ (put_raw id rec label s, ok tt)
unfolding insert_node_raw
insert_node_raw-label s id rec label h = rw h refl

put_raw-NodesAgree :
    (s : Store) (id : ℕ) (rec : NodeRecord) (label : Text)
    → get s.nodes id ≡ none
    → Interner.label s.node_types rec.node_type ≡ some label
    → contains_key s.embedding_dim rec.node_type ≡ true
    → EmbeddingOk (get s.embedding_dim rec.node_type) rec.embedding
    → NodesAgree s
    → NodesAgree (put_raw id rec label s)
put_raw-NodesAgree s id rec label new l d ok_rec h = record {
  labelled = λ n r g. ground (arith, get-insert s.nodes id n rec, h.labelled n r, l);
  registered = λ n r g. ground (arith, get-insert s.nodes id n rec, h.registered n r);
  embedded = λ n r g. elim (Bool-cases (id == n)) [
    | inl same ↦
        let e : rec ≡ r = ground (arith, get-insert s.nodes id n rec) in
        subst (λ (x : NodeRecord). EmbeddingOk (get s.embedding_dim x.node_type) x.embedding) e
          ok_rec
    | inr other ↦ h.embedded n r (ground (arith, get-insert s.nodes id n rec))
  ];
  by_type = λ u n. ground (
    arith,
    get-insert s.nodes id n rec,
    holds-push_to s.nodes_by_type rec.node_type id u n,
    h.by_type u n,
  );
  declared = h.declared;
  labels = h.labels;
}

put_raw-PropsIndexed :
    (s : Store) (id : ℕ) (rec : NodeRecord) (label : Text)
    → Interner.label s.node_types rec.node_type ≡ some label
    → PropsIndexed s
    → PropsIndexed (put_raw id rec label s)
put_raw-PropsIndexed s id rec label l h n r g label' k value v named is last scalar =
    elim (Bool-cases (id == n)) [
      | inl same ↦
          let e : rec ≡ r = ground (arith, get-insert s.nodes id n rec, g) in
          let here : id ≡ n = ground (arith, same) in
          let named' : Interner.label s.node_types rec.node_type ≡ some label' =
            ap (λ (x : NodeRecord). Interner.label s.node_types x.node_type) e ∙ named in
          let same_label : label ≡ label' = ground (arith, l, named') in
          let there : contains_key s.indexed (label, k) ≡ true =
            ap (λ (x : Text). contains_key s.indexed (x, k)) same_label ∙ is in
          let last' : latest rec.properties k ≡ some value =
            ap (λ (x : NodeRecord). latest x.properties k) e ∙ last in
          subst
            (λ (x : NodeRecord). found (put_raw id rec label s).prop_index x.node_type k v n ≡ true)
            e
            (subst (λ m. found (put_raw id rec label s).prop_index rec.node_type k v m ≡ true) here
              (found-posted s.indexed rec.node_type label id rec.properties s.prop_index k value v
                there last' scalar))
      | inr other ↦
          found-index_node_properties s.indexed rec.node_type label id rec.properties s.prop_index
            r.node_type k v n
            (h n r (ground (arith, get-insert s.nodes id n rec, g)) label' k value v named is last
              scalar)
    ]

pub check_embedding-ok :
    (declared : Option ℕ) (v : Option (List ℕ))
    → check_embedding declared v ≡ ok tt
    → EmbeddingOk (some declared) v
unfolding check_embedding
check_embedding-ok declared none h = tt
check_embedding-ok none (some v) h = absurd (ground arith)
check_embedding-ok (some dim) (some v) h = (ground arith, ap some (ground arith))

module _ (nt et : Interner) (nn ne : ℕ) where
  pub declare-Sound :
      (s : Store) (t : ℕ) (dim : Option ℕ)
      → ltb t (type_count s.node_types) ≡ true
      → contains_key s.embedding_dim t ≡ false
      → Sound nt et nn ne s
      → Sound nt et nn ne (declare t dim s)
  unfolding declare
  declare-Sound s t dim below new h = record {
    node_types_are = h.node_types_are;
    edge_types_are = h.edge_types_are;
    next_node_is = h.next_node_is;
    next_edge_is = h.next_edge_is;
    consistent = λ a b.
        let c = h.consistent a b in
        record {
          nodes_agree =
              declare-NodesAgree s t dim (unconflicted s t dim new)
                (label_of_count s.node_types t below) c.nodes_agree;
          edges_agree = EdgesAgree-more_nodes s (declare t dim s) c.edges_agree (λ n m. m);
        };
    props_indexed = h.props_indexed;
  }

  pub index-Sound :
      (s s' : Store)
      → s.nodes ≡ []
      → Sound nt et nn ne s
      → Sound nt et nn ne (record s { indexed = s'.indexed })
  index-Sound s s' no_nodes h = record {
    node_types_are = h.node_types_are;
    edge_types_are = h.edge_types_are;
    next_node_is = h.next_node_is;
    next_edge_is = h.next_edge_is;
    consistent = λ a b.
        let c = h.consistent a b in
        let t : Store = record s { indexed = s'.indexed } in
        record {
          nodes_agree = NodesAgree-rest s t c.nodes_agree;
          edges_agree = EdgesAgree-more_nodes s t c.edges_agree (λ n m. m);
        };
    props_indexed = λ n r g. absurd (none_of_nil s.nodes n no_nodes g);
  }

  pub node-Sound :
      (s : Store) (id : ℕ) (rec : NodeRecord) (label : Text)
      → get s.nodes id ≡ none
      → Interner.label s.node_types rec.node_type ≡ some label
      → contains_key s.embedding_dim rec.node_type ≡ true
      → EmbeddingOk (get s.embedding_dim rec.node_type) rec.embedding
      → Sound nt et nn ne s
      → Sound nt et nn ne (put_raw id rec label s)
  node-Sound s id rec label new l d e h = record {
    node_types_are = h.node_types_are;
    edge_types_are = h.edge_types_are;
    next_node_is = h.next_node_is;
    next_edge_is = h.next_edge_is;
    consistent = λ a b.
        let c = h.consistent a b in
        record {
          nodes_agree = put_raw-NodesAgree s id rec label new l d e c.nodes_agree;
          edges_agree =
              EdgesAgree-more_nodes s (put_raw id rec label s) c.edges_agree
                (λ n m. ground (arith, get-insert s.nodes id n rec));
        };
    props_indexed = put_raw-PropsIndexed s id rec label l h.props_indexed;
  }

  pub edge-Sound :
      (s : Store) (id : ℕ) (rec : EdgeRecord)
      → get s.edges id ≡ none
      → contains_key s.nodes rec.source ≡ true
      → contains_key s.nodes rec.target ≡ true
      → ltb rec.edge_type (type_count s.edge_types) ≡ true
      → is_finite32 rec.weight ≡ true
      → Sound nt et nn ne s
      → Sound nt et nn ne (insert_edge_raw id rec s)
  unfolding insert_edge_raw
  edge-Sound s id rec new a b below f h = record {
    node_types_are = h.node_types_are;
    edge_types_are = h.edge_types_are;
    next_node_is = h.next_node_is;
    next_edge_is = h.next_edge_is;
    consistent = λ x y.
        let c = h.consistent x y in
        record {
          nodes_agree = NodesAgree-rest s (insert_edge_raw id rec s) c.nodes_agree;
          edges_agree =
              unfold put_edge in
              put_edge-EdgesAgree s id rec new a b (label_of_count s.edge_types rec.edge_type below)
                f c.edges_agree;
        };
    props_indexed = h.props_indexed;
  }
