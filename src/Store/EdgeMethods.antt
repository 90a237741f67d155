-- ===== src/Store/EdgeMethods.antt =====
-- The methods on edges: each one either fails and leaves the store as it was, or succeeds and
-- leaves it consistent, with the effect that is stated.
use drey.Prelude.{
  ℕ, ◌+◌, ◌^◌, ◌<◌, ◌≡◌, refl, ap, true, not, none, some, ◌==◌, is_some, arith, length,
  if◌then◌else◌,
}
use drey.Error.{ok, returns, invalid_edge_type}
use drey.Atomic.{Atomic, done, Atomic-require, Atomic-lift, Atomic-ok_or, Atomic-bind}
use drey.Ord.{Text, text_ord, nat_ord, nat_lawful}
use drey.Float.{is_finite32}
use drey.Map.{Map, get, insert, contains_key}
use drey.Map.Laws.{get-insert, get-remove}
use drey.Types.{Properties}
use drey.Records.{NodeRecord, EdgeRecord}
use drey.Interner
use drey.Interner.{Interner}
use drey.Interner.Laws.{intern_lem}
use drey.Store.{Store, checked_succ, validate_label, validate_properties, validate_weight}
use drey.Store.Edges.{
  intern_edge_type, put_edge, insert_edge_checked, add_edge, put_edge_record, set_edge_weight,
  drop_edge, remove_edge,
}
use drey.Store.Consistent.{IsConsistent, IsAllocated}
use drey.Store.EdgeLaws.{put_edge-EdgesAgree, put_edge_record-EdgesAgree, drop_edge-EdgesAgree}
use drey.Store.NodeLaws.{NodesAgree-rest, IsConsistent-rest, intern-EdgesAgree}
use drey.Store.NodeMethods.{validate_properties-returns, none_of_not}
use drey.Store.Registration.{validate_label-returns}

validate_weight-returns : (w : ℕ) → returns (validate_weight w) ≡ true
unfolding validate_weight
validate_weight-returns w = ground arith

finite_of_ok : (w : ℕ) → validate_weight w ≡ ok tt → is_finite32 w ≡ true
unfolding validate_weight
finite_of_ok w h = ground arith

-- An edge between two nodes was added under an id that was free.
pub record EdgeInserted (id source target : ℕ) (label : Text) (w : ℕ) (p : Properties)
    (s s' : Store) : Type 0 where
  pub consistent : IsConsistent s'
  pub was_free : get s.edges id ≡ none
  pub from_node : contains_key s.nodes source ≡ true
  pub to_node : contains_key s.nodes target ≡ true
  pub finite : is_finite32 w ≡ true
  pub checked : validate_properties p ≡ ok tt
  pub rec : EdgeRecord
  pub rec_is : rec ≡ record {
    source = source;
    target = target;
    edge_type = rec.edge_type;
    weight = w;
    properties = p;
  }
  pub named : Interner.get s'.edge_types label ≡ some rec.edge_type
  pub edges : s'.edges ≡ insert s.edges id rec
  pub nodes_kept : s'.nodes ≡ s.nodes
  pub allocators : (s'.next_node_id ≡ s.next_node_id) × (s'.next_edge_id ≡ s.next_edge_id)

abbrev interned : Store → Text → Store
interned s label = record s { edge_types = (Interner.intern s.edge_types label).0 }

put_edge_lem :
    (id source target : ℕ) (label : Text) (w : ℕ) (p : Properties) (s : Store)
    → length s.edge_types.labels < 2 ^ 32
    → IsConsistent s
    → get s.edges id ≡ none
    → contains_key s.nodes source ≡ true
    → contains_key s.nodes target ≡ true
    → is_finite32 w ≡ true
    → validate_properties p ≡ ok tt
    → EdgeInserted id source target label w p s (
        put_edge id
          (record {
            source = source;
            target = target;
            edge_type = (Interner.intern s.edge_types label).1;
            weight = w;
            properties = p;
          })
          (interned s label))
unfolding put_edge
put_edge_lem id source target label w p s room c free a b f checked =
    let i = intern_lem s.edge_types label c.edges_agree.labels room in
    let rec : EdgeRecord = record {
      source = source;
      target = target;
      edge_type = (Interner.intern s.edge_types label).1;
      weight = w;
      properties = p;
    } in
    let t = interned s label in
    record {
      consistent = record {
        nodes_agree = NodesAgree-rest s (put_edge id rec t) c.nodes_agree;
        edges_agree =
            put_edge-EdgesAgree t id rec free a b (ground (arith, i.label_id)) f
              (intern-EdgesAgree s label room c.edges_agree);
      };
      was_free = free;
      from_node = a;
      to_node = b;
      finite = f;
      checked = checked;
      rec = rec;
      rec_is = refl;
      named = i.get_id;
      edges = refl;
      nodes_kept = refl;
      allocators = (refl, refl);
    }

-- On a consistent store with fewer than 2^32 edge labels, `insert_edge_checked`, with which a
-- replay restores an edge under its id, does not panic, and leaves the store as it was where it
-- fails. Where it succeeds the id was free, both ends are nodes, the weight is finite and the
-- properties are valid, the edge is recorded with the id of its type's label, and the store is
-- consistent.
pub insert_edge_checked_lem :
    (id source target : ℕ) (label : Text) (w : ℕ) (p : Properties) (s : Store)
    → length s.edge_types.labels < 2 ^ 32
    → IsConsistent s
    → Atomic s
        (λ s' _. EdgeInserted id source target label w p s s')
        (insert_edge_checked id source target label w p s)
unfolding insert_edge_checked intern_edge_type
insert_edge_checked_lem id source target label w p s room c =
    Atomic-require _ (contains_key s.nodes source) _ _ λ a.
      Atomic-require _ (contains_key s.nodes target) _ _ λ b.
        Atomic-lift _ (validate_properties p) _ (validate_properties-returns p) λ u checked.
          Atomic-lift _ (validate_weight w) _ (validate_weight-returns w) λ u' finite.
            Atomic-lift _ (validate_label label invalid_edge_type) _
              (validate_label-returns label _)
              λ u'' fits. Atomic-require _ (not (contains_key s.edges id)) _ _ λ free. done _ tt (
                put_edge_lem id source target label w p s room c (none_of_not (get s.edges id) free)
                  a b (finite_of_ok w finite) checked)

-- What `add_edge` gives: the next id, which the allocator then stands above.
pub record EdgeAdded (source target : ℕ) (label : Text) (w : ℕ) (p : Properties) (s s' : Store)
    (id : ℕ) : Type 0 where
  pub consistent : IsConsistent s'
  pub allocated : IsAllocated s → IsAllocated s'
  pub id_is : id ≡ s.next_edge_id
  pub next_is : s'.next_edge_id ≡ id + 1
  pub rec : EdgeRecord
  pub rec_is : rec ≡ record {
    source = source;
    target = target;
    edge_type = rec.edge_type;
    weight = w;
    properties = p;
  }
  pub named : Interner.get s'.edge_types label ≡ some rec.edge_type
  pub edges : s'.edges ≡ insert s.edges id rec
  pub nodes_kept : s'.nodes ≡ s.nodes

pub add_edge_lem :
    (source target : ℕ) (label : Text) (w : ℕ) (p : Properties) (s : Store)
    → length s.edge_types.labels < 2 ^ 32
    → IsConsistent s
    → Atomic s (EdgeAdded source target label w p s) (add_edge source target label w p s)
unfolding add_edge
add_edge_lem source target label w p s room c =
    let id = s.next_edge_id in
    Atomic-ok_or _ (checked_succ id) _ _ λ next succ.
      Atomic-bind _ (insert_edge_checked id source target label w p) _
        (insert_edge_checked_lem id source target label w p s room c)
        λ s' u i.
          let next_is : next ≡ id + 1 = ground arith in
          let t = record s' { next_edge_id = next } in
          (
            t,
            id,
            refl,
            record {
              consistent = IsConsistent-rest s' t i.consistent;
              allocated = λ a. record {
                node_ids = λ n r g. ground (
                  arith,
                  a.node_ids n r,
                  ap (λ (m : Map ℕ NodeRecord). get m n) i.nodes_kept,
                  i.allocators.0,
                );
                edge_ids = λ e r g. ground (
                  arith,
                  a.edge_ids e r,
                  ap (λ (m : Map ℕ EdgeRecord). get m e) i.edges,
                  get-insert s.edges id e i.rec,
                );
              };
              id_is = refl;
              next_is = next_is;
              rec = i.rec;
              rec_is = i.rec_is;
              named = i.named;
              edges = i.edges;
              nodes_kept = i.nodes_kept;
            },
          )

-- What a write to a live edge gives.
pub record EdgeRewritten (edge : ℕ) (change : EdgeRecord → EdgeRecord) (s s' : Store) : Type 0 where
  pub consistent : IsConsistent s'
  pub old : EdgeRecord
  pub was : get s.edges edge ≡ some old
  pub result : s' ≡ record s { edges = insert s.edges edge (change old) }

abbrev pub reweighted : ℕ → EdgeRecord → EdgeRecord
reweighted w rec = record rec { weight = w }

pub put_edge_record_lem :
    (edge : ℕ) (old rec : EdgeRecord) (s : Store)
    → IsConsistent s
    → get s.edges edge ≡ some old
    → rec.source ≡ old.source
    → rec.target ≡ old.target
    → rec.edge_type ≡ old.edge_type
    → is_finite32 rec.weight ≡ true
    → IsConsistent (put_edge_record edge rec s)
put_edge_record_lem edge old rec s c was a b t f = record {
  nodes_agree =
      unfold put_edge_record in NodesAgree-rest s (put_edge_record edge rec s) c.nodes_agree;
  edges_agree = put_edge_record-EdgesAgree s edge old rec was a b t f c.edges_agree;
}

-- On a consistent store, `set_edge_weight` does not panic, and leaves the store as it was where it
-- fails. Where it succeeds the edge was there, only its weight changed, the weight written is
-- returned, and the store is consistent.
pub set_edge_weight_lem :
    (edge w : ℕ) (s : Store)
    → IsConsistent s
    → Atomic s (λ s' a. EdgeRewritten edge (reweighted w) s s' × (a ≡ w)) (set_edge_weight edge w s)
unfolding set_edge_weight
set_edge_weight_lem edge w s c =
    Atomic-lift _ (validate_weight w) _ (validate_weight-returns w) λ u finite.
      Atomic-ok_or _ (get s.edges edge) _ _ λ old was.
        done (put_edge_record edge (reweighted w old) s) w (
          record {
            consistent =
                put_edge_record_lem edge old (reweighted w old) s c was refl refl refl
                  (finite_of_ok w finite);
            old = old;
            was = was;
            result = unfold put_edge_record in refl;
          },
          refl,
        )

-- What `remove_edge` gives: that edge is gone, and nothing else.
pub record EdgeRemoved (edge : ℕ) (s s' : Store) : Type 0 where
  pub consistent : IsConsistent s'
  pub was_there : is_some (get s.edges edge) ≡ true
  pub edges : (e : ℕ) → get s'.edges e ≡ (if edge == e then none else get s.edges e)
  pub nodes_kept : s'.nodes ≡ s.nodes

pub remove_edge_lem :
    (edge : ℕ) (s : Store)
    → IsConsistent s
    → Atomic s (λ s' _. EdgeRemoved edge s s') (remove_edge edge s)
unfolding remove_edge
remove_edge_lem edge s c = Atomic-ok_or _ (get s.edges edge) _ _ λ rec was.
    done (drop_edge edge rec s) tt (record {
      consistent = record {
        nodes_agree = unfold drop_edge in NodesAgree-rest s (drop_edge edge rec s) c.nodes_agree;
        edges_agree = drop_edge-EdgesAgree s edge rec was c.edges_agree;
      };
      was_there = ground arith;
      edges = λ e. unfold drop_edge in ground (arith, get-remove s.edges edge e);
      nodes_kept = unfold drop_edge in refl;
    })
