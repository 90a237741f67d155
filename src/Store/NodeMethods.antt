-- ===== src/Store/NodeMethods.antt =====
-- The methods on node types and nodes: each one either fails and leaves the store as it was, or
-- succeeds and leaves it consistent, with the effect that is stated.
use drey.Prelude.{
  ℕ, ◌+◌, ◌≡◌, refl, ap, Bool, true, false, not, Option, none, some, List, [], ◌∷◌, ◌==◌, is_some,
  arith, length, Bool-cases, inl, inr,
}
use drey.Error.{Error, ok, guard, returns}
use drey.Atomic.{Atomic, fails, done, Atomic-require, Atomic-lift, Atomic-ok_or, Atomic-bind}
use drey.Ord.{Text, nat_ord, nat_lawful, text_ord}
use drey.Map.{Map, get, insert, contains_key}
use drey.Index.Posts.{found, found-index_node_properties}
use drey.Index.Lookups.{Finds, ids-index_node_properties}
use drey.Map.Laws.{get-insert}
use drey.Types.{Properties, Scalar}
use drey.Records.{NodeRecord, EdgeRecord}
use drey.Store.{
  Store, checked_succ, validate_key, validate_properties, all_finite, require_registered,
}
use drey.Store.Nodes.{
  put_node, insert_node_checked, add_node, flatten, check_dim, put_embedding, set_node_embedding,
  clear_node_embedding,
}
use drey.Store.Consistent.{IsConsistent, IsAllocated}
use drey.Store.NodeLaws.{
  put_node-NodesAgree, put_node-EdgesAgree, put_embedding-NodesAgree, put_embedding-EdgesAgree,
  IsConsistent-rest,
}

-- The gates return: none of them panics.
guard-returns : (b : Bool) (e : Error) → returns (guard b e) ≡ true
guard-returns true e = refl
guard-returns false e = refl

pub validate_properties-returns : (p : Properties) → returns (validate_properties p) ≡ true
unfolding validate_properties validate_key
validate_properties-returns [] = refl
validate_properties-returns ((k, v) ∷ p) = ground (arith, validate_properties-returns p)

require_registered-returns :
    (s : Store) (label : Text) → returns (require_registered s label) ≡ true
unfolding require_registered
require_registered-returns s label = ground arith

registered_of_ok :
    (s : Store) (label : Text) (t : ℕ)
    → require_registered s label ≡ ok t
    → contains_key s.embedding_dim t ≡ true
unfolding require_registered
registered_of_ok s label t h = ground arith

-- A node of a registered type was added under an id that was free.
pub record NodeInserted (id : ℕ) (label : Text) (p : Properties) (s s' : Store) : Type 0 where
  pub consistent : IsConsistent s'
  pub was_free : get s.nodes id ≡ none
  pub checked : validate_properties p ≡ ok tt
  pub type_id : ℕ
  pub typed : require_registered s label ≡ ok type_id
  pub nodes :
      s'.nodes
      ≡ insert s.nodes id (record { node_type = type_id; properties = p; embedding = none })
  pub edges_kept : s'.edges ≡ s.edges
  pub allocators : (s'.next_node_id ≡ s.next_node_id) × (s'.next_edge_id ≡ s.next_edge_id)
  pub finds : Finds s.indexed label p s'.prop_index type_id id
  -- What stood in the property index stands there.
  pub found_kept :
      (u : ℕ) (k : Text) (v : Scalar) (node : ℕ)
      → found s.prop_index u k v node ≡ true
      → found s'.prop_index u k v node ≡ true

pub some_of_is_some : {A : Type 0} (o : Option A) → is_some o ≡ true → (a : A) × (o ≡ some a)
some_of_is_some none h = absurd (ground arith)
some_of_is_some (some a) h = (a, refl)

pub none_of_not : {A : Type 0} (o : Option A) → not (is_some o) ≡ true → o ≡ none
none_of_not none h = refl
none_of_not (some a) h = absurd (ground arith)

-- On a consistent store, `insert_node_checked`, with which a replay restores a node under its id,
-- does not panic, and leaves the store as it was where it fails. Where it succeeds the id was
-- free, the type registered and the properties valid, the node is recorded with its type, these
-- properties and no embedding, no other node, no edge and no allocator changed, the property index
-- gives the node for each of its indexed properties with a scalar value and has every node where
-- it had it, and the store is consistent.
pub insert_node_checked_lem :
    (id : ℕ) (label : Text) (p : Properties) (s : Store)
    → IsConsistent s
    → Atomic s (λ s' _. NodeInserted id label p s s') (insert_node_checked id label p s)
unfolding insert_node_checked
insert_node_checked_lem id label p s c =
    Atomic-lift _ (require_registered s label) _ (require_registered-returns s label) λ t typed.
      Atomic-lift _ (validate_properties p) _ (validate_properties-returns p) λ u checked.
        Atomic-require _ (not (contains_key s.nodes id)) _ _ λ free.
          let was_free = none_of_not (get s.nodes id) free in
          let declared = registered_of_ok s label t typed in
          let labelled = c.nodes_agree.declared t declared in
          done (put_node id t label p s) tt (record {
            consistent = record {
              nodes_agree =
                  put_node-NodesAgree s id t label p was_free labelled declared c.nodes_agree;
              edges_agree = put_node-EdgesAgree s id t label p c.edges_agree;
            };
            was_free = was_free;
            checked = checked;
            type_id = t;
            typed = typed;
            nodes = unfold put_node in refl;
            edges_kept = unfold put_node in refl;
            allocators = unfold put_node in (refl, refl);
            finds =
                unfold put_node in ids-index_node_properties s.indexed t label id p s.prop_index;
            found_kept =
                unfold put_node in found-index_node_properties s.indexed t label id p s.prop_index;
          })

-- What `add_node` gives: the next id, which the allocator then stands above.
pub record NodeAdded (label : Text) (p : Properties) (s s' : Store) (id : ℕ) : Type 0 where
  pub consistent : IsConsistent s'
  pub allocated : IsAllocated s → IsAllocated s'
  pub id_is : id ≡ s.next_node_id
  pub next_is : s'.next_node_id ≡ id + 1
  pub was_free : get s.nodes id ≡ none
  pub type_id : ℕ
  pub typed : require_registered s label ≡ ok type_id
  pub nodes :
      s'.nodes
      ≡ insert s.nodes id (record { node_type = type_id; properties = p; embedding = none })
  pub edges_kept : s'.edges ≡ s.edges
  pub finds : Finds s.indexed label p s'.prop_index type_id id

IsAllocated-inserted :
    (id t : ℕ) (p : Properties) (s s' : Store)
    → id ≡ s.next_node_id
    → s'.nodes ≡ insert s.nodes id (record { node_type = t; properties = p; embedding = none })
    → s'.edges ≡ s.edges
    → s'.next_edge_id ≡ s.next_edge_id
    → IsAllocated s
    → IsAllocated (record s' { next_node_id = id + 1 })
IsAllocated-inserted id t p s s' e nodes edges next a = record {
  node_ids = λ n r g. ground (
    arith,
    ap (λ (m : Map ℕ NodeRecord). get m n) nodes,
    get-insert s.nodes id n (record { node_type = t; properties = p; embedding = none }),
    a.node_ids n r,
  );
  edge_ids = λ n r g. ground (arith, ap (λ (m : Map ℕ EdgeRecord). get m n) edges, a.edge_ids n r);
}

next_record : (s : Store) (n : ℕ) → IsConsistent s → IsConsistent (record s { next_node_id = n })
next_record s n c = IsConsistent-rest s (record s { next_node_id = n }) c

pub add_node_lem :
    (label : Text) (p : Properties) (s : Store)
    → IsConsistent s
    → Atomic s (NodeAdded label p s) (add_node label p s)
unfolding add_node
add_node_lem label p s c =
    let id = s.next_node_id in
    Atomic-ok_or _ (checked_succ id) _ _ λ next succ.
      Atomic-bind _ (insert_node_checked id label p) _ (insert_node_checked_lem id label p s c)
        λ s' u i.
          let next_is : next ≡ id + 1 = ground arith in
          (
            record s' { next_node_id = next },
            id,
            refl,
            record {
              consistent = next_record s' next i.consistent;
              allocated = λ a. rw next_is (
                  IsAllocated-inserted id i.type_id p s s' refl i.nodes i.edges_kept i.allocators.1
                    a);
              id_is = refl;
              next_is = next_is;
              was_free = i.was_free;
              type_id = i.type_id;
              typed = i.typed;
              nodes = i.nodes;
              edges_kept = i.edges_kept;
              finds = i.finds;
            },
          )

-- What `set_node_embedding` writes: a finite vector of the declared dimension.
pub record EmbeddingSet (node : ℕ) (v : List ℕ) (s s' : Store) : Type 0 where
  pub consistent : IsConsistent s'
  pub rec : NodeRecord
  pub was : get s.nodes node ≡ some rec
  pub dim : flatten (get s.embedding_dim rec.node_type) ≡ some (length v)
  pub finite : all_finite v ≡ true
  pub result : s' ≡ record s { nodes = insert s.nodes node (record rec { embedding = some v }) }

check_dim_lem :
    (d : Option ℕ) (n : ℕ) (s : Store)
    → Atomic s (λ s' _. (s' ≡ s) × (d ≡ some n)) (check_dim d n s)
unfolding check_dim
check_dim_lem none n s = fails _
check_dim_lem (some dim) n s = elim (Bool-cases (dim == n)) [
  | inl same ↦ rw same (done s tt (refl, ground arith))
  | inr other ↦ rw other (fails _)
]

pub set_node_embedding_lem :
    (node : ℕ) (v : List ℕ) (s : Store)
    → IsConsistent s
    → Atomic s (λ s' _. EmbeddingSet node v s s') (set_node_embedding node v s)
unfolding set_node_embedding
set_node_embedding_lem node v s c = Atomic-ok_or _ (get s.nodes node) _ _ λ rec was.
    Atomic-require _ (all_finite v) _ _ λ finite.
      let declared = flatten (get s.embedding_dim rec.node_type) in
      Atomic-bind _ (check_dim declared (length v)) _ (check_dim_lem declared (length v) s)
        λ s' u (same, dim). (
          put_embedding node rec (some v) s',
          tt,
          refl,
          record {
            consistent = rw same (record {
              nodes_agree =
                  put_embedding-NodesAgree s node rec was (some v) (finite, dim) c.nodes_agree;
              edges_agree = put_embedding-EdgesAgree s node rec was (some v) c.edges_agree;
            });
            rec = rec;
            was = was;
            dim = dim;
            finite = finite;
            result = unfold put_embedding in ap (put_embedding node rec (some v)) same;
          },
        )

-- What clearing an embedding writes.
pub record EmbeddingCleared (node : ℕ) (s s' : Store) : Type 0 where
  pub consistent : IsConsistent s'
  pub rec : NodeRecord
  pub was : get s.nodes node ≡ some rec
  pub result : s' ≡ record s { nodes = insert s.nodes node (record rec { embedding = none }) }

pub clear_node_embedding_lem :
    (node : ℕ) (s : Store)
    → IsConsistent s
    → Atomic s (λ s' _. EmbeddingCleared node s s') (clear_node_embedding node s)
unfolding clear_node_embedding
clear_node_embedding_lem node s c = Atomic-ok_or _ (get s.nodes node) _ _ λ rec was.
    done (put_embedding node rec none s) tt (record {
      consistent = record {
        nodes_agree = put_embedding-NodesAgree s node rec was none tt c.nodes_agree;
        edges_agree = put_embedding-EdgesAgree s node rec was none c.edges_agree;
      };
      rec = rec;
      was = was;
      result = unfold put_embedding in refl;
    })
