-- ===== src/Store/Consistent.antt =====
-- When the records and the indexes of a store agree.
use drey.Prelude.{
  ℕ, ◌<◌, ◌≡◌, Bool, true, false, ◌&&◌, Option, none, some, List, [], ◌==◌, is_some, length,
}
use drey.Ord.{nat_ord}
use drey.Map.{get, get_or, contains_key}
use drey.Map.Keys.{sorted}
use drey.Float.{is_finite32}
use drey.Records.{NodeRecord, EdgeRecord}
use drey.Interner
use drey.Interner.Laws.{IsValid}
use drey.Index.Buckets.{holds, listed}
use drey.Index.Distinct.{DistinctBuckets}
use drey.Store.{Store, all_finite}
use drey.Store.Nodes.{flatten}

-- Where the indexes have to list a record.
abbrev pub starts_at : Option EdgeRecord → ℕ → ℕ → Bool
starts_at none n t = false
starts_at (some r) n t = r.source == n && r.edge_type == t

abbrev pub ends_at : Option EdgeRecord → ℕ → ℕ → Bool
ends_at none n t = false
ends_at (some r) n t = r.target == n && r.edge_type == t

abbrev pub edge_has_type : Option EdgeRecord → ℕ → Bool
edge_has_type none t = false
edge_has_type (some r) t = r.edge_type == t

abbrev pub node_has_type : Option NodeRecord → ℕ → Bool
node_has_type none t = false
node_has_type (some r) t = r.node_type == t

-- An embedding is finite and has the dimension that the type declares.
abbrev pub EmbeddingOk : Option (Option ℕ) → Option (List ℕ) → Type 0
EmbeddingOk declared none = Unit
EmbeddingOk declared (some v) = (all_finite v ≡ true) × (flatten declared ≡ some (length v))

pub record NodesAgree (s : Store) : Type 0 where
  -- A node's type has a label and is registered, and its embedding fits the declaration.
  pub labelled :
      (n : ℕ) (r : NodeRecord)
      → get s.nodes n ≡ some r
      → is_some (Interner.label s.node_types r.node_type) ≡ true
  pub registered :
      (n : ℕ) (r : NodeRecord)
      → get s.nodes n ≡ some r
      → contains_key s.embedding_dim r.node_type ≡ true
  pub embedded :
      (n : ℕ) (r : NodeRecord)
      → get s.nodes n ≡ some r
      → EmbeddingOk (get s.embedding_dim r.node_type) r.embedding
  -- Only a type with a label is registered.
  pub declared :
      (t : ℕ)
      → contains_key s.embedding_dim t ≡ true
      → is_some (Interner.label s.node_types t) ≡ true
  pub by_type : (t n : ℕ) → holds s.nodes_by_type t n ≡ node_has_type (get s.nodes n) t
  pub labels : IsValid s.node_types

pub record EdgesAgree (s : Store) : Type 0 where
  -- Both ends of an edge are nodes, its type has a label, and its weight is finite.
  pub from_node :
      (e : ℕ) (r : EdgeRecord) → get s.edges e ≡ some r → contains_key s.nodes r.source ≡ true
  pub to_node :
      (e : ℕ) (r : EdgeRecord) → get s.edges e ≡ some r → contains_key s.nodes r.target ≡ true
  pub labelled :
      (e : ℕ) (r : EdgeRecord)
      → get s.edges e ≡ some r
      → is_some (Interner.label s.edge_types r.edge_type) ≡ true
  pub finite : (e : ℕ) (r : EdgeRecord) → get s.edges e ≡ some r → is_finite32 r.weight ≡ true
  -- The indexes list exactly the edges.
  pub outbound : (n t e : ℕ) → listed s.out_adj n t e ≡ starts_at (get s.edges e) n t
  pub inbound : (n t e : ℕ) → listed s.in_adj n t e ≡ ends_at (get s.edges e) n t
  pub by_type : (t e : ℕ) → holds s.edges_by_type t e ≡ edge_has_type (get s.edges e) t
  -- The types of an adjacency stand once each, in order.
  pub out_sorted : (n : ℕ) → sorted (get_or s.out_adj n []) ≡ true
  pub in_sorted : (n : ℕ) → sorted (get_or s.in_adj n []) ≡ true
  -- Their lists name no edge twice.
  pub out_distinct : (n : ℕ) → DistinctBuckets (get_or s.out_adj n [])
  pub in_distinct : (n : ℕ) → DistinctBuckets (get_or s.in_adj n [])
  pub labels : IsValid s.edge_types

pub record IsConsistent (s : Store) : Type 0 where
  pub nodes_agree : NodesAgree s
  pub edges_agree : EdgesAgree s

-- Every id that is in use was handed out: the allocators stand above them.
pub record IsAllocated (s : Store) : Type 0 where
  pub node_ids : (n : ℕ) (r : NodeRecord) → get s.nodes n ≡ some r → n < s.next_node_id
  pub edge_ids : (e : ℕ) (r : EdgeRecord) → get s.edges e ≡ some r → e < s.next_edge_id
