-- ===== src/Persist/Load.antt =====
-- `load_snapshot` of drey/src/persist/mod.rs: an image decoded and checked, record by record. Reserving
-- memory for the tables is left out.
pub mod Sound
pub mod Loops
pub mod Laws
use drey.Prelude.{
  ℕ, zero, suc, ◌-◌, ◌%◌, ◌^◌, Bool, true, false, not, Option, none, some, List, [], ◌∷◌, ◌++◌, ltb,
  leb, ◌==◌, length, take, drop, if◌then◌else◌,
}
use Prim.Native.Nat.{max}
use drey.Error.{
  Exec, Result, ok, err, panic, guard, and_then, pure, raise, lift, ok_or, gets, require, codec,
  version_mismatch, ◌>>=◌, ◌>>◌,
}
use drey.Ord.{Text, ◌=?◌, text_ord, nat_ord, pair_ord}
use drey.Map.{get, insert, contains_key}
use drey.Records.{NodeRecord, EdgeRecord}
use drey.Interner
use drey.Interner.{Interner, from_labels}
use drey.Config.{GraphConfig}
use drey.Index.{Indexed}
use drey.Store
use drey.Store.{Store, validate_properties, validate_weight, all_finite}
use drey.Store.Nodes.{declare}
use drey.Store.Load.{insert_node_raw, insert_edge_raw}
use drey.Graph.{validate_embedding_dim}
use drey.Codec.Le.{from_le_bytes}
use drey.Codec.Crc.{crc32}
use drey.Codec.Reader
use drey.Codec.Reader.{Reader, remaining}
use drey.Codec.Records.{read_node_record, read_edge_record}
use drey.Persist.Format.{magic, format_version}

-- `snapshot_header`.
unfoldable pub snapshot_header : Exec Reader ℕ
snapshot_header = do
  m ← Reader.repeat 4 Reader.u8
  require (m =? magic) codec
  version ← Reader.u32
  require (version == format_version) (version_mismatch version format_version)
  Reader.u64

-- A table of labels, as an interner.
unfoldable pub read_labels : Exec Reader Interner
unfolding from_labels
read_labels = do
  n ← Reader.u32
  n ← Reader.checked_len n 4
  labels ← Reader.repeat n Reader.str
  lift (from_labels labels)

-- `for _ in 0..n`, over what the body changes.
unfoldable pub times {ℓ} : {A : Type ℓ} → ℕ → (A → Exec Reader A) → A → Exec Reader A
times zero body a = pure a
times (suc n) body a = do a' ← body a; times n body a'

-- `.map_err(|e| Error::Codec(..))`.
abbrev pub as_codec {ℓ} : {A : Type ℓ} → Result A → Result A
as_codec (ok a) = ok a
as_codec (err e) = err codec
as_codec panic = panic

-- `node_types.labels().len() as u32`.
abbrev pub type_count : Interner → ℕ
type_count i = length i.labels % 2 ^ 32

unfoldable pub read_dim : Exec Reader (Option ℕ)
read_dim = do
  t ← Reader.u8
  if t == 0 then pure none else if t == 1 then (do d ← Reader.u64; pure (some d)) else raise codec

-- A declaration; one that repeats a type is refused before it is written here.
unfoldable pub load_declaration : GraphConfig → Store → Exec Reader Store
unfolding read_dim validate_embedding_dim
load_declaration config s = do
  tid ← Reader.u32
  dim ← read_dim
  require (ltb tid (type_count s.node_types)) codec
  lift (validate_embedding_dim config dim)
  require (not (contains_key s.embedding_dim tid)) codec
  pure (declare tid dim s)

unfoldable pub load_indexed : Store → Exec Reader Store
load_indexed s = do
  t ← Reader.str
  k ← Reader.str
  pure (record s { indexed = insert s.indexed (t, k) tt })

-- The match on the declaration, and the test of the components.
unfoldable pub check_embedding : Option ℕ → Option (List ℕ) → Result (Unit {0})
check_embedding declared none = ok tt
check_embedding none (some v) = err codec
check_embedding (some dim) (some v) =
    and_then (guard (dim == length v) codec) (λ _. guard (all_finite v) codec)

-- A store and the greatest id so far.
abbrev pub Counted : Type 0
Counted = Store × Option ℕ

abbrev pub max_of : Option ℕ → ℕ → ℕ
max_of none id = id
max_of (some m) id = max m id

-- The store that a method leaves, where it succeeds.
abbrev pub left_by : Store × Result (Unit {0}) → Result Store
left_by (s, r) = and_then r (λ _. ok s)

unfoldable pub load_node : Counted → Exec Reader Counted
unfolding check_embedding insert_node_raw
load_node (s, top) = do
  id ← Reader.u64
  rec ← read_node_record
  require (ltb rec.node_type (type_count s.node_types)) codec
  declared ← ok_or (get s.embedding_dim rec.node_type) codec
  lift (check_embedding declared rec.embedding)
  lift (as_codec (validate_properties rec.properties))
  require (not (contains_key s.nodes id)) codec
  s' ← lift (left_by (insert_node_raw id rec s))
  pure (s', some (max_of top id))

unfoldable pub load_edge : Counted → Exec Reader Counted
unfolding insert_edge_raw
load_edge (s, top) = do
  id ← Reader.u64
  rec ← read_edge_record
  require (ltb rec.edge_type (type_count s.edge_types)) codec
  require (contains_key s.nodes rec.source) codec
  require (contains_key s.nodes rec.target) codec
  lift (as_codec (validate_weight rec.weight))
  lift (as_codec (validate_properties rec.properties))
  require (not (contains_key s.edges id)) codec
  pure (insert_edge_raw id rec s, some (max_of top id))

-- The allocator stands above the loaded ids.
unfoldable pub check_allocator : ℕ → Option ℕ → Result (Unit {0})
check_allocator next none = ok tt
check_allocator next (some top) = guard (ltb top next) codec

-- The records, and the checks behind them.
unfoldable pub load_records : ℕ → ℕ → Store → Exec Reader Store
unfolding times load_node load_edge check_allocator
load_records next_node next_edge s = do
  n ← Reader.u64
  n ← Reader.checked_len n 17
  x ← times n load_node (s, none)
  n ← Reader.u64
  n ← Reader.checked_len n 36
  y ← times n load_edge (x.0, none)
  lift (check_allocator next_node x.1)
  lift (check_allocator next_edge y.1)
  left ← gets remaining
  require (left == 4) codec
  pure y.0

-- The store of an image before its declarations.
abbrev pub tables : Indexed → Interner → Interner → ℕ → ℕ → Store
tables base node_types edge_types next_node next_edge = record Store.empty {
  indexed = base;
  next_node_id = next_node;
  next_edge_id = next_edge;
  node_types = node_types;
  edge_types = edge_types;
}

-- What follows the header and the checksum.
unfoldable pub load_body : GraphConfig → Indexed → Exec Reader Store
unfolding read_labels times load_declaration load_indexed load_records
load_body config base = do
  next_node ← Reader.u64
  next_edge ← Reader.u64
  node_types ← read_labels
  edge_types ← read_labels
  n ← Reader.u32
  s1 ← times n (load_declaration config) (tables base node_types edge_types next_node next_edge)
  n ← Reader.u32
  s2 ← times n load_indexed s1
  load_records next_node next_edge s2

-- The test of the trailing checksum.
unfoldable pub checksum_matches : List ℕ → Bool
unfolding crc32
checksum_matches bytes =
    let split = length bytes - 4 in
    crc32 (drop 8 (take split bytes)) == from_le_bytes (drop split bytes)

unfoldable pub load_image : List ℕ → Indexed → GraphConfig → Exec Reader (Store × ℕ)
unfolding snapshot_header checksum_matches load_body
load_image bytes base_indexed config = do
  epoch ← snapshot_header
  require (leb 20 (length bytes)) codec
  require (checksum_matches bytes) codec
  s ← load_body config base_indexed
  pure (s, epoch)

-- `load_snapshot`.
unfoldable pub load_snapshot : List ℕ → Indexed → GraphConfig → Result (Store × ℕ)
unfolding load_image
load_snapshot bytes base_indexed config =
    (load_image bytes base_indexed config (Reader.new bytes)).1
