-- ===== src/PersistExamples.antt =====
-- The theorems on the files, on the sample graph.
use drey.Prelude.{
  ℕ, ◌^◌, ◌<◌, ◌==◌, ◌≡◌, refl, true, false, some, List, [], ◌∷◌, ◌++◌, map, ltb, leb, length,
  arith, if◌then◌else◌,
}
use drey.Map.{get, insert}
use drey.Interner
use drey.Store.Nodes
use drey.Store.{validate_label, require_registered, validate_properties}
use drey.Graph.{register_node_type, add_node}
use drey.Error.{ok, err, codec, generation_mismatch}
use drey.Ord.{cmp_text}
use drey.Codec.Utf8.{valid_utf8}
use drey.Mutation.{Mutation}
use drey.Store.Consistent.{IsConsistent, IsAllocated}
use drey.Store.PropIndexed.{PropsIndexed}
use drey.Codec.Writer
use drey.Codec.Reader
use drey.Codec.Values.{write_properties, read_properties}
use drey.Codec.Records.{read_node_record}
use drey.Codec.Le.{to_le_bytes, from_le_bytes}
use drey.Codec.Crc.{crc32}
use drey.Codec.Decodes.{all_of}
use drey.Persist.Format.{wal_header}
use drey.Persist.Log.{payload}
use drey.Persist.MutationCodec.{write_mutation}
use drey.Persist.Commit.{batch}
use drey.Persist.Replay.{start, apply_all}
use drey.Persist.Wal.{WalReplay, conclude, scan_from, discarded, replay_frames, replay_wal}
use drey.Persist.Wal.Scan.{frames_bytes, scan_from_fuel}
use drey.Persist.Wal.Logged.{batch_payloads, loggable, batch-payloads}
use drey.Persist.Wal.TornLog.{torn_log}
use drey.Persist.Wal.Header.{replay_wal-wal_header}
use drey.Persist.Wal.Recovery.{committed_bytes, replay_wal-torn_log, replay_wal-Steps}
use drey.Persist.Wal.Damage.{damaged_log, replay_wal-damaged_log}
use drey.Persist.Seal.{Seal, seal_bytes, version_of_log, read, verify}
use drey.Persist.Seal.Laws.{Accepted, read-seal_bytes, verify-Accepted, verify-sealed}
use drey.Config.{default}
use drey.Persist.Snapshot.{save_snapshot}
use drey.Persist.Load.{load_snapshot}
use drey.Persist.Load.Laws.{load_snapshot-IsConsistent}
use drey.Samples.{opened, linked, one_node, max_arith, calls, four_calls}

-- A batch that was being written when the process ended.
abbrev late : List Mutation
late = Mutation.remove_edge 0 ∷ []

calls-loggable : all_of (all_of loggable) (calls ∷ []) ≡ true
unfolding payload write_mutation valid_utf8 Writer.u8 Writer.u32 Writer.u64 to_le_bytes Writer.str
    write_properties Writer.f32
calls-loggable = refl

late-loggable : all_of loggable late ≡ true
unfolding payload write_mutation Writer.u8 Writer.u64 to_le_bytes
late-loggable = refl

late-cut : 5 < length (frames_bytes (batch_payloads late))
unfolding payload write_mutation Writer.u8 Writer.u32 Writer.u64 to_le_bytes
late-cut = omega arith

abbrev recovered : WalReplay
recovered = record { epoch = 1; valid_len = committed_bytes (calls ∷ []); stale = false }

replay_wal-Steps_example :
    replay_wal max_arith opened.config (torn_log 1 (calls ∷ []) late 5) 1 opened.store
    ≡ (linked.store, ok recovered)
replay_wal-Steps_example =
    replay_wal-Steps max_arith 1 (calls ∷ []) late 5 four_calls (omega arith) calls-loggable
      late-loggable late-cut

replay_wal-torn_log_example :
    replay_wal max_arith opened.config (torn_log 1 (calls ∷ []) late 5) 1 opened.store
    ≡ conclude (apply_all max_arith opened.config calls (start opened.store)) recovered
replay_wal-torn_log_example =
    replay_wal-torn_log max_arith opened.config 1 (calls ∷ []) late 5 opened.store (omega arith)
      calls-loggable late-loggable late-cut

-- A record whose frame holds a checksum that is not its own.
abbrev spoiled : List ℕ
spoiled = 1 ∷ 8 ∷ 3 ∷ []

spoiled-crc : (crc32 spoiled == 0) ≡ false
unfolding crc32
spoiled-crc = refl

replay_wal-damaged_log_example :
    replay_wal max_arith opened.config (damaged_log 1 [] 0 spoiled [] (0 ∷ [])) 1 opened.store
    ≡ (opened.store, err codec)
replay_wal-damaged_log_example =
    replay_wal-damaged_log max_arith opened.config 1 [] 0 spoiled [] (0 ∷ []) opened.store
      (omega arith) refl (omega arith) (omega arith) spoiled-crc refl refl (omega arith)

replay_wal-wal_header_example :
    replay_wal max_arith opened.config (wal_header 3 ++ 7 ∷ []) 2 opened.store ≡ (
      if ltb 3 2
      then (opened.store, ok (discarded 2))
      else if leb 3 2
      then replay_frames max_arith opened.config (wal_header 3 ++ 7 ∷ []) 3 opened.store
      else (opened.store, err (generation_mismatch 3 2)))
replay_wal-wal_header_example =
    replay_wal-wal_header max_arith opened.config 3 (omega arith) (7 ∷ []) 2 opened.store

scan_from_fuel_example : scan_from 3 20 (1 ∷ 2 ∷ []) ≡ scan_from 9 20 (1 ∷ 2 ∷ [])
scan_from_fuel_example = scan_from_fuel 3 9 20 (1 ∷ 2 ∷ []) (omega arith) (omega arith)

batch-payloads_example : batch (map payload late) ≡ ok (frames_bytes (batch_payloads late))
batch-payloads_example = batch-payloads late late-loggable

-- A stand-in for SHA-256, of its length.
abbrev zeros : List ℕ
zeros =
    0 ∷ 0 ∷ 0 ∷ 0 ∷ 0 ∷ 0 ∷ 0 ∷ 0 ∷ 0 ∷ 0 ∷ 0 ∷ 0 ∷ 0 ∷ 0 ∷ 0 ∷ 0 ∷ 0 ∷ 0 ∷ 0 ∷ 0 ∷ 0 ∷ 0 ∷ 0 ∷ 0
    ∷ 0 ∷ 0 ∷ 0 ∷ 0 ∷ 0 ∷ 0 ∷ 0 ∷ 0 ∷ []

abbrev sum_digest : List ℕ → List ℕ
sum_digest xs = zeros

abbrev sealed : Seal
sealed = record { epoch = 2; len = 32; hash = zeros }

version_of_empty : version_of_log [] ≡ ok tt
unfolding version_of_log
version_of_empty = refl

read-seal_bytes_example : read sum_digest (some (seal_bytes sum_digest 2 32 zeros)) [] ≡ ok sealed
read-seal_bytes_example =
    read-seal_bytes sum_digest (λ xs. refl) 2 32 zeros refl [] version_of_empty (omega arith)
      (omega arith)

verify_run : verify sum_digest sealed (zeros ++ 5 ∷ []) 2 ≡ ok (some 32)
unfolding verify cmp_text
verify_run = refl

verify-Accepted_example : Accepted sum_digest sealed (zeros ++ 5 ∷ []) 2 32
verify-Accepted_example = verify-Accepted sum_digest sealed (zeros ++ 5 ∷ []) 2 32 verify_run

verify-sealed_example :
    verify sum_digest
      (record { epoch = 2; len = length zeros; hash = sum_digest zeros })
      (zeros ++ 5 ∷ [])
      2
    ≡ ok (some (length zeros))
verify-sealed_example = verify-sealed sum_digest 2 zeros (5 ∷ []) (omega arith)

-- The image of a small store.
abbrev image_bytes : List ℕ
image_bytes = save_snapshot one_node.store 7

load_run : load_snapshot image_bytes [] default ≡ ok (one_node.store, 7)
unfolding load_snapshot save_snapshot Reader.repeat Reader.u8 Reader.u32 Reader.u64
    Reader.checked_len Reader.str Reader.bytes Reader.take_bytes valid_utf8 to_le_bytes
    from_le_bytes cmp_text get register_node_type add_node Nodes.register_node_type Nodes.add_node
    validate_label require_registered validate_properties Writer.str Writer.u32 Interner.intern
    insert write_properties read_node_record read_properties Interner.label
load_run = refl

labels_few : length one_node.store.node_types.labels < 2 ^ 32
unfolding register_node_type add_node Nodes.register_node_type Nodes.add_node validate_label
    require_registered validate_properties Interner.intern get insert cmp_text
labels_few = omega arith

no_labels : length one_node.store.edge_types.labels < 2 ^ 32
unfolding register_node_type add_node Nodes.register_node_type Nodes.add_node validate_label
    require_registered validate_properties Interner.intern get insert cmp_text
no_labels = omega arith

load_snapshot-IsConsistent_example :
    IsConsistent one_node.store × IsAllocated one_node.store × PropsIndexed one_node.store
load_snapshot-IsConsistent_example =
    load_snapshot-IsConsistent image_bytes [] default one_node.store 7 load_run labels_few no_labels
