-- ===== src/Lib.antt =====
-- drey is an embedded property graph: nodes and edges with properties, weights and embeddings,
-- kept in memory with derived indexes, and made durable by a log of mutations and snapshots. The
-- handle (drey/src/graph.rs) checks that it may write, calls the store (drey/src/store.rs), and
-- appends the mutation to the log (drey/src/persist/mod.rs), which encodes it
-- (drey/src/persist/codec.rs). On opening, the log is decoded and replayed on a snapshot's store.
--
-- The files:
--   Prelude, Ord, Int       native numbers, lists, sorting, orders of keys, `i64` and its bits
--   Float                   `f32` and `f64` as bit patterns: comparisons and classes are exact
--   Map                     HashMap and BTreeMap as association lists with ascending keys
--   Error, Atomic, Runs     drey/src/error.rs, the state-and-error monad of the methods, and what
--                           is proved of a method: all outcomes (Atomic), or the successes (Runs)
--   Types, Config           drey/src/types.rs, drey/src/config.rs
--   Interner                drey/src/interner.rs; Laws and Load have its bijection
--   Mutation, Records       drey/src/mutation.rs, and the records of drey/src/store.rs;
--                           Patches has what a patch does key by key
--   Codec                   drey/src/persist/codec.rs: Writer, Reader, Values, Records, Crc; Decodes
--                           has the rules by which ValueTrip and RecordTrip show round trips
--   Index                   the index helpers of drey/src/store.rs; Buckets and Distinct say what
--                           adjacencies and lists by type hold, Scalars, Posts and Lookups what the
--                           property index finds
--   Store                   drey/src/store.rs: Nodes and Edges have the methods, Consistent the
--                           invariant, PropIndexed that of the property index, the other modules
--                           the laws of the methods
--   Graph                   drey/src/graph.rs: the handle's methods; Matching has edges_matching,
--                           Logged what a method does to store and log, Calls the calls as steps,
--                           Reads the lookups and commit
--   Persist                 drey/src/persist/mod.rs. Written: MutationCodec, MutationTrip, Format (the
--                           header), Log (append), Commit (frames, commit, poisoning), Committed,
--                           Snapshot (save_snapshot). Read back: Wal (replay_wal), Load
--                           (load_snapshot), Replay (apply_replay and its loop), Renumber, Agreement
--   Persist.Wal             Scan (frames found again), Classify (torn tail or damage), Logged (frames
--                           of mutations), Header, TornLog, Recovery, Refused and Damage
--   Persist.Load            Sound has the invariant of a store that is being loaded, Loops and Laws
--                           the parts of load_snapshot
--   Persist.Seal            drey/src/persist/seal.rs: the bytes of a seal, read, verify; Laws
--   Traverse                drey/src/traverse.rs: steps; Neighbors, Dfs (traverse) and Search
--                           (bfs_path). Offers and Steps are about what steps returns, Walks and
--                           DfsLaws about the depth-first search, Calls about traverse, Chains,
--                           Discover and SearchLaws about the search over the queue
--   Samples                 a small graph and its log
--   Examples, PersistExamples, TraverseExamples
--                           the theorems applied to the samples
--
-- How the parts of recovery join. The calls on a handle are steps (Graph.Calls). Each logs mutations,
-- a commit writes them as frames behind the header, the scan reads the frames of a log, and replay
-- applies the mutations to the store of a snapshot. Persist.Wal.Recovery joins the calls, the frames
-- and the replay.
--
-- What stands for what. A method on `&mut self` is a function from the state to the new state and
-- a result, which is a value, an error or a panic; the state that a failing call leaves is part of
-- the model. An id is a natural number; the places where the program guards the width (the
-- allocators, lengths, label ids) are written out. A text is its list of UTF-8 bytes, and `usize`
-- has 64 bits. The sum and the product of two `f32` numbers are the parameter `Arith32`, the
-- conversion of a count to `f32` and SHA-256 are parameters too; of SHA-256 the round trip of a
-- seal takes that its digest has 32 bytes, and no other hypothesis is made on them. The messages
-- of errors are left out, their categories and ids are not. Except in node_ids, which is left out,
-- the program sorts wherever the order of a HashMap could show, so one ordered map stands for both
-- kinds of map.
--
-- What the file operations of a commit return, the seal included, is the parameter `durable`.
--
-- Fuel. Most loops are recursions on lists or on a count. The scan of the log has the number of bytes
-- left as fuel, and each round takes eight at least. A depth-first search has the largest number of
-- hops and one as fuel, and each call stands one hop deeper. The search over the queue has the number
-- of nodes and two, and a node enters the queue once. The walk back along the predecessors has their
-- number and one, and no node comes twice.
--
-- Not modelled: files, locks and fsync; in drey/src/traverse.rs dijkstra_path, the weighted cost of a
-- path and shortest_path, which chooses between the searches; in drey/src/graph.rs node_ids, whose
-- order is that of a HashMap; queries, similarity, export, the engine, and the packages drey-local
-- and harness. That the property index holds nothing but what it should is not proved: it rests on
-- the order of i64 and f64 being transitive. Nothing is shown of `decay_edges` and of `save_snapshot`.
pub mod Prelude
pub mod Ord
pub mod Int
pub mod Float
pub mod Error
pub mod Types
pub mod Map
pub mod Mutation
pub mod Records
pub mod Interner
pub mod Codec
pub mod Index
pub mod Store
pub mod Atomic
pub mod Runs
pub mod Config
pub mod Graph
pub mod Persist
pub mod Traverse
pub mod Samples
pub mod Examples
pub mod PersistExamples
pub mod TraverseExamples
