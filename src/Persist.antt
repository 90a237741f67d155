-- ===== src/Persist.antt =====
-- drey/src/persist/mod.rs: the log of mutations.
pub mod MutationCodec
pub mod MutationTrip
pub mod Format
pub mod Log
pub mod Commit
pub mod Committed
pub mod Snapshot
pub mod Load
pub mod Wal
pub mod Seal
pub mod Replay
pub mod Renumber
pub mod Agreement
