-- ===== src/Persist/Commit.antt =====
-- `commit` of drey/src/persist/mod.rs. Writing the frames to the file, syncing it and sealing it are
-- one parameter, `durable`: from the epoch, the new length and the frames to what these steps return.
-- The running hash of the log, which only the seal reads, is part of it.
use drey.Prelude.{
  ℕ, ◌+◌, ◌^◌, true, Option, none, some, List, [], ◌∷◌, ◌++◌, ltb, length, if◌then◌else◌,
}
use drey.Error.{
  Exec, Result, ok, err, panic, guard, and_then, pure, raise, lift, ok_or, gets, modify, storage,
  codec, ◌>>=◌, ◌>>◌,
}
use drey.Codec.Writer
use drey.Codec.Crc.{crc32}
use drey.Persist.Log.{WalPersistence, preflight}

-- `TAG_COMMIT`.
abbrev pub tag_commit : ℕ
tag_commit = 2

-- `write_frame`: the bytes that it appends.
unfoldable pub write_frame : List ℕ → Result (List ℕ)
write_frame payload =
    and_then (guard (ltb (length payload) (2 ^ 32)) codec)
      (λ _. ok (Writer.u32 (length payload) ++ (Writer.u32 (crc32 payload) ++ payload)))

-- The frames of the pending records, and the commit marker behind them.
unfoldable pub batch : List (List ℕ) → Result (List ℕ)
unfolding write_frame
batch [] = write_frame (Writer.u8 tag_commit)
batch (payload ∷ pending) =
    let rest = batch pending in
    and_then (write_frame payload) (λ frame. and_then rest (λ frames. ok (frame ++ frames)))

-- `self.wal_len.checked_add(..)`.
abbrev pub grown : ℕ → List ℕ → Option ℕ
grown len frames = if ltb (len + length frames) (2 ^ 64) then some (len + length frames) else none

-- What follows the file operations.
unfoldable pub settle : Result (Unit {0}) → ℕ → Exec WalPersistence (Unit {0})
settle (ok _) next_len = modify (λ p. record p { pending = []; wal_len = next_len })
settle (err e) next_len = do modify (λ p. record p { poisoned = true }); raise e
settle panic next_len = lift panic

module _ (durable : ℕ → ℕ → List ℕ → Result (Unit {0})) where
  unfoldable pub flush : List (List ℕ) → Exec WalPersistence (Unit {0})
  unfolding batch settle
  flush [] = pure tt
  flush (record_bytes ∷ pending) = do
    p ← gets (λ p. p)
    frames ← lift (batch (record_bytes ∷ pending))
    next_len ← ok_or (grown p.wal_len frames) storage
    settle (durable p.epoch next_len frames) next_len

  -- `commit`.
  unfoldable pub commit : Exec WalPersistence (Unit {0})
  unfolding preflight flush
  commit = do p ← gets (λ p. p); lift (preflight p); flush p.pending
