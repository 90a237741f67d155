-- ===== src/Persist/Wal/Header.antt =====
-- `replay_wal` of drey/src/persist/mod.rs on a log whose header `wal_header` made.
use drey.Prelude.{
  ℕ, ◌+◌, ◌^◌, ◌<◌, ◌≡◌, refl, false, List, ◌++◌, ltb, leb, length, take, drop, arith,
  if◌then◌else◌, Bool-cases, inl, inr, ==_refl,
}
use drey.Error.{ok, err, generation_mismatch}
use drey.Ord.{cmp_text}
use drey.Float.{Arith32}
use drey.Config.{GraphConfig}
use drey.Store.{Store}
use drey.Codec.Writer
use drey.Codec.Writer.{Writer}
use drey.Codec.Le.{to_le_bytes, from_le_bytes, from_le_bytes-to_le_bytes}
use drey.Codec.Crc.{crc32}
use drey.Persist.Format.{magic, format_version, wal_header_len, wal_header}
use drey.Persist.Wal.Scan.{crc32-lt}
use drey.Persist.Wal.{discarded, replay_frames, replay_epoch, replay_wal}

-- The first sixteen bytes of the header.
abbrev head : ℕ → Writer
head epoch = magic ++ (Writer.u32 format_version ++ Writer.u64 epoch)

module _ (epoch : ℕ) (fits : epoch < 256 ^ 8) (rest : List ℕ) where
  pub drop-wal_header : drop wal_header_len (wal_header epoch ++ rest) ≡ rest
  unfolding wal_header Writer.u32 Writer.u64 to_le_bytes
  drop-wal_header = refl

  pub length-wal_header : length (wal_header epoch ++ rest) ≡ wal_header_len + length rest
  unfolding wal_header Writer.u32 Writer.u64 to_le_bytes
  length-wal_header = omega arith

  magic-wal_header : take 4 (wal_header epoch ++ rest) ≡ magic
  unfolding wal_header
  magic-wal_header = refl

  version-wal_header : from_le_bytes (take 4 (drop 4 (wal_header epoch ++ rest))) ≡ format_version
  unfolding wal_header Writer.u32 to_le_bytes
  version-wal_header = from_le_bytes-to_le_bytes 4 format_version (omega arith)

  epoch-wal_header : from_le_bytes (take 8 (drop 8 (wal_header epoch ++ rest))) ≡ epoch
  unfolding wal_header Writer.u32 Writer.u64 to_le_bytes
  epoch-wal_header = from_le_bytes-to_le_bytes 8 epoch fits

  crc-wal_header :
      from_le_bytes (take 4 (drop 16 (wal_header epoch ++ rest)))
      ≡ crc32 (take 16 (wal_header epoch ++ rest))
  unfolding wal_header Writer.u32 Writer.u64 to_le_bytes
  crc-wal_header = from_le_bytes-to_le_bytes 4 (crc32 (head epoch)) (crc32-lt (head epoch))

module _ (f : Arith32) (config : GraphConfig) (epoch : ℕ) (fits : epoch < 256 ^ 8)
    (rest : List ℕ) where
  -- On a log that begins with the header of an epoch below 2^64, `replay_wal` goes by the epochs:
  -- an older log is reported as stale with the epoch of the snapshot and nothing is applied, a
  -- newer one is refused as a generation mismatch, and one of the same epoch has its frames
  -- replayed.
  pub replay_wal-wal_header :
      (snap_epoch : ℕ) (s : Store)
      → replay_wal f config (wal_header epoch ++ rest) snap_epoch s ≡ (
          if ltb epoch snap_epoch
          then (s, ok (discarded snap_epoch))
          else if leb epoch snap_epoch
          then replay_frames f config (wal_header epoch ++ rest) epoch s
          else (s, err (generation_mismatch epoch snap_epoch)))
  unfolding replay_wal replay_epoch cmp_text
  replay_wal-wal_header snap_epoch s =
      let log = wal_header epoch ++ rest in
      let full : ltb (wal_header_len + length rest) 8 ≡ false = ground arith in
      let full' : ltb (wal_header_len + length rest) wal_header_len ≡ false = ground arith in
      rw
        (
          magic-wal_header epoch fits rest,
          version-wal_header epoch fits rest,
          crc-wal_header epoch fits rest,
          ==_refl (crc32 (take 16 log)),
          epoch-wal_header epoch fits rest,
          length-wal_header epoch fits rest,
          full,
          full',
        )
        (elim (Bool-cases (ltb epoch snap_epoch)) [
          | inl e ↦ rw e refl
          | inr e ↦ elim (Bool-cases (leb epoch snap_epoch)) [
            | inl e' ↦ rw (e, e') refl
            | inr e' ↦ rw (e, e') refl
          ]
        ])
