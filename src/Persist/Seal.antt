-- ===== src/Persist/Seal.antt =====
-- drey/src/persist/seal.rs: the seal that marks which bytes of the log were acknowledged. SHA-256 and
-- the file operations are parameters; the file is what reading it returns.
pub mod Laws
use drey.Prelude.{
  ℕ, ◌+◌, ◌-◌, ◌^◌, Bool, true, false, not, ◌&&◌, ◌||◌, Option, none, some, List, [], ◌∷◌, ◌++◌,
  ltb, leb, ◌==◌, length, take, drop, if◌then◌else◌,
}
use drey.Error.{
  Result, ok, err, guard, and_then, codec, storage, version_mismatch, generation_mismatch,
}
use drey.Ord.{◌=?◌, text_ord}
use drey.Codec.Writer
use drey.Codec.Writer.{Writer}
use drey.Codec.Le.{from_le_bytes}
use drey.Persist.Format.{magic, format_version, wal_header_len}

-- `Seal`.
pub record Seal : Type 0 where
  pub epoch : ℕ
  pub len : ℕ
  pub hash : List ℕ

-- `b"DRCS"`.
abbrev pub seal_magic : List ℕ
seal_magic = 68 ∷ 82 ∷ 67 ∷ 83 ∷ []

-- The refusal of another version at the head of `read`.
unfoldable pub version_of_log : List ℕ → Result (Unit {0})
version_of_log wal_header =
    let found = from_le_bytes (take 4 (drop 4 wal_header)) in
    if leb 8 (length wal_header) && take 4 wal_header =? magic
    then guard (found == format_version) (version_mismatch found format_version)
    else ok tt

module _ (digest : List ℕ → List ℕ) where
  -- The bytes that `write` makes, but for the last digest, and with it.
  unfoldable pub seal_body : ℕ → ℕ → List ℕ → Writer
  unfolding Writer.u32 Writer.u64
  seal_body epoch len hash =
      seal_magic ++ (Writer.u32 format_version ++ (Writer.u64 epoch ++ (Writer.u64 len ++ hash)))

  unfoldable pub seal_bytes : ℕ → ℕ → List ℕ → Writer
  unfolding seal_body
  seal_bytes epoch len hash = let body = seal_body epoch len hash in body ++ digest body

  -- The checks of the bytes, and the fields.
  abbrev pub seal_valid : List ℕ → Bool
  seal_valid bytes =
      length bytes == 88
      && (take 4 bytes =? seal_magic
          && (take 4 (drop 4 bytes) =? Writer.u32 format_version
              && digest (take 56 bytes) =? drop 56 bytes))

  unfoldable pub parse : List ℕ → Result Seal
  parse bytes = and_then (guard (seal_valid bytes) codec) (λ _. ok (record {
    epoch = from_le_bytes (take 8 (drop 8 bytes));
    len = from_le_bytes (take 8 (drop 16 bytes));
    hash = take 32 (drop 24 bytes);
  }))

  -- `read`: of the file at most 89 bytes are looked at; `none` is a file that cannot be read.
  unfoldable pub read : Option (List ℕ) → List ℕ → Result Seal
  unfolding version_of_log parse
  read file wal_header =
      and_then (version_of_log wal_header)
        (λ _. elim file [ none ↦ err storage | some bytes ↦ parse (take 89 bytes) ])

  -- `Seal::reject_newer_epoch`.
  unfoldable pub reject_newer_epoch : Seal → ℕ → Result (Unit {0})
  reject_newer_epoch seal snapshot_epoch =
      guard (leb seal.epoch snapshot_epoch) (generation_mismatch seal.epoch snapshot_epoch)

  -- The test of the bytes in `verify`.
  abbrev pub seal_refuses : Seal → List ℕ → Bool
  seal_refuses seal wal =
      ltb seal.len wal_header_len
      || (ltb (length wal) seal.len || not (digest (take seal.len wal) =? seal.hash))

  -- `Seal::verify`; a `u64` fits a `usize`.
  unfoldable pub verify : Seal → List ℕ → ℕ → Result (Option ℕ)
  unfolding reject_newer_epoch
  verify seal wal snapshot_epoch = and_then (reject_newer_epoch seal snapshot_epoch) (λ _.
      if ltb seal.epoch snapshot_epoch
      then ok none
      else if seal_refuses seal wal
      then err codec
      else ok (some seal.len))
