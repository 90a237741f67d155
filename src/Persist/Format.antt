-- ===== src/Persist/Format.antt =====
-- The constants of the files of drey/src/persist/mod.rs, and the header of the log.
use drey.Prelude.{ℕ, List, [], ◌∷◌, ◌++◌}
use drey.Codec.Writer
use drey.Codec.Writer.{Writer}
use drey.Codec.Crc.{crc32}

-- `MAGIC` and `FORMAT_VERSION`.
abbrev pub magic : List ℕ
magic = 68 ∷ 82 ∷ 69 ∷ 89 ∷ []

abbrev pub format_version : ℕ
format_version = 4

-- `WAL_HEADER_LEN`.
abbrev pub wal_header_len : ℕ
wal_header_len = 20

-- `wal_header`.
unfoldable pub wal_header : ℕ → Writer
unfolding Writer.u32 Writer.u64
wal_header epoch =
    let h = magic ++ (Writer.u32 format_version ++ Writer.u64 epoch) in h ++ Writer.u32 (crc32 h)
