-- ===== src/Codec/Crc.antt =====
-- `crc32` of drey/src/persist/codec.rs, on 32-bit numbers.
use drey.Prelude.{ℕ, zero, suc, ◌+◌, ◌-◌, ◌*◌, ◌/◌, ◌%◌, ◌^◌, List, [], ◌∷◌, ◌==◌, if◌then◌else◌}

-- `^` on the low `n` bits.
abbrev xor_bits : ℕ → ℕ → ℕ → ℕ
xor_bits zero a b = 0
xor_bits (suc n) a b = (a % 2 + b % 2) % 2 + 2 * xor_bits n (a / 2) (b / 2)

-- The body of the inner loop of `CRC_TABLE`: the mask is all ones for an odd number.
abbrev crc_step : ℕ → ℕ
crc_step crc = xor_bits 32 (crc / 2) (if crc % 2 == 1 then 0xedb8_8320 else 0)

-- The inner loop.
abbrev crc_steps : ℕ → ℕ → ℕ
crc_steps zero crc = crc
crc_steps (suc j) crc = crc_steps j (crc_step crc)

-- `CRC_TABLE[i]`.
unfoldable pub crc_table : ℕ → ℕ
crc_table i = crc_steps 8 i

-- The loop of `crc32`.
unfoldable pub crc_fold : ℕ → List ℕ → ℕ
unfolding crc_table
crc_fold crc [] = crc
crc_fold crc (byte ∷ rest) =
    crc_fold (xor_bits 32 (crc / 2 ^ 8) (crc_table (xor_bits 32 crc byte % 2 ^ 8))) rest

-- `crc32`.
unfoldable pub crc32 : List ℕ → ℕ
unfolding crc_fold
crc32 xs = 2 ^ 32 - 1 - crc_fold 0xffff_ffff xs
