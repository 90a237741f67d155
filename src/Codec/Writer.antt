-- ===== src/Codec/Writer.antt =====
-- `Writer` of drey/src/persist/codec.rs: a write is the bytes that it appends to the buffer.
use drey.Prelude.{ℕ, ◌%◌, ◌^◌, Bool, List, [], ◌∷◌, ◌++◌, length, if◌then◌else◌}
use drey.Int.{ℤ, to_bits}
use drey.Ord.{Text}
use drey.Codec.Le.{to_le_bytes}

abbrev pub Writer : Type 0
Writer = List ℕ

unfoldable pub u8 : ℕ → Writer
u8 v = v ∷ []

unfoldable pub u32 : ℕ → Writer
u32 v = to_le_bytes 4 v

unfoldable pub u64 : ℕ → Writer
u64 v = to_le_bytes 8 v

unfoldable pub i64 : ℤ → Writer
i64 v = to_le_bytes 8 (to_bits v)

unfoldable pub f32 : ℕ → Writer
f32 v = to_le_bytes 4 v

unfoldable pub f64 : ℕ → Writer
f64 v = to_le_bytes 8 v

-- `b.len() as u32` keeps the low 32 bits of the length.
unfoldable pub bytes : List ℕ → Writer
unfolding u32
bytes b = u32 (length b % 2 ^ 32) ++ b

unfoldable pub str : Text → Writer
unfolding bytes
str s = bytes s

-- `*b as u8`.
abbrev pub bit : Bool → ℕ
bit b = if b then 1 else 0

-- `for x in xs { write(x) }`.
abbrev pub write_all {ℓ} : {A : Type ℓ} → (A → Writer) → List A → Writer
write_all write [] = []
write_all write (x ∷ xs) = write x ++ write_all write xs
