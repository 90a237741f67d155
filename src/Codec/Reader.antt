-- ===== src/Codec/Reader.antt =====
-- `Reader` of drey/src/persist/codec.rs: a cursor over bytes, every read checked.
use drey.Prelude.{
  ℕ, zero, suc, ◌+◌, ◌-◌, ◌*◌, ◌^◌, ◌&&◌, List, [], ◌∷◌, ltb, leb, length, take, drop,
}
use drey.Error.{Exec, codec, pure, require, gets, modify, ◌>>=◌, ◌>>◌}
use drey.Int.{ℤ, of_bits}
use drey.Ord.{Text}
use drey.Codec.Le.{from_le_bytes}
use drey.Codec.Utf8.{valid_utf8}

pub record Reader : Type 0 where
  pub buf : List ℕ
  pub pos : ℕ

abbrev pub new : List ℕ → Reader
new b = record { buf = b; pos = 0 }

unfoldable pub remaining : Reader → ℕ
remaining r = length r.buf - r.pos

-- `usize` has 64 bits.
abbrev pub usize_mod : ℕ
usize_mod = 2 ^ 64

-- A claimed count whose elements could not fit is an error.
unfoldable pub checked_len : ℕ → ℕ → Exec Reader ℕ
unfolding remaining
checked_len n min_elem_bytes = do
  left ← gets remaining
  let need = n * min_elem_bytes
  require (ltb need usize_mod && leb need left) codec
  pure n

-- `take`: the next `n` bytes; an overflow of the end is an end outside the buffer.
unfoldable pub take_bytes : ℕ → Exec Reader (List ℕ)
take_bytes n = do
  start ← gets (λ r. r.pos)
  all ← gets (λ r. r.buf)
  let stop = start + n
  require (ltb stop usize_mod && leb stop (length all)) codec
  modify (λ r. record r { pos = stop })
  pure (take n (drop start all))

-- `u8` is the first of one byte.
unfoldable pub u8 : Exec Reader ℕ
unfolding take_bytes
u8 = do b ← take_bytes 1; pure (from_le_bytes b)

unfoldable pub u32 : Exec Reader ℕ
unfolding take_bytes
u32 = do b ← take_bytes 4; pure (from_le_bytes b)

unfoldable pub u64 : Exec Reader ℕ
unfolding take_bytes
u64 = do b ← take_bytes 8; pure (from_le_bytes b)

unfoldable pub i64 : Exec Reader ℤ
unfolding take_bytes
i64 = do b ← take_bytes 8; pure (of_bits (from_le_bytes b))

unfoldable pub f32 : Exec Reader ℕ
unfolding u32
f32 = u32

unfoldable pub f64 : Exec Reader ℕ
unfolding u64
f64 = u64

unfoldable pub bytes : Exec Reader (List ℕ)
unfolding u32 take_bytes
bytes = do n ← u32; take_bytes n

unfoldable pub str : Exec Reader Text
unfolding bytes
str = do b ← bytes; require (valid_utf8 b) codec; pure b

-- `for _ in 0..n { v.push(read()?) }`.
unfoldable pub repeat {ℓ} : {A : Type ℓ} → ℕ → Exec Reader A → Exec Reader (List A)
repeat zero read = pure []
repeat (suc n) read = do x ← read; xs ← repeat n read; pure (x ∷ xs)
