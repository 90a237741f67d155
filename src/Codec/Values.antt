-- ===== src/Codec/Values.antt =====
-- `write_scalar` to `read_properties` of drey/src/persist/codec.rs.
use drey.Prelude.{ℕ, zero, suc, ◌%◌, ◌^◌, not, List, [], ◌++◌, ◌==◌, length, if◌then◌else◌}
use drey.Error.{Exec, codec, pure, raise, ◌>>=◌}
use drey.Ord.{Text, text_ord}
use drey.Map
use drey.Types.{Scalar, Value, Properties}
use drey.Codec.Writer
use drey.Codec.Writer.{Writer, bit, write_all}
use drey.Codec.Reader
use drey.Codec.Reader.{Reader}

unfoldable pub write_scalar : Scalar → Writer
write_scalar (Scalar.bool b) = Writer.u8 0 ++ Writer.u8 (bit b)
write_scalar (Scalar.i64 i) = Writer.u8 1 ++ Writer.i64 i
write_scalar (Scalar.f64 x) = Writer.u8 2 ++ Writer.f64 x
write_scalar (Scalar.string s) = Writer.u8 3 ++ Writer.str s

-- The match of `read_scalar` on the tag.
unfoldable pub scalar_of_tag : ℕ → Exec Reader Scalar
scalar_of_tag t =
    if t == 0
    then (do b ← Reader.u8; pure (Scalar.bool (not (b == 0))))
    else if t == 1
    then (do i ← Reader.i64; pure (Scalar.i64 i))
    else if t == 2
    then (do x ← Reader.f64; pure (Scalar.f64 x))
    else if t == 3
    then (do s ← Reader.str; pure (Scalar.string s))
    else raise codec

unfoldable pub read_scalar : Exec Reader Scalar
unfolding scalar_of_tag
read_scalar = do t ← Reader.u8; scalar_of_tag t

unfoldable pub write_value : Value → Writer
unfolding write_scalar
write_value Value.null = Writer.u8 0
write_value (Value.bool b) = Writer.u8 1 ++ Writer.u8 (bit b)
write_value (Value.i64 i) = Writer.u8 2 ++ Writer.i64 i
write_value (Value.f64 x) = Writer.u8 3 ++ Writer.f64 x
write_value (Value.string s) = Writer.u8 4 ++ Writer.str s
write_value (Value.bytes b) = Writer.u8 5 ++ Writer.bytes b
write_value (Value.list items) =
    Writer.u8 6 ++ (Writer.u32 (length items % 2 ^ 32) ++ write_all write_scalar items)

-- The arm of `read_value` for a list: each scalar has at least two bytes.
unfoldable pub read_items : Exec Reader (List Scalar)
unfolding read_scalar
read_items = do n ← Reader.u32; n ← Reader.checked_len n 2; Reader.repeat n read_scalar

unfoldable pub value_of_tag : ℕ → Exec Reader Value
unfolding read_items
value_of_tag t =
    if t == 0
    then pure Value.null
    else if t == 1
    then (do b ← Reader.u8; pure (Value.bool (not (b == 0))))
    else if t == 2
    then (do i ← Reader.i64; pure (Value.i64 i))
    else if t == 3
    then (do x ← Reader.f64; pure (Value.f64 x))
    else if t == 4
    then (do s ← Reader.str; pure (Value.string s))
    else if t == 5
    then (do b ← Reader.bytes; pure (Value.bytes b))
    else if t == 6
    then (do items ← read_items; pure (Value.list items))
    else raise codec

unfoldable pub read_value : Exec Reader Value
unfolding value_of_tag
read_value = do t ← Reader.u8; value_of_tag t

-- One round of a loop that writes the entries of a `BTreeMap`, in the order of the keys.
abbrev pub write_entry {ℓ} : {V : Type ℓ} → (V → Writer) → Text × V → Writer
write_entry write (k, v) = Writer.str k ++ write v

unfoldable pub write_properties : Properties → Writer
unfolding write_value
write_properties p = Writer.u32 (length p % 2 ^ 32) ++ write_all (write_entry write_value) p

-- One round of a loop that fills a `BTreeMap`.
abbrev pub read_entry {ℓ} : {V : Type ℓ} → Exec Reader V → Exec Reader (Text × V)
read_entry read = do k ← Reader.str; v ← read; pure (k, v)

-- `for _ in 0..n { p.insert(r.str()?, read(r)?) }`.
unfoldable pub read_entries {ℓ} :
    {V : Type ℓ} → Exec Reader V → ℕ → Map.Map Text V → Exec Reader (Map.Map Text V)
read_entries read zero p = pure p
read_entries read (suc n) p = do e ← read_entry read; read_entries read n (Map.insert p e.0 e.1)

unfoldable pub read_properties : Exec Reader Properties
unfolding read_value read_entries
read_properties = do n ← Reader.u32; read_entries read_value n []
