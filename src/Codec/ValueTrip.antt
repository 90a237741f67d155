-- ===== src/Codec/ValueTrip.antt =====
-- Values and properties are read as they were written.
use drey.Prelude.{
  ℕ, ◌*◌, ◌%◌, ◌^◌, ◌≤◌, ◌<◌, ◌≡◌, refl, Bool, true, false, ◌&&◌, List, [], ◌∷◌, ◌++◌, arith, ltb,
  Ordering, length, length-append,
}
use mathlib.Core.List.{append_assoc, append-nil}
use drey.Error.{Exec}
use drey.Ord.{Text, text_ord, text_lawful, cmp_text}
use drey.Int.{fits_i64}
use drey.Map.{Map}
use drey.Map.Keys.{sorted, above, below, insert_last}
use drey.Types.{Scalar, Value, Properties}
use drey.Codec.Utf8.{valid_utf8}
use drey.Codec.Le.{length-to_le_bytes}
use drey.Codec.Writer
use drey.Codec.Writer.{Writer, bit, write_all}
use drey.Codec.Reader.{Reader}
use drey.Codec.Decodes.{
  Decodes, all_of, Decodes-bind, Decodes-pure, Decodes-last, Decodes-map, Decodes-u8, Decodes-u32,
  Decodes-i64, Decodes-f64, Decodes-str, Decodes-bytes, Decodes-checked_len, Decodes-repeat,
}
use drey.Codec.Values.{
  write_scalar, read_scalar, write_value, read_items, read_value, write_entry, write_properties,
  read_entry, read_entries, read_properties,
}

-- What a Rust `String` holds, within the codec's length prefix.
abbrev pub text_fits : Text → Bool
text_fits s = valid_utf8 s && ltb (length s) (2 ^ 32)

-- The values of the Rust types that the length prefixes can hold.
abbrev pub scalar_fits : Scalar → Bool
scalar_fits (Scalar.bool b) = true
scalar_fits (Scalar.i64 i) = fits_i64 i
scalar_fits (Scalar.f64 x) = ltb x (2 ^ 64)
scalar_fits (Scalar.string s) = text_fits s

abbrev pub value_fits : Value → Bool
value_fits Value.null = true
value_fits (Value.bool b) = true
value_fits (Value.i64 i) = fits_i64 i
value_fits (Value.f64 x) = ltb x (2 ^ 64)
value_fits (Value.string s) = text_fits s
value_fits (Value.bytes b) = ltb (length b) (2 ^ 32)
value_fits (Value.list items) = ltb (length items) (2 ^ 32) && all_of scalar_fits items

Decodes-scalar : (s : Scalar) → scalar_fits s ≡ true → Decodes read_scalar (write_scalar s) s
unfolding read_scalar write_scalar
Decodes-scalar (Scalar.bool true) h =
    Decodes-bind _ (Decodes-u8 0) (Decodes-last _ (Decodes-u8 1) (Decodes-pure _))
Decodes-scalar (Scalar.bool false) h =
    Decodes-bind _ (Decodes-u8 0) (Decodes-last _ (Decodes-u8 0) (Decodes-pure _))
Decodes-scalar (Scalar.i64 i) h = Decodes-bind _ (Decodes-u8 1) (Decodes-map _ (Decodes-i64 i h))
Decodes-scalar (Scalar.f64 x) h =
    Decodes-bind _ (Decodes-u8 2) (Decodes-map _ (Decodes-f64 x (ground arith)))
Decodes-scalar (Scalar.string s) h =
    Decodes-bind _ (Decodes-u8 3) (Decodes-map _ (Decodes-str s (ground arith) (ground arith)))

length-write_scalar : (s : Scalar) → 2 ≤ length (write_scalar s)
unfolding write_scalar Writer.u8 Writer.i64 Writer.f64 Writer.str Writer.u32
length-write_scalar (Scalar.bool b) = omega arith
length-write_scalar (Scalar.i64 i) = omega (arith, length-to_le_bytes 8)
length-write_scalar (Scalar.f64 x) = omega (arith, length-to_le_bytes 8)
length-write_scalar (Scalar.string s) = omega (arith, length-to_le_bytes 4, length-append {0})

length-write_items :
    (items : List Scalar) → length items * 2 ≤ length (write_all write_scalar items)
length-write_items [] = omega arith
length-write_items (s ∷ items) = omega (
  arith,
  length-write_items items,
  length-write_scalar s,
  length-append (write_scalar s) (write_all write_scalar items),
)

Decodes-items :
    (items : List Scalar)
    → length items < 2 ^ 32
    → all_of scalar_fits items ≡ true
    → Decodes read_items (Writer.u32 (length items) ++ write_all write_scalar items) items
unfolding read_items
Decodes-items items h good = Decodes-bind _ (Decodes-u32 (length items) h) (
    Decodes-checked_len (length items) 2 _ (length-write_items items)
      (Decodes-repeat write_scalar scalar_fits Decodes-scalar items good))

-- A value whose lengths fit the prefixes and whose texts are UTF-8 is read as it was written:
-- where its bytes stand next in a buffer shorter than 2^64, `read_value` returns it and leaves the
-- cursor behind them.
pub Decodes-value : (v : Value) → value_fits v ≡ true → Decodes read_value (write_value v) v
unfolding read_value write_value
Decodes-value Value.null h = Decodes-last _ (Decodes-u8 0) (Decodes-pure _)
Decodes-value (Value.bool true) h =
    Decodes-bind _ (Decodes-u8 1) (Decodes-last _ (Decodes-u8 1) (Decodes-pure _))
Decodes-value (Value.bool false) h =
    Decodes-bind _ (Decodes-u8 1) (Decodes-last _ (Decodes-u8 0) (Decodes-pure _))
Decodes-value (Value.i64 i) h = Decodes-bind _ (Decodes-u8 2) (Decodes-map _ (Decodes-i64 i h))
Decodes-value (Value.f64 x) h =
    Decodes-bind _ (Decodes-u8 3) (Decodes-map _ (Decodes-f64 x (ground arith)))
Decodes-value (Value.string s) h =
    Decodes-bind _ (Decodes-u8 4) (Decodes-map _ (Decodes-str s (ground arith) (ground arith)))
Decodes-value (Value.bytes b) h =
    Decodes-bind _ (Decodes-u8 5) (Decodes-map _ (Decodes-bytes b (ground arith)))
Decodes-value (Value.list items) h =
    let e : length items % 2 ^ 32 ≡ length items = ground arith in
    rw e (
      Decodes-bind _ (Decodes-u8 6)
        (Decodes-map _ (Decodes-items items (ground arith) (ground arith))))

-- A map of the loops: distinct keys in order, each within the length prefix.
module _ {ℓ} {V : Type ℓ} where
  abbrev pub entry_fits : (V → Bool) → Text × V → Bool
  entry_fits good (k, v) = text_fits k && good v

  abbrev pub map_fits : (V → Bool) → Map Text V → Bool
  map_fits good p = ltb (length p) (2 ^ 32) && (sorted p && all_of (entry_fits good) p)

  below_of_above :
      (acc : Map Text V) (j k : Text) (v : V) (p : Map Text V)
      → above j (acc ++ (k, v) ∷ p) ≡ true
      → cmp_text j k ≡ Ordering.lt
  below_of_above [] j k v p h = ground arith
  below_of_above ((i, w) ∷ acc) j k v p h = below_of_above acc j k v p (ground arith)

  below_of_sorted :
      (acc : Map Text V) (k : Text) (v : V) (p : Map Text V)
      → sorted (acc ++ (k, v) ∷ p) ≡ true
      → below acc k ≡ true
  below_of_sorted [] k v p h = refl
  below_of_sorted ((i, w) ∷ acc) k v p h =
      ground (arith, below_of_sorted acc k v p, below_of_above acc i k v p)

  module _ {read : Exec Reader V} (write : V → List ℕ) (good : V → Bool)
      (item : (v : V) → good v ≡ true → Decodes read (write v) v) where
    Decodes-entry :
        (e : Text × V)
        → entry_fits good e ≡ true
        → Decodes (read_entry read) (write_entry write e) e
    Decodes-entry (k, v) h =
        Decodes-bind _ (Decodes-str k (ground arith) (ground arith))
          (Decodes-map _ (item v (ground arith)))

    -- The loop inserts each key behind those that it has read.
    pub Decodes-entries :
        (acc p : Map Text V)
        → sorted (acc ++ p) ≡ true
        → all_of (entry_fits good) p ≡ true
        → Decodes (read_entries read (length p) acc) (write_all (write_entry write) p) (acc ++ p)
    unfolding read_entries
    Decodes-entries acc [] s h = rw append-nil (Decodes-pure acc)
    Decodes-entries acc ((k, v) ∷ p) s h = Decodes-bind _ (Decodes-entry (k, v) (ground arith)) (
        rw (insert_last acc k v (below_of_sorted acc k v p s)) (
          rw (append_assoc acc ((k, v) ∷ []) p) at (
            Decodes-entries (acc ++ (k, v) ∷ []) p (rw (append_assoc acc ((k, v) ∷ []) p) s)
              (ground arith))))

-- Properties with ascending keys, whose lengths fit the prefixes and whose texts are UTF-8, are
-- read as they were written, and the cursor stands behind them.
pub Decodes-properties :
    (p : Properties) → map_fits value_fits p ≡ true → Decodes read_properties (write_properties p) p
unfolding read_properties write_properties
Decodes-properties p h =
    let e : length p % 2 ^ 32 ≡ length p = ground arith in
    rw e (
      Decodes-bind _ (Decodes-u32 (length p) (ground arith))
        (Decodes-entries write_value value_fits Decodes-value [] p (ground arith) (ground arith)))
