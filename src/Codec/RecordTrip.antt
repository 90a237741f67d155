-- ===== src/Codec/RecordTrip.antt =====
-- Records are read as they were written.
use drey.Prelude.{
  ℕ, ◌*◌, ◌%◌, ◌^◌, ◌≤◌, ◌≡◌, Bool, true, ◌&&◌, Option, none, some, List, [], ◌∷◌, arith, ltb,
  length, length-append,
}
use drey.Records.{NodeRecord, EdgeRecord}
use drey.Codec.Le.{length-to_le_bytes}
use drey.Codec.Writer
use drey.Codec.Writer.{write_all}
use drey.Codec.Decodes.{
  Decodes, all_of, Decodes-bind, Decodes-pure, Decodes-last, Decodes-map, Decodes-u8, Decodes-u32,
  Decodes-u64, Decodes-f32, Decodes-checked_len, Decodes-repeat,
}
use drey.Codec.ValueTrip.{value_fits, map_fits, Decodes-properties}
use drey.Codec.Records.{
  write_floats, read_floats, write_embedding, read_embedding, write_node_record, read_node_record,
  write_edge_record, read_edge_record,
}

abbrev pub f32_fits : ℕ → Bool
f32_fits x = ltb x (2 ^ 32)

abbrev pub floats_fit : List ℕ → Bool
floats_fit v = ltb (length v) (2 ^ 32) && all_of f32_fits v

abbrev pub embedding_fits : Option (List ℕ) → Bool
embedding_fits none = true
embedding_fits (some v) = floats_fit v

length-write_floats : (v : List ℕ) → length v * 4 ≤ length (write_all Writer.f32 v)
unfolding Writer.f32
length-write_floats [] = omega arith
length-write_floats (x ∷ v) = omega (
  arith,
  length-write_floats v,
  length-to_le_bytes 4 x,
  length-append (Writer.f32 x) (write_all Writer.f32 v),
)

pub Decodes-floats : (v : List ℕ) → floats_fit v ≡ true → Decodes read_floats (write_floats v) v
unfolding read_floats write_floats
Decodes-floats v h =
    let e : length v % 2 ^ 32 ≡ length v = ground arith in
    rw e (
      Decodes-bind _ (Decodes-u32 (length v) (ground arith)) (
        Decodes-checked_len (length v) 4 _ (length-write_floats v) (
          Decodes-repeat Writer.f32 f32_fits (λ x b. Decodes-f32 x (ground arith)) v
            (ground arith))))

Decodes-embedding :
    (v : Option (List ℕ)) → embedding_fits v ≡ true → Decodes read_embedding (write_embedding v) v
unfolding read_embedding write_embedding
Decodes-embedding none h = Decodes-last _ (Decodes-u8 0) (Decodes-pure _)
Decodes-embedding (some v) h = Decodes-bind _ (Decodes-u8 1) (Decodes-map _ (Decodes-floats v h))

-- A node record whose numbers fit their widths, whose embedding fits and whose properties fit is
-- read as it was written, and the cursor stands behind it.
pub Decodes-node_record :
    (rec : NodeRecord)
    → ltb rec.node_type (2 ^ 32) ≡ true
    → embedding_fits rec.embedding ≡ true
    → map_fits value_fits rec.properties ≡ true
    → Decodes read_node_record (write_node_record rec) rec
unfolding read_node_record write_node_record
Decodes-node_record rec t v p = Decodes-bind _ (Decodes-u32 rec.node_type (ground arith)) (
    Decodes-bind _ (Decodes-embedding rec.embedding v)
      (Decodes-map _ (Decodes-properties rec.properties p)))

-- An edge record whose numbers fit their widths and whose properties fit is read as it was
-- written, and the cursor stands behind it.
pub Decodes-edge_record :
    (rec : EdgeRecord)
    → ltb rec.source (2 ^ 64) ≡ true
    → ltb rec.target (2 ^ 64) ≡ true
    → ltb rec.edge_type (2 ^ 32) ≡ true
    → f32_fits rec.weight ≡ true
    → map_fits value_fits rec.properties ≡ true
    → Decodes read_edge_record (write_edge_record rec) rec
unfolding read_edge_record write_edge_record
Decodes-edge_record rec s t e w p = Decodes-bind _ (Decodes-u64 rec.source (ground arith)) (
    Decodes-bind _ (Decodes-u64 rec.target (ground arith)) (
      Decodes-bind _ (Decodes-u32 rec.edge_type (ground arith)) (
        Decodes-bind _ (Decodes-f32 rec.weight (ground arith))
          (Decodes-map _ (Decodes-properties rec.properties p)))))
