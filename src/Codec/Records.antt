-- ===== src/Codec/Records.antt =====
-- `write_node_record` to `read_edge_record` of drey/src/persist/codec.rs.
use drey.Prelude.{ℕ, ◌%◌, ◌^◌, Option, none, some, List, ◌++◌, ◌==◌, length, if◌then◌else◌}
use drey.Error.{Exec, codec, pure, raise, ◌>>=◌}
use drey.Records.{NodeRecord, EdgeRecord}
use drey.Codec.Writer
use drey.Codec.Writer.{Writer, write_all}
use drey.Codec.Reader
use drey.Codec.Reader.{Reader}
use drey.Codec.Values.{write_properties, read_properties}

-- A vector of `f32`s behind its length.
unfoldable pub write_floats : List ℕ → Writer
write_floats v = Writer.u32 (length v % 2 ^ 32) ++ write_all Writer.f32 v

unfoldable pub read_floats : Exec Reader (List ℕ)
read_floats = do n ← Reader.u32; n ← Reader.checked_len n 4; Reader.repeat n Reader.f32

unfoldable pub write_embedding : Option (List ℕ) → Writer
unfolding write_floats
write_embedding none = Writer.u8 0
write_embedding (some v) = Writer.u8 1 ++ write_floats v

unfoldable pub read_embedding : Exec Reader (Option (List ℕ))
unfolding read_floats
read_embedding = do
  t ← Reader.u8
  if t == 0 then pure none else if t == 1 then (do v ← read_floats; pure (some v)) else raise codec

unfoldable pub write_node_record : NodeRecord → Writer
unfolding write_embedding
write_node_record rec =
    Writer.u32 rec.node_type ++ (write_embedding rec.embedding ++ write_properties rec.properties)

unfoldable pub read_node_record : Exec Reader NodeRecord
unfolding read_embedding
read_node_record = do
  t ← Reader.u32
  v ← read_embedding
  p ← read_properties
  pure (record { node_type = t; properties = p; embedding = v })

unfoldable pub write_edge_record : EdgeRecord → Writer
write_edge_record rec =
    Writer.u64 rec.source
    ++ (Writer.u64 rec.target
        ++ (Writer.u32 rec.edge_type ++ (Writer.f32 rec.weight ++ write_properties rec.properties)))

unfoldable pub read_edge_record : Exec Reader EdgeRecord
read_edge_record = do
  source ← Reader.u64
  target ← Reader.u64
  t ← Reader.u32
  w ← Reader.f32
  p ← read_properties
  pure (record { source = source; target = target; edge_type = t; weight = w; properties = p })
