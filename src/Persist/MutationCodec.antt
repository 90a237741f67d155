-- ===== src/Persist/MutationCodec.antt =====
-- `write_patch` to `read_mutation` of drey/src/persist/mod.rs.
use drey.Prelude.{ℕ, ◌%◌, ◌^◌, Option, none, some, List, [], ◌++◌, ◌==◌, length, if◌then◌else◌}
use drey.Error.{Exec, codec, pure, raise, ◌>>=◌}
use drey.Types.{Value}
use drey.Mutation.{
  PropertyPatch, RemoveNodeMode, reject_if_edges_exist, remove_incident_edges, EdgeFilter, Mutation,
}
use drey.Codec.Writer
use drey.Codec.Writer.{Writer, write_all}
use drey.Codec.Reader
use drey.Codec.Reader.{Reader}
use drey.Codec.Values.{
  write_value, read_value, write_entry, write_properties, read_entries, read_properties,
}
use drey.Codec.Records.{write_floats, read_floats}

unfoldable pub write_patch_value : Option Value → Writer
write_patch_value none = Writer.u8 0
write_patch_value (some v) = Writer.u8 1 ++ write_value v

unfoldable pub read_patch_value : Exec Reader (Option Value)
read_patch_value = do
  t ← Reader.u8
  if t == 0 then pure none else if t == 1 then (do v ← read_value; pure (some v)) else raise codec

unfoldable pub write_patch : PropertyPatch → Writer
unfolding write_patch_value
write_patch patch =
    Writer.u32 (length patch % 2 ^ 32) ++ write_all (write_entry write_patch_value) patch

unfoldable pub read_patch : Exec Reader PropertyPatch
unfolding read_patch_value
read_patch = do n ← Reader.u32; read_entries read_patch_value n []

-- An optional `u64` and an optional `f32`, as two arms write them behind a tag.
unfoldable pub write_dim : Option ℕ → Writer
write_dim none = Writer.u8 0
write_dim (some d) = Writer.u8 1 ++ Writer.u64 d

unfoldable pub read_dim : Exec Reader (Option ℕ)
read_dim = do
  t ← Reader.u8
  if t == 0 then pure none else if t == 1 then (do d ← Reader.u64; pure (some d)) else raise codec

unfoldable pub write_min_weight : Option ℕ → Writer
write_min_weight none = Writer.u8 0
write_min_weight (some w) = Writer.u8 1 ++ Writer.f32 w

unfoldable pub read_min_weight : Exec Reader (Option ℕ)
read_min_weight = do
  t ← Reader.u8
  if t == 0 then pure none else if t == 1 then (do w ← Reader.f32; pure (some w)) else raise codec

unfoldable pub write_mode : RemoveNodeMode → Writer
write_mode reject_if_edges_exist = Writer.u8 0
write_mode remove_incident_edges = Writer.u8 1

unfoldable pub read_mode : Exec Reader RemoveNodeMode
read_mode = do
  t ← Reader.u8
  if t == 0
      then pure reject_if_edges_exist
      else if t == 1
      then pure remove_incident_edges
      else raise codec

unfoldable pub write_filter : EdgeFilter → Writer
unfolding write_min_weight
write_filter filter =
    (Writer.u32 (length filter.edge_types % 2 ^ 32) ++ write_all Writer.str filter.edge_types)
    ++ write_min_weight filter.min_weight

-- Each label has at least the four bytes of its length.
unfoldable pub read_labels : Exec Reader (List (List ℕ))
read_labels = do n ← Reader.u32; n ← Reader.checked_len n 4; Reader.repeat n Reader.str

unfoldable pub read_filter : Exec Reader EdgeFilter
unfolding read_labels read_min_weight
read_filter = do
  types ← read_labels
  w ← read_min_weight
  pure (record { edge_types = types; min_weight = w })

unfoldable pub write_mutation : Mutation → Writer
unfolding write_patch write_dim write_mode write_filter write_floats
write_mutation (Mutation.clear_node_embedding node) = Writer.u8 10 ++ Writer.u64 node
write_mutation (Mutation.register_node_type t dim) = Writer.u8 0 ++ (Writer.str t ++ write_dim dim)
write_mutation (Mutation.add_node id t p) =
    Writer.u8 1 ++ (Writer.u64 id ++ (Writer.str t ++ write_properties p))
write_mutation (Mutation.set_node_embedding node v) =
    Writer.u8 2 ++ (Writer.u64 node ++ write_floats v)
write_mutation (Mutation.update_node_properties node patch) =
    Writer.u8 3 ++ (Writer.u64 node ++ write_patch patch)
write_mutation (Mutation.remove_node node mode) =
    Writer.u8 4 ++ (Writer.u64 node ++ write_mode mode)
write_mutation (Mutation.add_edge id source target t w p) =
    Writer.u8 5
    ++ (Writer.u64 id
        ++ (Writer.u64 source
            ++ (Writer.u64 target ++ (Writer.str t ++ (Writer.f32 w ++ write_properties p)))))
write_mutation (Mutation.set_edge_weight edge w) = Writer.u8 6 ++ (Writer.u64 edge ++ Writer.f32 w)
write_mutation (Mutation.update_edge_properties edge patch) =
    Writer.u8 7 ++ (Writer.u64 edge ++ write_patch patch)
write_mutation (Mutation.remove_edge edge) = Writer.u8 8 ++ Writer.u64 edge
write_mutation (Mutation.decay_edges filter factor) =
    Writer.u8 9 ++ (write_filter filter ++ Writer.f32 factor)

-- The match of `read_mutation` on the tag.
unfoldable pub mutation_of_tag : ℕ → Exec Reader Mutation
unfolding read_patch read_dim read_mode read_filter
mutation_of_tag t =
    if t == 10
    then (do node ← Reader.u64; pure (Mutation.clear_node_embedding node))
    else if t == 0
    then (do label ← Reader.str; dim ← read_dim; pure (Mutation.register_node_type label dim))
    else if t == 1
    then (do
      id ← Reader.u64
      label ← Reader.str
      p ← read_properties
      pure (Mutation.add_node id label p))
    else if t == 2
    then (do node ← Reader.u64; v ← read_floats; pure (Mutation.set_node_embedding node v))
    else if t == 3
    then (do
      node ← Reader.u64
      patch ← read_patch
      pure (Mutation.update_node_properties node patch))
    else if t == 4
    then (do node ← Reader.u64; mode ← read_mode; pure (Mutation.remove_node node mode))
    else if t == 5
    then (do
      id ← Reader.u64
      source ← Reader.u64
      target ← Reader.u64
      label ← Reader.str
      w ← Reader.f32
      p ← read_properties
      pure (Mutation.add_edge id source target label w p))
    else if t == 6
    then (do edge ← Reader.u64; w ← Reader.f32; pure (Mutation.set_edge_weight edge w))
    else if t == 7
    then (do
      edge ← Reader.u64
      patch ← read_patch
      pure (Mutation.update_edge_properties edge patch))
    else if t == 8
    then (do edge ← Reader.u64; pure (Mutation.remove_edge edge))
    else if t == 9
    then (do filter ← read_filter; factor ← Reader.f32; pure (Mutation.decay_edges filter factor))
    else raise codec

unfoldable pub read_mutation : Exec Reader Mutation
unfolding mutation_of_tag
read_mutation = do t ← Reader.u8; mutation_of_tag t
