-- ===== src/Persist/MutationTrip.antt =====
-- Every mutation is read as it was written.
use drey.Prelude.{
  ℕ, ◌*◌, ◌%◌, ◌^◌, ◌≤◌, ◌≡◌, Bool, true, ◌&&◌, Option, none, some, List, [], ◌∷◌, ◌++◌, arith, ltb,
  length, length-append,
}
use drey.Ord.{Text}
use drey.Types.{Value}
use drey.Mutation.{
  PropertyPatch, RemoveNodeMode, reject_if_edges_exist, remove_incident_edges, EdgeFilter, Mutation,
}
use drey.Codec.Le.{length-to_le_bytes}
use drey.Codec.Writer
use drey.Codec.Writer.{write_all}
use drey.Codec.Reader
use drey.Codec.Decodes.{
  Decodes, all_of, Decodes-bind, Decodes-pure, Decodes-last, Decodes-map, Decodes-u8, Decodes-u32,
  Decodes-u64, Decodes-f32, Decodes-str, Decodes-checked_len, Decodes-repeat,
}
use drey.Codec.ValueTrip.{
  text_fits, value_fits, map_fits, Decodes-value, Decodes-properties, Decodes-entries,
}
use drey.Codec.RecordTrip.{f32_fits, floats_fit, Decodes-floats}
use drey.Persist.MutationCodec.{
  write_patch_value, read_patch_value, write_patch, read_patch, write_dim, read_dim,
  write_min_weight, read_min_weight, write_mode, read_mode, write_filter, read_labels, read_filter,
  write_mutation, read_mutation,
}

abbrev u64_fits : ℕ → Bool
u64_fits n = ltb n (2 ^ 64)

abbrev patch_value_fits : Option Value → Bool
patch_value_fits none = true
patch_value_fits (some v) = value_fits v

abbrev pub patch_fits : PropertyPatch → Bool
patch_fits = map_fits patch_value_fits

abbrev dim_fits : Option ℕ → Bool
dim_fits none = true
dim_fits (some d) = u64_fits d

abbrev weight_fits : Option ℕ → Bool
weight_fits none = true
weight_fits (some w) = f32_fits w

abbrev filter_fits : EdgeFilter → Bool
filter_fits f =
    (ltb (length f.edge_types) (2 ^ 32) && all_of text_fits f.edge_types)
    && weight_fits f.min_weight

-- The values of the Rust types, within the length prefixes.
abbrev pub mutation_fits : Mutation → Bool
mutation_fits (Mutation.clear_node_embedding node) = u64_fits node
mutation_fits (Mutation.register_node_type t dim) = text_fits t && dim_fits dim
mutation_fits (Mutation.add_node id t p) = u64_fits id && (text_fits t && map_fits value_fits p)
mutation_fits (Mutation.set_node_embedding node v) = u64_fits node && floats_fit v
mutation_fits (Mutation.update_node_properties node patch) = u64_fits node && patch_fits patch
mutation_fits (Mutation.remove_node node mode) = u64_fits node
mutation_fits (Mutation.add_edge id source target t w p) =
    u64_fits id
    && (u64_fits source
        && (u64_fits target && (text_fits t && (f32_fits w && map_fits value_fits p))))
mutation_fits (Mutation.set_edge_weight edge w) = u64_fits edge && f32_fits w
mutation_fits (Mutation.update_edge_properties edge patch) = u64_fits edge && patch_fits patch
mutation_fits (Mutation.remove_edge edge) = u64_fits edge
mutation_fits (Mutation.decay_edges filter factor) = filter_fits filter && f32_fits factor

Decodes-patch_value :
    (v : Option Value)
    → patch_value_fits v ≡ true
    → Decodes read_patch_value (write_patch_value v) v
unfolding read_patch_value write_patch_value
Decodes-patch_value none h = Decodes-last _ (Decodes-u8 0) (Decodes-pure _)
Decodes-patch_value (some v) h = Decodes-bind _ (Decodes-u8 1) (Decodes-map _ (Decodes-value v h))

Decodes-patch :
    (patch : PropertyPatch) → patch_fits patch ≡ true → Decodes read_patch (write_patch patch) patch
unfolding read_patch write_patch
Decodes-patch patch h =
    let e : length patch % 2 ^ 32 ≡ length patch = ground arith in
    rw e (
      Decodes-bind _ (Decodes-u32 (length patch) (ground arith)) (
        Decodes-entries write_patch_value patch_value_fits Decodes-patch_value [] patch
          (ground arith) (ground arith)))

Decodes-dim : (d : Option ℕ) → dim_fits d ≡ true → Decodes read_dim (write_dim d) d
unfolding read_dim write_dim
Decodes-dim none h = Decodes-last _ (Decodes-u8 0) (Decodes-pure _)
Decodes-dim (some d) h =
    Decodes-bind _ (Decodes-u8 1) (Decodes-map _ (Decodes-u64 d (ground arith)))

Decodes-min_weight :
    (w : Option ℕ) → weight_fits w ≡ true → Decodes read_min_weight (write_min_weight w) w
unfolding read_min_weight write_min_weight
Decodes-min_weight none h = Decodes-last _ (Decodes-u8 0) (Decodes-pure _)
Decodes-min_weight (some w) h =
    Decodes-bind _ (Decodes-u8 1) (Decodes-map _ (Decodes-f32 w (ground arith)))

Decodes-mode : (m : RemoveNodeMode) → Decodes read_mode (write_mode m) m
unfolding read_mode write_mode
Decodes-mode reject_if_edges_exist = Decodes-last _ (Decodes-u8 0) (Decodes-pure _)
Decodes-mode remove_incident_edges = Decodes-last _ (Decodes-u8 1) (Decodes-pure _)

length-write_labels : (ts : List Text) → length ts * 4 ≤ length (write_all Writer.str ts)
unfolding Writer.str Writer.u32
length-write_labels [] = omega arith
length-write_labels (t ∷ ts) = omega (
  arith,
  length-write_labels ts,
  length-to_le_bytes 4,
  length-append (Writer.str t) (write_all Writer.str ts),
  length-append (Writer.u32 (length t % 2 ^ 32)) t,
)

Decodes-label : (t : Text) → text_fits t ≡ true → Decodes Reader.str (Writer.str t) t
Decodes-label t h = Decodes-str t (ground arith) (ground arith)

Decodes-labels :
    (ts : List Text)
    → ltb (length ts) (2 ^ 32) ≡ true
    → all_of text_fits ts ≡ true
    → Decodes read_labels (Writer.u32 (length ts % 2 ^ 32) ++ write_all Writer.str ts) ts
unfolding read_labels
Decodes-labels ts n h =
    let e : length ts % 2 ^ 32 ≡ length ts = ground arith in
    rw e (
      Decodes-bind _ (Decodes-u32 (length ts) (ground arith)) (
        Decodes-checked_len (length ts) 4 _ (length-write_labels ts)
          (Decodes-repeat Writer.str text_fits Decodes-label ts h)))

Decodes-filter : (f : EdgeFilter) → filter_fits f ≡ true → Decodes read_filter (write_filter f) f
unfolding read_filter write_filter
Decodes-filter f h =
    Decodes-bind _ (Decodes-labels f.edge_types (ground arith) (ground arith))
      (Decodes-map _ (Decodes-min_weight f.min_weight (ground arith)))

-- A mutation of any kind whose numbers, lengths, texts and maps fit the format is read as it was
-- written: where its bytes stand next in a buffer shorter than 2^64, `read_mutation` returns it
-- and leaves the cursor behind them.
pub Decodes-mutation :
    (m : Mutation) → mutation_fits m ≡ true → Decodes read_mutation (write_mutation m) m
unfolding read_mutation write_mutation
Decodes-mutation (Mutation.clear_node_embedding node) h =
    Decodes-bind _ (Decodes-u8 10) (Decodes-map _ (Decodes-u64 node (ground arith)))
Decodes-mutation (Mutation.register_node_type t dim) h = Decodes-bind _ (Decodes-u8 0) (
    Decodes-bind _ (Decodes-label t (ground arith))
      (Decodes-map _ (Decodes-dim dim (ground arith))))
Decodes-mutation (Mutation.add_node id t p) h = Decodes-bind _ (Decodes-u8 1) (
    Decodes-bind _ (Decodes-u64 id (ground arith)) (
      Decodes-bind _ (Decodes-label t (ground arith))
        (Decodes-map _ (Decodes-properties p (ground arith)))))
Decodes-mutation (Mutation.set_node_embedding node v) h = Decodes-bind _ (Decodes-u8 2) (
    Decodes-bind _ (Decodes-u64 node (ground arith))
      (Decodes-map _ (Decodes-floats v (ground arith))))
Decodes-mutation (Mutation.update_node_properties node patch) h = Decodes-bind _ (Decodes-u8 3) (
    Decodes-bind _ (Decodes-u64 node (ground arith))
      (Decodes-map _ (Decodes-patch patch (ground arith))))
Decodes-mutation (Mutation.remove_node node mode) h =
    Decodes-bind _ (Decodes-u8 4)
      (Decodes-bind _ (Decodes-u64 node (ground arith)) (Decodes-map _ (Decodes-mode mode)))
Decodes-mutation (Mutation.add_edge id source target t w p) h = Decodes-bind _ (Decodes-u8 5) (
    Decodes-bind _ (Decodes-u64 id (ground arith)) (
      Decodes-bind _ (Decodes-u64 source (ground arith)) (
        Decodes-bind _ (Decodes-u64 target (ground arith)) (
          Decodes-bind _ (Decodes-label t (ground arith)) (
            Decodes-bind _ (Decodes-f32 w (ground arith))
              (Decodes-map _ (Decodes-properties p (ground arith))))))))
Decodes-mutation (Mutation.set_edge_weight edge w) h = Decodes-bind _ (Decodes-u8 6) (
    Decodes-bind _ (Decodes-u64 edge (ground arith)) (Decodes-map _ (Decodes-f32 w (ground arith))))
Decodes-mutation (Mutation.update_edge_properties edge patch) h = Decodes-bind _ (Decodes-u8 7) (
    Decodes-bind _ (Decodes-u64 edge (ground arith))
      (Decodes-map _ (Decodes-patch patch (ground arith))))
Decodes-mutation (Mutation.remove_edge edge) h =
    Decodes-bind _ (Decodes-u8 8) (Decodes-map _ (Decodes-u64 edge (ground arith)))
Decodes-mutation (Mutation.decay_edges filter factor) h = Decodes-bind _ (Decodes-u8 9) (
    Decodes-bind _ (Decodes-filter filter (ground arith))
      (Decodes-map _ (Decodes-f32 factor (ground arith))))
