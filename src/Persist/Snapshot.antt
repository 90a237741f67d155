-- ===== src/Persist/Snapshot.antt =====
-- `save_snapshot` of drey/src/persist/mod.rs: the image of a store. The maps of the model are in the
-- order of their keys, which is the order that the source sorts them into.
use drey.Prelude.{ℕ, ◌%◌, ◌^◌, Option, none, some, List, ◌++◌, drop, length}
use drey.Ord.{Text}
use drey.Records.{NodeRecord, EdgeRecord}
use drey.Store.{Store}
use drey.Codec.Writer
use drey.Codec.Writer.{Writer, write_all}
use drey.Codec.Records.{write_node_record, write_edge_record}
use drey.Codec.Crc.{crc32}
use drey.Persist.Format.{magic, format_version}

-- A length of a `u32` prefix, then the items.
abbrev counted {ℓ} : {A : Type ℓ} → (A → Writer) → List A → Writer
counted write xs = Writer.u32 (length xs % 2 ^ 32) ++ write_all write xs

-- A declared dimension with its type id.
unfoldable pub write_declaration : ℕ × Option ℕ → Writer
unfolding Writer.u8 Writer.u32 Writer.u64
write_declaration (tid, none) = Writer.u32 tid ++ Writer.u8 0
write_declaration (tid, some d) = Writer.u32 tid ++ (Writer.u8 1 ++ Writer.u64 d)

unfoldable pub write_indexed : (Text × Text) × Unit {0} → Writer
unfolding Writer.str
write_indexed ((t, k), _) = Writer.str t ++ Writer.str k

unfoldable pub write_node : ℕ × NodeRecord → Writer
unfolding Writer.u64 write_node_record
write_node (id, rec) = Writer.u64 id ++ write_node_record rec

unfoldable pub write_edge : ℕ × EdgeRecord → Writer
unfolding Writer.u64 write_edge_record
write_edge (id, rec) = Writer.u64 id ++ write_edge_record rec

-- The image up to the checksum.
unfoldable pub image : Store → ℕ → Writer
unfolding write_declaration write_indexed write_node write_edge
image store epoch =
    magic
    ++ (Writer.u32 format_version
        ++ (Writer.u64 epoch
            ++ (Writer.u64 store.next_node_id
                ++ (Writer.u64 store.next_edge_id
                    ++ (counted Writer.str store.node_types.labels
                        ++ (counted Writer.str store.edge_types.labels
                            ++ (counted write_declaration store.embedding_dim
                                ++ (counted write_indexed store.indexed
                                    ++ (Writer.u64 (length store.nodes)
                                        ++ (write_all write_node store.nodes
                                            ++ (Writer.u64 (length store.edges)
                                                ++ write_all write_edge store.edges)))))))))))

-- `save_snapshot`: the checksum leaves magic and version out.
unfoldable pub save_snapshot : Store → ℕ → Writer
unfolding image crc32
save_snapshot store epoch = let w = image store epoch in w ++ Writer.u32 (crc32 (drop 8 w))
