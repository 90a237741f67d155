-- ===== src/Persist/Wal/Logged.antt =====
-- Phase 3 of `replay_wal` on the records that `append` and `commit` of drey/src/persist/mod.rs write:
-- it applies their mutations.
use drey.Prelude.{
  ℕ, ◌+◌, ◌^◌, ◌≡◌, refl, sym, ap, Bool, true, false, ◌&&◌, List, [], ◌∷◌, ◌++◌, map, ltb, length,
  arith,
}
use mathlib.Core.List.{append-nil}
use mathlib.Core.Path.{fun_ext}
use drey.Error.{ok, follow}
use drey.Float.{Arith32}
use drey.Config.{GraphConfig}
use drey.Mutation.{Mutation}
use drey.Codec.Writer
use drey.Codec.Reader
use drey.Codec.Reader.{Reader}
use drey.Codec.Decodes.{all_of, Decodes, Decodes-bind, Decodes-u8, At}
use drey.Persist.Commit.{tag_commit, write_frame, batch}
use drey.Persist.Log.{payload, tag_mutation}
use drey.Persist.MutationCodec.{write_mutation}
use drey.Persist.MutationTrip.{mutation_fits, Decodes-mutation}
use drey.Persist.Replay.{Replay, apply_replay, apply_all}
use drey.Persist.Wal.{is_marker_payload, decode_frame, read_frame, apply_frame, apply_frames}
use drey.Persist.Wal.Scan.{whole, frames_at, frames_bytes, frame_bytes, frameable}

-- The payload of the commit marker, the payloads of a batch, and those of a log of batches.
abbrev pub marker : List ℕ
marker = tag_commit ∷ []

abbrev pub batch_payloads : List Mutation → List (List ℕ)
batch_payloads b = map payload b ++ marker ∷ []

abbrev pub log_payloads : List (List Mutation) → List (List ℕ)
log_payloads [] = []
log_payloads (b ∷ bs) = map payload b ++ marker ∷ log_payloads bs

-- The mutations of the batches in order.
abbrev pub all_mutations : List (List Mutation) → List Mutation
all_mutations [] = []
all_mutations (b ∷ bs) = b ++ all_mutations bs

-- A mutation within the ranges of the Rust types, whose record the length prefix can carry.
abbrev pub loggable : Mutation → Bool
loggable m = mutation_fits m && ltb (length (payload m)) (2 ^ 32)

Decodes-frame : (m : Mutation) → mutation_fits m ≡ true → Decodes read_frame (payload m) m
unfolding read_frame payload Writer.u8
Decodes-frame m h = Decodes-bind _ (Decodes-u8 tag_mutation) (Decodes-mutation m h)

decode_frame-payload : (m : Mutation) → loggable m ≡ true → decode_frame (payload m) ≡ ok m
unfolding decode_frame
decode_frame-payload m h =
    let d = Decodes-frame m (ground arith) in
    let at : At (Reader.new (payload m)) (payload m ++ []) = record {
      left = sym (append-nil (payload m));
      inside = omega arith;
      fits = ground arith;
    } in
    let (r, e, _) = d.run (Reader.new (payload m)) [] at in ap (λ x. x.1) e

pub payload-unmarked : (m : Mutation) → is_marker_payload (payload m) ≡ false
unfolding payload Writer.u8
payload-unmarked m = go (write_mutation m)
  where
    go : (xs : List ℕ) → is_marker_payload (tag_mutation ∷ xs) ≡ false
    go [] = refl
    go (x ∷ xs) = refl

payload-frameable : (m : Mutation) → loggable m ≡ true → frameable (payload m) ≡ true
unfolding payload Writer.u8
payload-frameable m h = ground arith

write_frame-payload :
    (m : Mutation) → loggable m ≡ true → write_frame (payload m) ≡ ok (frame_bytes (payload m))
unfolding write_frame
write_frame-payload m h = ground arith

-- For mutations in the ranges of the Rust types and of the length prefix, the frames that `commit`
-- appends for their records are one frame for each record, in order, and the frame of the marker,
-- which is the form of a batch that the theorems on recovery take.
pub batch-payloads :
    (b : List Mutation)
    → all_of loggable b ≡ true
    → batch (map payload b) ≡ ok (frames_bytes (batch_payloads b))
unfolding batch write_frame Writer.u8
batch-payloads [] h = ap ok (sym (append-nil (frame_bytes marker)))
batch-payloads (m ∷ b) h =
    rw (batch-payloads b (ground arith), write_frame-payload m (ground arith)) refl

pub batch_payloads-frameable :
    (b : List Mutation) → all_of loggable b ≡ true → all_of frameable (batch_payloads b) ≡ true
batch_payloads-frameable [] h = refl
batch_payloads-frameable (m ∷ b) h =
    rw (payload-frameable m (ground arith)) (batch_payloads-frameable b (ground arith))

pub log_payloads-frameable :
    (b : List Mutation) (bs : List (List Mutation))
    → all_of loggable b ≡ true
    → all_of (all_of loggable) bs ≡ true
    → all_of frameable (map payload b ++ marker ∷ log_payloads bs) ≡ true
log_payloads-frameable [] [] h k = refl
log_payloads-frameable [] (b ∷ bs) h k = log_payloads-frameable b bs (ground arith) (ground arith)
log_payloads-frameable (m ∷ b) bs h k =
    rw (payload-frameable m (ground arith)) (log_payloads-frameable b bs (ground arith) k)

module _ (f : Arith32) (config : GraphConfig) where
  apply_frame-payload :
      (pos : ℕ) (m : Mutation) (r : Replay)
      → loggable m ≡ true
      → apply_frame f config (whole pos (payload m)) r ≡ apply_replay f config m r
  unfolding apply_frame
  apply_frame-payload pos m r h = rw (payload-unmarked m, decode_frame-payload m h) refl

  pub apply_frames-log :
      (pos : ℕ) (b : List Mutation) (bs : List (List Mutation)) (r : Replay)
      → all_of loggable b ≡ true
      → all_of (all_of loggable) bs ≡ true
      → apply_frames f config (frames_at pos (map payload b ++ marker ∷ log_payloads bs)) r
        ≡ apply_all f config (b ++ all_mutations bs) r
  unfolding apply_frames apply_all
  apply_frames-log pos [] [] r h k = refl
  apply_frames-log pos [] (b ∷ bs) r h k =
      apply_frames-log (pos + 9) b bs r (ground arith) (ground arith)
  apply_frames-log pos (m ∷ b) bs r h k =
      let next = pos + (8 + length (payload m)) in
      rw (apply_frame-payload pos m r (ground arith)) (
        ap (follow (apply_replay f config m r))
          (fun_ext (λ u. fun_ext (λ r'. apply_frames-log next b bs r' (ground arith) k))))
