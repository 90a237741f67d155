-- ===== src/Persist/Wal.antt =====
-- `replay_wal` of drey/src/persist/mod.rs: the frames of the log are scanned, damage is classified by
-- where it lies, and the acknowledged frames are decoded and applied.
pub mod Scan
pub mod Classify
pub mod Logged
pub mod Header
pub mod TornLog
pub mod Recovery
pub mod Refused
pub mod Damage
use drey.Prelude.{
  ℕ, zero, suc, ◌+◌, ◌-◌, ◌^◌, Bool, true, false, not, ◌&&◌, ◌||◌, Option, none, some, List, [],
  ◌∷◌, ltb, leb, ◌==◌, length, take, drop, if◌then◌else◌,
}
use drey.Error.{
  Error, Exec, Result, ok, err, panic, guard, and_then, pure, raise, lift, codec, version_mismatch,
  generation_mismatch, require, ◌>>=◌, ◌>>◌,
}
use drey.Ord.{◌=?◌, text_ord}
use drey.Float.{Arith32}
use drey.Config.{GraphConfig}
use drey.Mutation.{Mutation}
use drey.Store.{Store}
use drey.Codec.Le.{from_le_bytes}
use drey.Codec.Reader
use drey.Codec.Reader.{Reader}
use drey.Codec.Crc.{crc32}
use drey.Persist.Format.{magic, format_version, wal_header_len}
use drey.Persist.Log.{tag_mutation}
use drey.Persist.Commit.{tag_commit}
use drey.Persist.MutationCodec.{read_mutation}
use drey.Persist.Replay.{Replay, start, apply_replay, finish}

-- `WalReplay`.
pub record WalReplay : Type 0 where
  pub epoch : ℕ
  pub valid_len : ℕ
  pub stale : Bool

-- `RawFrame`; `stop` is its field `end`.
pub record RawFrame : Type 0 where
  pub payload : List ℕ
  pub stop : ℕ
  pub crc_ok : Bool

-- `payload == [TAG_COMMIT]`.
abbrev pub is_marker_payload : List ℕ → Bool
is_marker_payload [] = false
is_marker_payload (b ∷ []) = b == tag_commit
is_marker_payload (b ∷ b' ∷ bs) = false

-- `RawFrame::is_commit_marker`.
abbrev pub is_commit_marker : RawFrame → Bool
is_commit_marker f = f.crc_ok && is_marker_payload f.payload

-- The frame that stands next, given its payload and its stored checksum.
unfoldable pub frame_of : List ℕ → ℕ → ℕ → RawFrame
frame_of payload crc stop = record {
  payload = payload;
  stop = stop;
  crc_ok = not (length payload == 0) && (crc32 payload == crc);
}

-- The loop of phase 1 from position `pos`, where the bytes `rest` are left. Each round takes eight
-- bytes at least, so that fuel of their number is enough.
unfoldable pub scan_from : ℕ → ℕ → List ℕ → List RawFrame
unfolding frame_of from_le_bytes
scan_from zero pos rest = []
scan_from (suc fuel) pos rest =
    let n = from_le_bytes (take 4 rest) in
    let crc = from_le_bytes (take 4 (drop 4 rest)) in
    let body = drop 8 rest in
    let later = scan_from fuel (pos + (8 + n)) (drop n body) in
    if ltb (length rest) 8
    then []
    else if ltb (length body) n
    then []
    else frame_of (take n body) crc (pos + (8 + n)) ∷ later

-- Phase 1.
unfoldable pub scan : List ℕ → List RawFrame
unfolding scan_from
scan bytes = scan_from (length bytes) wal_header_len (drop wal_header_len bytes)

-- A frame with its index.
abbrev pub Indexed : Type 0
Indexed = ℕ × RawFrame

-- `markers`: the trustworthy commit markers from index `i` on, each with its frame.
unfoldable pub markers_from : ℕ → List RawFrame → List Indexed
markers_from i [] = []
markers_from i (f ∷ fs) =
    let rest = markers_from (suc i) fs in if is_commit_marker f then (i, f) ∷ rest else rest

-- `slice::last`, and the element before it.
abbrev pub last : List Indexed → Option Indexed
last [] = none
last (m ∷ []) = some m
last (m ∷ m' ∷ ms) = last (m' ∷ ms)

abbrev pub before_last : List Indexed → Option Indexed
before_last [] = none
before_last (m ∷ []) = none
before_last (m ∷ m' ∷ []) = some m
before_last (m ∷ m' ∷ m'' ∷ ms) = before_last (m' ∷ m'' ∷ ms)

-- `markers.iter().find(|&&m| m >= i)`.
unfoldable pub marker_at_or_after : ℕ → List Indexed → Option Indexed
marker_at_or_after i [] = none
marker_at_or_after i (m ∷ ms) =
    let rest = marker_at_or_after i ms in if leb i m.0 then some m else rest

-- The test whether bytes stand behind the batch of a damaged frame.
unfoldable pub refuses : ℕ → List Indexed → ℕ → RawFrame → Bool
unfolding marker_at_or_after
refuses total markers i f =
    if length f.payload == 1
    then ltb f.stop total
    else elim (marker_at_or_after i markers) [ none ↦ false | some m ↦ ltb m.1.stop total ]

-- The loop over the damaged frames.
unfoldable pub any_refused : ℕ → List Indexed → ℕ → List RawFrame → Bool
unfolding refuses
any_refused total markers i [] = false
any_refused total markers i (f ∷ fs) =
    not f.crc_ok && refuses total markers i f || any_refused total markers (suc i) fs

-- `frames.iter().any(|f| !f.crc_ok)`.
abbrev pub any_damaged : List RawFrame → Bool
any_damaged [] = false
any_damaged (f ∷ fs) = not f.crc_ok || any_damaged fs

-- Where the last complete batch is damaged, the one before it is the last that counts.
unfoldable pub through_marker : List RawFrame → List Indexed → Option Indexed
through_marker frames markers = elim (last markers) [
  | none ↦ none
  | some m ↦ if any_damaged (take m.0 frames) then before_last markers else some m
]

-- Phase 2: the marker through which frames are applied, or a refusal.
unfoldable pub classify : ℕ → List RawFrame → Result (Option Indexed)
unfolding markers_from any_refused through_marker
classify total frames =
    let markers = markers_from 0 frames in
    and_then (guard (not (any_refused total markers 0 frames)) codec)
      (λ _. ok (through_marker frames markers))

-- The frames `frames[..=last]`, and the length of the log through them.
abbrev pub acknowledged : List RawFrame → Option Indexed → List RawFrame
acknowledged frames none = []
acknowledged frames (some m) = take (suc m.0) frames

abbrev pub valid_through : Option Indexed → ℕ
valid_through none = wal_header_len
valid_through (some m) = m.1.stop

-- A frame that is no marker holds the tag of a mutation, and the mutation.
unfoldable pub read_frame : Exec Reader Mutation
unfolding Reader.u8
read_frame = do tag ← Reader.u8; if tag == tag_mutation then read_mutation else raise codec

unfoldable pub decode_frame : List ℕ → Result Mutation
unfolding read_frame
decode_frame payload = (read_frame (Reader.new payload)).1

-- The end of `replay_wal`.
abbrev pub conclude : Replay × Result (Unit {0}) → WalReplay → Store × Result WalReplay
conclude (r, ok _) w = (finish r, ok w)
conclude (r, err e) w = (r.store, err e)
conclude (r, panic) w = (r.store, panic)

-- A log with nothing to replay, which is to be written anew.
abbrev pub discarded : ℕ → WalReplay
discarded epoch = record { epoch = epoch; valid_len = wal_header_len; stale = true }

module _ (f : Arith32) (config : GraphConfig) where
  -- The body of the loop of phase 3, and the loop.
  unfoldable pub apply_frame : RawFrame → Exec Replay (Unit {0})
  unfolding decode_frame apply_replay
  apply_frame frame =
      if is_commit_marker frame
      then pure tt
      else (do m ← lift (decode_frame frame.payload); apply_replay f config m)

  unfoldable pub apply_frames : List RawFrame → Exec Replay (Unit {0})
  unfolding apply_frame
  apply_frames [] = pure tt
  apply_frames (frame ∷ frames) = do apply_frame frame; apply_frames frames

  -- Phases 1 to 3 behind the checks of the header.
  unfoldable pub replay_frames : List ℕ → ℕ → Exec Store WalReplay
  unfolding scan classify apply_frames
  replay_frames bytes epoch = do
    let frames = scan bytes
    through ← lift (classify (length bytes) frames)
    λ s.
        conclude (apply_frames (acknowledged frames through) (start s))
          (record { epoch = epoch; valid_len = valid_through through; stale = false })

  -- The checks from the full header on.
  unfoldable pub replay_epoch : List ℕ → ℕ → Exec Store WalReplay
  unfolding replay_frames
  replay_epoch bytes snap_epoch = do
    require (crc32 (take 16 bytes) == from_le_bytes (take 4 (drop 16 bytes))) codec
    let wal_epoch = from_le_bytes (take 8 (drop 8 bytes))
    if ltb wal_epoch snap_epoch then pure (discarded snap_epoch) else (do
      require (leb wal_epoch snap_epoch) (generation_mismatch wal_epoch snap_epoch)
      replay_frames bytes wal_epoch)

  -- `replay_wal`.
  unfoldable pub replay_wal : List ℕ → ℕ → Exec Store WalReplay
  unfolding replay_epoch
  replay_wal bytes snap_epoch = if ltb (length bytes) 8 then pure (discarded snap_epoch) else (do
    require (take 4 bytes =? magic) codec
    let version = from_le_bytes (take 4 (drop 4 bytes))
    require (version == format_version) (version_mismatch version format_version)
    if ltb (length bytes) wal_header_len
        then pure (discarded snap_epoch)
        else replay_epoch bytes snap_epoch)
