-- ===== src/Persist/Wal/Damage.antt =====
-- `replay_wal` of drey/src/persist/mod.rs refuses a log in which a frame of an acknowledged batch was
-- damaged.
use drey.Prelude.{
  ℕ, suc, ◌+◌, ◌^◌, ◌≤◌, ◌<◌, ◌≡◌, refl, ap, ◌∙◌, true, false, not, List, [], ◌∷◌, ◌++◌, ltb, leb,
  ◌==◌, length, arith, length-append, take_append, drop_append,
}
use mathlib.Core.List.{append_assoc}
use drey.Error.{err, codec}
use drey.Float.{Arith32}
use drey.Config.{GraphConfig}
use drey.Store.{Store}
use drey.Codec.Writer
use drey.Codec.Writer.{Writer}
use drey.Codec.Crc.{crc32}
use drey.Codec.Le.{to_le_bytes}
use drey.Codec.Decodes.{all_of}
use drey.Persist.Format.{wal_header_len, wal_header}
use drey.Persist.Wal.{
  RawFrame, is_marker_payload, scan, scan_from, frame_of, replay_frames, replay_wal,
}
use drey.Persist.Wal.Scan.{
  whole, frames_at, frames_bytes, frameable, scan_frames, scan_header, scan_from_fuel,
}
use drey.Persist.Wal.Refused.{and_false, frames_at-unmarked, damage-refused}
use drey.Persist.Wal.Logged.{marker}
use drey.Persist.Wal.TornLog.{all_of-append, frames_at-append, length-frames_bytes_last}
use drey.Persist.Wal.Header.{drop-wal_header, length-wal_header, replay_wal-wal_header}

-- The bytes of a frame whose stored checksum is `c`.
abbrev pub stored : ℕ → List ℕ → List ℕ
stored c p = Writer.u32 (length p) ++ (Writer.u32 c ++ p)

-- A log in which the frame of `p` holds another checksum, with the rest of its batch and more.
abbrev pub damaged_log : ℕ → List (List ℕ) → ℕ → List ℕ → List (List ℕ) → List ℕ → List ℕ
damaged_log epoch ps c p qs rest =
    wal_header epoch
    ++ (frames_bytes ps ++ (stored c p ++ (frames_bytes (qs ++ marker ∷ []) ++ rest)))

abbrev bad_frame : ℕ → List ℕ → ℕ → RawFrame
bad_frame c p pos = frame_of p c (pos + (8 + length p))

bad_frame-damaged :
    (c : ℕ) (p : List ℕ) (pos : ℕ)
    → (crc32 p == c) ≡ false
    → ((bad_frame c p pos).crc_ok ≡ false) × ((bad_frame c p pos).stop ≡ pos + (8 + length p))
unfolding frame_of
bad_frame-damaged c p pos h = (rw h (and_false (not (length p == 0))), refl)

module _ (c : ℕ) (p : List ℕ) (crc : c < 256 ^ 4) (short : length p < 256 ^ 4) where
  stored-append :
      (rest : List ℕ) → stored c p ++ rest ≡ Writer.u32 (length p) ++ (Writer.u32 c ++ (p ++ rest))
  unfolding Writer.u32 to_le_bytes
  stored-append rest = refl

  length-stored : length (stored c p) ≡ 8 + length p
  unfolding Writer.u32 to_le_bytes
  length-stored = omega arith

  scan-stored :
      (f pos : ℕ) (rest : List ℕ)
      → length (stored c p ++ rest) ≤ f
      → scan_from f pos (stored c p ++ rest)
        ≡ bad_frame c p pos ∷ scan_from f (pos + (8 + length p)) rest
  scan-stored f pos rest h =
      let long = length-append (stored c p) rest in
      let long' = length-append p rest in
      let room : length (stored c p ++ rest) ≤ suc f = omega (arith, h) in
      let room' : length rest ≤ f = omega (arith, h, long) in
      let fits : ltb (length (p ++ rest)) (length p) ≡ false = ground (arith, long') in
      let round = scan_header f pos (length p) c (p ++ rest) short crc in
      scan_from_fuel f (suc f) pos (stored c p ++ rest) h room
      ∙ ap (scan_from (suc f) pos) (stored-append rest)
      ∙ round
      ∙ rw (fits, take_append p rest, drop_append p rest) refl

-- Where the frames of the log begin, and what stands behind the marker.
abbrev bad_at : List (List ℕ) → ℕ
bad_at ps = wal_header_len + length (frames_bytes ps)

abbrev marker_at : List (List ℕ) → List ℕ → List (List ℕ) → ℕ
marker_at ps p qs = bad_at ps + (8 + length p) + length (frames_bytes qs)

abbrev behind_marker : List (List ℕ) → List ℕ → List (List ℕ) → List ℕ → List RawFrame
behind_marker ps p qs rest =
    scan_from (length rest) (bad_at ps + (8 + length p) + length (frames_bytes (qs ++ marker ∷ [])))
      rest

module _ (epoch : ℕ) (ps : List (List ℕ)) (c : ℕ) (p : List ℕ) (qs : List (List ℕ)) (rest : List ℕ)
    (fits : epoch < 256 ^ 8) (h : all_of frameable ps ≡ true) (crc : c < 256 ^ 4)
    (short : length p < 256 ^ 4) (k : all_of frameable qs ≡ true) where
  scan-damaged_log :
      scan (damaged_log epoch ps c p qs rest)
      ≡ frames_at wal_header_len ps
        ++ bad_frame c p (bad_at ps)
          ∷ (frames_at (bad_at ps + (8 + length p)) qs
              ++ whole (marker_at ps p qs) marker ∷ behind_marker ps p qs rest)
  unfolding scan
  scan-damaged_log =
      let last_part = frames_bytes (qs ++ marker ∷ []) ++ rest in
      let bad_part = stored c p ++ last_part in
      let all_parts = frames_bytes ps ++ bad_part in
      let pos = bad_at ps + (8 + length p) in
      let room : length all_parts ≤ length (wal_header epoch ++ all_parts) =
        omega (arith, length-wal_header epoch fits all_parts) in
      let long : length bad_part ≡ length (stored c p) + length last_part =
        length-append (stored c p) last_part in
      let room' : length last_part ≤ length bad_part = omega (arith, long) in
      let first =
        scan_frames (length (wal_header epoch ++ all_parts)) wal_header_len ps bad_part h room in
      let second =
        scan-stored c p crc short (length bad_part) (bad_at ps) last_part (omega arith) in
      let framed = all_of-append frameable qs (marker ∷ []) k refl in
      let third = scan_frames (length bad_part) pos (qs ++ marker ∷ []) rest framed room' in
      let split = frames_at-append pos qs (marker ∷ []) in
      let assoc =
        append_assoc (frames_at pos qs) (whole (marker_at ps p qs) marker ∷ [])
          (behind_marker ps p qs rest) in
      rw (drop-wal_header epoch fits all_parts, first, second, third, split)
        (ap (λ xs. frames_at wal_header_len ps ++ bad_frame c p (bad_at ps) ∷ xs) assoc)

  length-damaged_log :
      length (damaged_log epoch ps c p qs rest) ≡ marker_at ps p qs + 9 + length rest
  length-damaged_log =
      let last_part = frames_bytes (qs ++ marker ∷ []) ++ rest in
      let bad_part = stored c p ++ last_part in
      omega (
        arith,
        length-wal_header epoch fits (frames_bytes ps ++ bad_part),
        length-append (frames_bytes ps) bad_part,
        length-append (stored c p) last_part,
        length-stored c p crc short,
        length-append (frames_bytes (qs ++ marker ∷ [])) rest,
        length-frames_bytes_last qs,
      )

module _ (f : Arith32) (config : GraphConfig) where
  -- Where a frame, behind whole frames, holds another checksum than that of its payload, and
  -- frames with no marker, a marker and more bytes stand behind it, `replay_wal` at the epoch of
  -- the log refuses with a codec error and leaves the store as it was.
  pub replay_wal-damaged_log :
      (epoch : ℕ) (ps : List (List ℕ)) (c : ℕ) (p : List ℕ) (qs : List (List ℕ)) (rest : List ℕ)
      (s : Store)
      → epoch < 256 ^ 8
      → all_of frameable ps ≡ true
      → c < 256 ^ 4
      → length p < 256 ^ 4
      → (crc32 p == c) ≡ false
      → all_of frameable qs ≡ true
      → all_of (λ q. not (is_marker_payload q)) qs ≡ true
      → 0 < length rest
      → replay_wal f config (damaged_log epoch ps c p qs rest) epoch s ≡ (s, err codec)
  unfolding replay_frames
  replay_wal-damaged_log epoch ps c p qs rest s fits h crc short wrong k l more =
      let log = damaged_log epoch ps c p qs rest in
      let bad = bad_frame c p (bad_at ps) in
      let size = length-damaged_log epoch ps c p qs rest fits h crc short k in
      let (damaged, ends) = bad_frame-damaged c p (bad_at ps) wrong in
      let refused =
        damage-refused (length log) (frames_at wal_header_len ps) bad
          (frames_at (bad_at ps + (8 + length p)) qs) (whole (marker_at ps p qs) marker)
          (behind_marker ps p qs rest) damaged (omega (arith, size, more, ends))
          (frames_at-unmarked (bad_at ps + (8 + length p)) qs l) refl (omega (arith, size, more)) in
      let same : ltb epoch epoch ≡ false = ground arith in
      let same' : leb epoch epoch ≡ true = ground arith in
      replay_wal-wal_header f config epoch fits _ epoch s
      ∙ rw (same, same', scan-damaged_log epoch ps c p qs rest fits h crc short k, refused) refl
