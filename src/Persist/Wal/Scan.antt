-- ===== src/Persist/Wal/Scan.antt =====
-- The scan of the log finds the frames that were written, and of a torn write those that are whole.
use drey.Prelude.{
  ℕ, zero, suc, ◌+◌, ◌-◌, ◌^◌, ◌≤◌, ◌<◌, ◌≡◌, refl, ap, ◌∙◌, Bool, true, ◌&&◌, List, [], ◌∷◌, ◌++◌,
  ltb, length, take, drop, arith, length-append, length-drop, take_append, drop_append, length-take,
  take_nil, take-append_left, take-append_right, if◌then◌else◌, Bool-cases, inl, inr,
}
use mathlib.Core.List.{append_assoc}
use drey.Codec.Writer
use drey.Codec.Le.{to_le_bytes, from_le_bytes, from_le_bytes-to_le_bytes}
use drey.Codec.Crc.{crc32}
use drey.Codec.Decodes.{all_of}
use drey.Persist.Wal.{RawFrame, frame_of, scan_from}

-- The bytes of a frame, as `write_frame` makes them, and of a row of frames.
abbrev pub frame_bytes : List ℕ → List ℕ
frame_bytes p = Writer.u32 (length p) ++ (Writer.u32 (crc32 p) ++ p)

abbrev pub frames_bytes : List (List ℕ) → List ℕ
frames_bytes [] = []
frames_bytes (p ∷ ps) = frame_bytes p ++ frames_bytes ps

-- A payload that the length prefix can carry and that is not empty.
abbrev pub frameable : List ℕ → Bool
frameable p = ltb 0 (length p) && ltb (length p) (2 ^ 32)

-- The frame of a payload that starts at `pos`, and a row of them.
abbrev pub whole : ℕ → List ℕ → RawFrame
whole pos p = record { payload = p; stop = pos + (8 + length p); crc_ok = true }

abbrev pub frames_at : ℕ → List (List ℕ) → List RawFrame
frames_at pos [] = []
frames_at pos (p ∷ ps) = whole pos p ∷ frames_at (pos + (8 + length p)) ps

pub crc32-lt : (xs : List ℕ) → crc32 xs < 256 ^ 4
unfolding crc32
crc32-lt xs = omega arith

-- The scan of the frames ends: once the fuel is at least the number of bytes, which is the fuel
-- that `scan` gives, more fuel changes nothing.
pub scan_from_fuel :
    (f g pos : ℕ) (rest : List ℕ)
    → length rest ≤ f
    → length rest ≤ g
    → scan_from f pos rest ≡ scan_from g pos rest
unfolding scan_from
scan_from_fuel zero zero pos rest h k = refl
scan_from_fuel zero (suc g) pos rest h k = ground arith
scan_from_fuel (suc f) zero pos rest h k = ground arith
scan_from_fuel (suc f) (suc g) pos rest h k =
    let n = from_le_bytes (take 4 rest) in
    let next = drop n (drop 8 rest) in
    ground (
      arith,
      length-drop n (drop 8 rest),
      length-drop 8 rest,
      scan_from_fuel f g (pos + (8 + n)) next,
    )

frame_of-whole :
    (pos : ℕ) (p : List ℕ)
    → frameable p ≡ true
    → frame_of p (crc32 p) (pos + (8 + length p)) ≡ whole pos p
unfolding frame_of
frame_of-whole pos p h = ground arith

frame_bytes-append :
    (p rest : List ℕ)
    → frame_bytes p ++ rest ≡ Writer.u32 (length p) ++ (Writer.u32 (crc32 p) ++ (p ++ rest))
unfolding Writer.u32 to_le_bytes
frame_bytes-append p rest = refl

pub length-frame_bytes : (p : List ℕ) → length (frame_bytes p) ≡ 8 + length p
unfolding Writer.u32 to_le_bytes
length-frame_bytes p = omega arith

-- One round where the eight bytes of a header stand.
pub scan_header :
    (f pos n crc : ℕ) (body : List ℕ)
    → n < 256 ^ 4
    → crc < 256 ^ 4
    → scan_from (suc f) pos (Writer.u32 n ++ (Writer.u32 crc ++ body)) ≡ (
        if ltb (length body) n
        then []
        else frame_of (take n body) crc (pos + (8 + n)) ∷ scan_from f (pos + (8 + n)) (drop n body))
unfolding scan_from frame_of Writer.u32 to_le_bytes from_le_bytes
scan_header f pos n crc body h k =
    let e = from_le_bytes-to_le_bytes 4 n h in
    let e' = from_le_bytes-to_le_bytes 4 crc k in rw (e, e') ground arith

scan_frame :
    (f pos : ℕ) (p rest : List ℕ)
    → frameable p ≡ true
    → scan_from (suc f) pos (frame_bytes p ++ rest)
      ≡ whole pos p ∷ scan_from f (pos + (8 + length p)) rest
scan_frame f pos p rest h =
    let long : length (p ++ rest) ≡ length p + length rest = length-append p rest in
    let fits : length p < 256 ^ 4 = ground arith in
    let round = scan_header f pos (length p) (crc32 p) (p ++ rest) fits (crc32-lt p) in
    rw
      (
        frame_bytes-append p rest,
        round,
        take_append p rest,
        drop_append p rest,
        frame_of-whole pos p h,
      )
      (ground (arith, long))

scan_from_zero : (pos : ℕ) (rest : List ℕ) → scan_from 0 pos rest ≡ []
unfolding scan_from
scan_from_zero pos rest = refl

scan_short : (f pos : ℕ) (rest : List ℕ) → length rest < 8 → scan_from f pos rest ≡ []
unfolding scan_from
scan_short zero pos rest h = refl
scan_short (suc f) pos rest h = ground arith

frames_bytes-too_long :
    (p : List ℕ) (ps : List (List ℕ)) (rest : List ℕ)
    → ¬ (length (frames_bytes (p ∷ ps) ++ rest) ≤ 0)
frames_bytes-too_long p ps rest k = omega (
  arith,
  length-append (frame_bytes p ++ frames_bytes ps) rest,
  length-append (frame_bytes p) (frames_bytes ps),
  length-frame_bytes p,
)

pub scan_frames :
    (f pos : ℕ) (ps : List (List ℕ)) (rest : List ℕ)
    → all_of frameable ps ≡ true
    → length (frames_bytes ps ++ rest) ≤ f
    → scan_from f pos (frames_bytes ps ++ rest)
      ≡ frames_at pos ps ++ scan_from (length rest) (pos + length (frames_bytes ps)) rest
scan_frames f pos [] rest h k =
    ap (λ n. scan_from f n rest) (omega arith)
    ∙ scan_from_fuel f (length rest) (pos + 0) rest k (omega arith)
scan_frames zero pos (p ∷ ps) rest h k = absurd (frames_bytes-too_long p ps rest k)
scan_frames (suc f) pos (p ∷ ps) rest h k =
    let later = frames_bytes ps ++ rest in
    let long = length-append (frame_bytes p) later in
    let assoc = append_assoc (frame_bytes p) (frames_bytes ps) rest in
    let room : length later ≤ f = omega (arith, ap length assoc, long, length-frame_bytes p) in
    let here = scan_frame f pos p later (ground arith) in
    let rest_of = scan_frames f (pos + (8 + length p)) ps rest (ground arith) room in
    let sum : pos + (8 + length p) + length (frames_bytes ps)
        ≡ pos + length (frame_bytes p ++ frames_bytes ps) =
      omega (arith, length-append (frame_bytes p) (frames_bytes ps), length-frame_bytes p) in
    rw (assoc, here, rest_of, sum) refl

take-frame_bytes :
    (k : ℕ) (p : List ℕ)
    → 8 ≤ k
    → take k (frame_bytes p) ≡ Writer.u32 (length p) ++ (Writer.u32 (crc32 p) ++ take (k - 8) p)
unfolding Writer.u32 to_le_bytes
take-frame_bytes k p h =
    let e : k ≡ suc (suc (suc (suc (suc (suc (suc (suc (k - 8)))))))) = omega arith in
    ap (λ n. take n (frame_bytes p)) e

-- Less than a frame is no frame.
scan_torn :
    (f pos k : ℕ) (p : List ℕ)
    → frameable p ≡ true
    → k < 8 + length p
    → scan_from f pos (take k (frame_bytes p)) ≡ []
scan_torn zero pos k p h l = scan_from_zero pos (take k (frame_bytes p))
scan_torn (suc f) pos k p h l = elim (Bool-cases (ltb k 8)) [
  | inl short ↦
      let few = length-take k (frame_bytes p) in
      scan_short (suc f) pos (take k (frame_bytes p)) (ground (arith, short, few))
  | inr long ↦
      let whole_header = take-frame_bytes k p (ground (arith, long)) in
      let fits : length p < 256 ^ 4 = ground arith in
      let body = take (k - 8) p in
      let cut : length body < length p = ground (arith, length-take (k - 8) p, long) in
      let round = scan_header f pos (length p) (crc32 p) body fits (crc32-lt p) in
      rw (whole_header, round) ground (arith, cut)
]

-- Those of a row of frames that lie within the first `k` bytes.
abbrev pub whole_frames : ℕ → List (List ℕ) → List (List ℕ)
whole_frames k [] = []
whole_frames k (p ∷ ps) =
    let rest = whole_frames (k - (8 + length p)) ps in if ltb k (8 + length p) then [] else p ∷ rest

pub scan_torn_frames :
    (f pos k : ℕ) (ps : List (List ℕ))
    → all_of frameable ps ≡ true
    → length (take k (frames_bytes ps)) ≤ f
    → scan_from f pos (take k (frames_bytes ps)) ≡ frames_at pos (whole_frames k ps)
scan_torn_frames f pos k [] h l =
    scan_short f pos (take k []) (omega (arith, ap length (take_nil {A = ℕ} k)))
scan_torn_frames f pos k (p ∷ ps) h l = elim (Bool-cases (ltb k (8 + length p))) [
  | inl short ↦
      let len = length-frame_bytes p in
      let cut = take-append_left k (frame_bytes p) (frames_bytes ps) (ground (arith, len, short)) in
      rw (cut, short) (scan_torn f pos k p (ground arith) (ground (arith, short)))
  | inr long ↦
      let len = length-frame_bytes p in
      let k' = k - (8 + length p) in
      let cut =
        take-append_right k k' (frame_bytes p) (frames_bytes ps) (ground (arith, len, long)) in
      let later = take k' (frames_bytes ps) in
      let room : length (frame_bytes p ++ later) ≤ f = omega (arith, ap length cut, l) in
      let room' : suc (length later) ≤ f =
        omega (arith, length-append (frame_bytes p) later, len) in
      let e : f ≡ suc (f - 1) = omega (arith, room') in
      let rest =
        scan_torn_frames (f - 1) (pos + (8 + length p)) k' ps (ground arith)
          (omega (arith, room')) in
      rw (cut, long, e, scan_frame (f - 1) pos p later (ground arith), rest) refl
]
