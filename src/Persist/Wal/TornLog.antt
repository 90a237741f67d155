-- ===== src/Persist/Wal/TornLog.antt =====
-- The frames of a log whose last write was torn, as phase 1 of `replay_wal` of
-- drey/src/persist/mod.rs finds them.
use drey.Prelude.{
  ℕ, ◌+◌, ◌-◌, ◌^◌, ◌≤◌, ◌<◌, ◌≡◌, refl, ap, ◌∙◌, Bool, true, List, [], ◌∷◌, ◌++◌, map, ltb, length,
  take, arith, length-append, Bool-cases, inl, inr,
}
use drey.Mutation.{Mutation}
use drey.Codec.Writer
use drey.Codec.Le.{to_le_bytes}
use drey.Codec.Decodes.{all_of}
use drey.Persist.Format.{wal_header_len, wal_header}
use drey.Persist.Log.{payload}
use drey.Persist.Wal.{scan}
use drey.Persist.Wal.Scan.{
  whole, frame_bytes, frames_at, frames_bytes, length-frame_bytes, frameable, whole_frames,
  scan_frames, scan_torn_frames,
}
use drey.Persist.Wal.Classify.{is_intact, is_unmarked}
use drey.Persist.Wal.Logged.{
  marker, batch_payloads, log_payloads, loggable, payload-unmarked, batch_payloads-frameable,
}
use drey.Persist.Wal.Header.{drop-wal_header, length-wal_header}

pub all_of-append {ℓ} :
    {A : Type ℓ} (good : A → Bool) (xs ys : List A)
    → all_of good xs ≡ true
    → all_of good ys ≡ true
    → all_of good (xs ++ ys) ≡ true
all_of-append good [] ys h k = k
all_of-append good (x ∷ xs) ys h k = ground (arith, all_of-append good xs ys)

pub frames_at-append :
    (pos : ℕ) (ps qs : List (List ℕ))
    → frames_at pos (ps ++ qs) ≡ frames_at pos ps ++ frames_at (pos + length (frames_bytes ps)) qs
frames_at-append pos [] qs = ap (λ n. frames_at n qs) (omega arith)
frames_at-append pos (p ∷ ps) qs =
    let e : pos + (8 + length p) + length (frames_bytes ps) ≡ pos + length (frames_bytes (p ∷ ps)) =
      omega (arith, length-append (frame_bytes p) (frames_bytes ps), length-frame_bytes p) in
    ap (◌∷◌ (whole pos p)) (
      frames_at-append (pos + (8 + length p)) ps qs
      ∙ ap (λ n. frames_at (pos + (8 + length p)) ps ++ frames_at n qs) e)

pub frames_at-intact : (pos : ℕ) (ps : List (List ℕ)) → all_of is_intact (frames_at pos ps) ≡ true
frames_at-intact pos [] = refl
frames_at-intact pos (p ∷ ps) = frames_at-intact (pos + (8 + length p)) ps

bytes_of_marker : length (frames_bytes (batch_payloads [])) ≡ 9
unfolding Writer.u32 to_le_bytes
bytes_of_marker = refl

pub length-frames_bytes_last :
    (ps : List (List ℕ)) → length (frames_bytes (ps ++ marker ∷ [])) ≡ length (frames_bytes ps) + 9
length-frames_bytes_last [] = bytes_of_marker
length-frames_bytes_last (p ∷ ps) = omega (
  arith,
  length-frames_bytes_last ps,
  length-append (frame_bytes p) (frames_bytes ps),
  length-append (frame_bytes p) (frames_bytes (ps ++ marker ∷ [])),
)

-- A torn batch holds no marker.
pub torn_batch-unmarked :
    (pos k : ℕ) (b : List Mutation)
    → k < length (frames_bytes (batch_payloads b))
    → all_of is_unmarked (frames_at pos (whole_frames k (batch_payloads b))) ≡ true
torn_batch-unmarked pos k [] h =
    let cut : ltb k 9 ≡ true = ground (arith, bytes_of_marker) in rw cut refl
torn_batch-unmarked pos k (m ∷ b) h =
    let k' = k - (8 + length (payload m)) in
    elim (Bool-cases (ltb k (8 + length (payload m)))) [
      | inl e ↦ rw e refl
      | inr e ↦
          let long = length-append (frame_bytes (payload m)) (frames_bytes (batch_payloads b)) in
          let len = length-frame_bytes (payload m) in
          let less : k' < length (frames_bytes (batch_payloads b)) =
            ground (arith, e, long, len, h) in
          rw (e, payload-unmarked m)
            (torn_batch-unmarked (pos + (8 + length (payload m))) k' b less)
    ]

-- A log that is not empty ends with a marker.
pub log_payloads-last :
    (b : List Mutation) (bs : List (List Mutation))
    → (ps : List (List ℕ)) × (map payload b ++ marker ∷ log_payloads bs ≡ ps ++ marker ∷ [])
log_payloads-last [] [] = ([], refl)
log_payloads-last [] (b ∷ bs) =
    let (ps, e) = log_payloads-last b bs in (marker ∷ ps, ap (◌∷◌ marker) e)
log_payloads-last (m ∷ b) bs =
    let (ps, e) = log_payloads-last b bs in (payload m ∷ ps, ap (◌∷◌ (payload m)) e)

-- The log after a crash: what was committed, and a part of the batch that was being written.
abbrev pub torn_log : ℕ → List (List Mutation) → List Mutation → ℕ → List ℕ
torn_log epoch bs b k =
    wal_header epoch ++ (frames_bytes (log_payloads bs) ++ take k (frames_bytes (batch_payloads b)))

pub scan-torn_log :
    (epoch : ℕ) (bs : List (List Mutation)) (b : List Mutation) (k : ℕ)
    → epoch < 256 ^ 8
    → all_of frameable (log_payloads bs) ≡ true
    → all_of loggable b ≡ true
    → scan (torn_log epoch bs b k)
      ≡ frames_at wal_header_len (log_payloads bs)
        ++ frames_at
            (wal_header_len + length (frames_bytes (log_payloads bs)))
            (whole_frames k (batch_payloads b))
unfolding scan
scan-torn_log epoch bs b k fits h l =
    let written = frames_bytes (log_payloads bs) in
    let part = take k (frames_bytes (batch_payloads b)) in
    let rest = written ++ part in
    let room : length rest ≤ length (wal_header epoch ++ rest) =
      omega (arith, length-wal_header epoch fits rest) in
    let whole_part =
      scan_frames (length (wal_header epoch ++ rest)) wal_header_len (log_payloads bs) part h
        room in
    let torn_part =
      scan_torn_frames (length part) (wal_header_len + length written) k (batch_payloads b)
        (batch_payloads-frameable b l) (omega arith) in
    rw (drop-wal_header epoch fits rest, whole_part, torn_part) refl
