-- ===== src/Persist/Wal/Refused.antt =====
-- Phase 2 of `replay_wal` of drey/src/persist/mod.rs on a damaged frame.
use drey.Prelude.{
  ℕ, suc, ◌+◌, ◌<◌, ◌≡◌, refl, ap, ◌∙◌, Bool, true, false, not, ◌&&◌, ◌||◌, some, List, [], ◌∷◌,
  ◌++◌, ltb, leb, length, arith,
}
use drey.Error.{err, codec}
use drey.Codec.Decodes.{all_of}
use drey.Persist.Wal.{
  RawFrame, is_marker_payload, is_commit_marker, classify, markers_from, marker_at_or_after,
  refuses, any_refused, Indexed,
}
use drey.Persist.Wal.Scan.{frames_at}
use drey.Persist.Wal.Classify.{is_unmarked}

markers_from-skip :
    (i : ℕ) (gs hs : List RawFrame)
    → all_of is_unmarked gs ≡ true
    → markers_from i (gs ++ hs) ≡ markers_from (i + length gs) hs
unfolding markers_from
markers_from-skip i [] hs h = ap (λ n. markers_from n hs) (omega arith)
markers_from-skip i (g ∷ gs) hs h =
    let e : suc i + length gs ≡ i + suc (length gs) = omega arith in
    ground (arith, markers_from-skip (suc i) gs hs, ap (λ n. markers_from n hs) e)

-- The markers before frame `i` do not count.
marker_at_or_after-markers_from :
    (i j : ℕ) (fs gs : List RawFrame)
    → j + length fs ≡ i
    → marker_at_or_after i (markers_from j (fs ++ gs)) ≡ marker_at_or_after i (markers_from i gs)
unfolding markers_from marker_at_or_after
marker_at_or_after-markers_from i j [] gs h =
    ap (λ n. marker_at_or_after i (markers_from n gs)) (omega arith)
marker_at_or_after-markers_from i j (f ∷ fs) gs h =
    ground (arith, marker_at_or_after-markers_from i (suc j) fs gs)

pub and_false : (b : Bool) → (b && false) ≡ false
and_false true = refl
and_false false = refl

or_true : (b : Bool) → (b || true) ≡ true
or_true true = refl
or_true false = refl

any_refused-cons :
    (total : ℕ) (ms : List Indexed) (i : ℕ) (bad : RawFrame) (fs : List RawFrame)
    → bad.crc_ok ≡ false
    → refuses total ms i bad ≡ true
    → any_refused total ms i (bad ∷ fs) ≡ true
unfolding any_refused
any_refused-cons total ms i bad fs h k = simp (h, k) refl

any_refused-append :
    (total : ℕ) (ms : List Indexed) (i : ℕ) (fs gs : List RawFrame)
    → any_refused total ms (i + length fs) gs ≡ true
    → any_refused total ms i (fs ++ gs) ≡ true
unfolding any_refused
any_refused-append total ms i [] gs h = ap (λ n. any_refused total ms n gs) (omega arith) ∙ h
any_refused-append total ms i (f ∷ fs) gs h =
    let e : i + suc (length fs) ≡ suc i + length fs = omega arith in
    let rest = any_refused-append total ms (suc i) fs gs (rw (← e) h) in
    rw rest (or_true (not f.crc_ok && refuses total ms i f))

marker_behind :
    (fs : List RawFrame) (bad : RawFrame) (gs : List RawFrame) (m : RawFrame) (hs : List RawFrame)
    → bad.crc_ok ≡ false
    → all_of is_unmarked gs ≡ true
    → is_commit_marker m ≡ true
    → marker_at_or_after (length fs) (markers_from 0 (fs ++ bad ∷ (gs ++ m ∷ hs)))
      ≡ some (length fs + suc (length gs), m)
unfolding markers_from marker_at_or_after
marker_behind fs bad gs m hs h k l =
    let i = length fs in
    let before = marker_at_or_after-markers_from i 0 fs (bad ∷ (gs ++ m ∷ hs)) (omega arith) in
    let unmarked : all_of is_unmarked (bad ∷ gs) ≡ true = rw h k in
    let skipped = markers_from-skip i (bad ∷ gs) (m ∷ hs) unmarked in
    let later : leb i (i + suc (length gs)) ≡ true = ground arith in
    before ∙ ap (marker_at_or_after i) skipped ∙ rw (l, later) refl

bad-refuses :
    (total : ℕ) (fs : List RawFrame) (bad : RawFrame) (ms : List Indexed) (j : ℕ) (m : RawFrame)
    → bad.stop < total
    → m.stop < total
    → marker_at_or_after (length fs) ms ≡ some (j, m)
    → refuses total ms (length fs) bad ≡ true
unfolding refuses
bad-refuses total fs bad ms j m h k e =
    let below : ltb bad.stop total ≡ true = ground arith in
    let below' : ltb m.stop total ≡ true = ground arith in rw (below, e, below') ground arith

pub frames_at-unmarked :
    (pos : ℕ) (ps : List (List ℕ))
    → all_of (λ q. not (is_marker_payload q)) ps ≡ true
    → all_of is_unmarked (frames_at pos ps) ≡ true
frames_at-unmarked pos [] h = refl
frames_at-unmarked pos (p ∷ ps) h = ground (arith, frames_at-unmarked (pos + (8 + length p)) ps)

-- A damaged frame whose batch has its marker, and bytes behind it.
pub damage-refused :
    (total : ℕ) (fs : List RawFrame) (bad : RawFrame) (gs : List RawFrame) (m : RawFrame)
    (hs : List RawFrame)
    → bad.crc_ok ≡ false
    → bad.stop < total
    → all_of is_unmarked gs ≡ true
    → is_commit_marker m ≡ true
    → m.stop < total
    → classify total (fs ++ bad ∷ (gs ++ m ∷ hs)) ≡ err codec
unfolding classify
damage-refused total fs bad gs m hs h k l n o =
    let frames = fs ++ bad ∷ (gs ++ m ∷ hs) in
    let ms = markers_from 0 frames in
    let behind = marker_behind fs bad gs m hs h l n in
    let found = bad-refuses total fs bad ms (length fs + suc (length gs)) m k o behind in
    let refused = any_refused-append total ms 0 fs (bad ∷ (gs ++ m ∷ hs)) (
      any_refused-cons total ms (0 + length fs) bad (gs ++ m ∷ hs) h
        (ap (λ i. refuses total ms i bad) (omega arith) ∙ found)) in
    rw refused refl
