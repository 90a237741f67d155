-- ===== src/Persist/Wal/Recovery.antt =====
-- What `replay_wal` of drey/src/persist/mod.rs recovers from a log whose last write was torn.
use drey.Prelude.{
  ℕ, suc, ◌+◌, ◌^◌, ◌<◌, ◌≡◌, refl, sym, ap, ◌∙◌, true, false, List, [], ◌∷◌, ◌++◌, ltb, leb,
  length, take, arith, take-append_right,
}
use mathlib.Core.List.{append_assoc}
use mathlib.Core.Path.{ap₂}
use drey.Error.{Result, ok, follow}
use drey.Float.{Arith32}
use drey.Config.{GraphConfig}
use drey.Mutation.{Mutation}
use drey.Store.{Store}
use drey.Graph.{Graph}
use drey.Graph.Calls.{Steps}
use drey.Persist.Agreement.{apply_all-Steps}
use drey.Codec.Decodes.{all_of}
use drey.Persist.Format.{wal_header_len}
use drey.Persist.Replay.{start, apply_all}
use drey.Persist.Wal.{
  WalReplay, RawFrame, is_commit_marker, classify, acknowledged, valid_through, apply_frames,
  conclude, replay_frames, replay_wal,
}
use drey.Persist.Wal.Scan.{whole, frames_at, frames_bytes, frameable, whole_frames}
use drey.Persist.Wal.Classify.{is_intact, is_unmarked, classify-torn, classify-unmarked}
use drey.Persist.Wal.Logged.{
  marker, batch_payloads, log_payloads, all_mutations, loggable, log_payloads-frameable,
  apply_frames-log,
}
use drey.Persist.Wal.TornLog.{
  length-frames_bytes_last, all_of-append, frames_at-append, frames_at-intact, torn_batch-unmarked,
  log_payloads-last, torn_log, scan-torn_log,
}
use drey.Persist.Wal.Header.{replay_wal-wal_header}

abbrev pub committed_bytes : List (List Mutation) → ℕ
committed_bytes bs = wal_header_len + length (frames_bytes (log_payloads bs))

log_frameable :
    (bs : List (List Mutation))
    → all_of (all_of loggable) bs ≡ true
    → all_of frameable (log_payloads bs) ≡ true
log_frameable [] h = refl
log_frameable (b ∷ bs) h = log_payloads-frameable b bs (ground arith) (ground arith)

module _ (f : Arith32) (config : GraphConfig) where
  -- What phases 2 and 3 make of the frames of a torn log.
  abbrev concluded : ℕ → ℕ → List RawFrame → Store → Store × Result WalReplay
  concluded epoch total frames s =
      follow (s, classify total frames)
        (λ through s.
          conclude (apply_frames f config (acknowledged frames through) (start s))
            (record { epoch = epoch; valid_len = valid_through through; stale = false }))

  concluded-marked :
      (epoch total : ℕ) (fs : List RawFrame) (m : RawFrame) (gs : List RawFrame) (s : Store)
      → all_of is_intact (fs ++ m ∷ gs) ≡ true
      → is_commit_marker m ≡ true
      → all_of is_unmarked gs ≡ true
      → concluded epoch total (fs ++ m ∷ gs) s
        ≡ conclude
            (apply_frames f config (fs ++ m ∷ []) (start s))
            (record { epoch = epoch; valid_len = m.stop; stale = false })
  concluded-marked epoch total fs m gs s h k l =
      let through = take-append_right (suc (length fs)) 1 fs (m ∷ gs) (omega arith) in
      rw (classify-torn total fs m gs h k l, through) refl

  concluded-log :
      (epoch total : ℕ) (bs : List (List Mutation)) (gs : List RawFrame) (s : Store)
      → all_of (all_of loggable) bs ≡ true
      → all_of is_intact gs ≡ true
      → all_of is_unmarked gs ≡ true
      → concluded epoch total (frames_at wal_header_len (log_payloads bs) ++ gs) s
        ≡ conclude
            (apply_all f config (all_mutations bs) (start s))
            (record { epoch = epoch; valid_len = committed_bytes bs; stale = false })
  unfolding apply_frames apply_all
  concluded-log epoch total [] gs s h k l = rw (classify-unmarked total gs k l) refl
  concluded-log epoch total (b ∷ bs) gs s h k l =
      let (ps, e) = log_payloads-last b bs in
      let pos = wal_header_len + length (frames_bytes ps) in
      let fs = frames_at wal_header_len ps in
      let split : frames_at wal_header_len (log_payloads (b ∷ bs)) ≡ fs ++ whole pos marker ∷ [] =
        ap (frames_at wal_header_len) e ∙ frames_at-append wal_header_len ps (marker ∷ []) in
      let intact =
        all_of-append is_intact fs (whole pos marker ∷ gs) (frames_at-intact wal_header_len ps) k in
      let run =
        ap (λ xs. concluded epoch total (xs ++ gs) s) split
        ∙ ap (λ xs. concluded epoch total xs s) (append_assoc fs (whole pos marker ∷ []) gs)
        ∙ concluded-marked epoch total fs (whole pos marker) gs s intact refl l in
      let applied =
        ap (λ xs. apply_frames f config xs (start s)) (sym split)
        ∙ apply_frames-log f config wal_header_len b bs (start s) (ground arith) (ground arith) in
      let size : pos + 9 ≡ committed_bytes (b ∷ bs) =
        omega (arith, ap (λ xs. length (frames_bytes xs)) e, length-frames_bytes_last ps) in
      run
      ∙ ap₂ (λ x n. conclude x (record { epoch = epoch; valid_len = n; stale = false })) applied
          size

  -- For a log of committed batches, each the records of mutations and a marker, and behind them
  -- any part, short of the whole, of a further batch, with every record in the ranges of the Rust
  -- types and of the length prefix, `replay_wal` at the epoch of the log does what applying the
  -- mutations of the committed batches in order does, on success reports the committed bytes as
  -- the valid length, and applies nothing of the torn batch.
  pub replay_wal-torn_log :
      (epoch : ℕ) (bs : List (List Mutation)) (b : List Mutation) (k : ℕ) (s : Store)
      → epoch < 256 ^ 8
      → all_of (all_of loggable) bs ≡ true
      → all_of loggable b ≡ true
      → k < length (frames_bytes (batch_payloads b))
      → replay_wal f config (torn_log epoch bs b k) epoch s
        ≡ conclude
            (apply_all f config (all_mutations bs) (start s))
            (record { epoch = epoch; valid_len = committed_bytes bs; stale = false })
  unfolding replay_frames
  replay_wal-torn_log epoch bs b k s fits h l cut =
      let rest = frames_bytes (log_payloads bs) ++ take k (frames_bytes (batch_payloads b)) in
      let gs = frames_at (committed_bytes bs) (whole_frames k (batch_payloads b)) in
      let same : ltb epoch epoch ≡ false = ground arith in
      let same' : leb epoch epoch ≡ true = ground arith in
      let scanned = scan-torn_log epoch bs b k fits (log_frameable bs h) l in
      let total = length (torn_log epoch bs b k) in
      replay_wal-wal_header f config epoch fits rest epoch s
      ∙ rw (same, same') (ap (λ frames. concluded epoch total frames s) scanned)
      ∙ concluded-log epoch total bs gs s h
          (frames_at-intact (committed_bytes bs) (whole_frames k (batch_payloads b)))
          (torn_batch-unmarked (committed_bytes bs) k b cut)

-- Crash recovery. A log holds the committed batches of the mutations of a run of successful calls
-- other than `decay_edges`, and behind them any part, short of the whole, of the next batch, whose
-- write was torn; every record is in the ranges of the Rust types and of the length prefix. On the
-- store where the run began, at the epoch of the log, `replay_wal` succeeds, leaves exactly the
-- store that the run left, and reports the committed bytes as the valid length and the log as not
-- stale.
pub replay_wal-Steps :
    (f : Arith32) (epoch : ℕ) (bs : List (List Mutation)) (b : List Mutation) (k : ℕ) {g g' : Graph}
    → Steps f (all_mutations bs) g g'
    → epoch < 256 ^ 8
    → all_of (all_of loggable) bs ≡ true
    → all_of loggable b ≡ true
    → k < length (frames_bytes (batch_payloads b))
    → replay_wal f g.config (torn_log epoch bs b k) epoch g.store
      ≡ (g'.store, ok (record { epoch = epoch; valid_len = committed_bytes bs; stale = false }))
replay_wal-Steps f epoch bs b k {g} {g'} steps fits h l cut =
    let (r, ran, same) = apply_all-Steps steps in
    let recovered : WalReplay = record {
      epoch = epoch;
      valid_len = committed_bytes bs;
      stale = false;
    } in
    replay_wal-torn_log f g.config epoch bs b k g.store fits h l cut
    ∙ ap (λ x. conclude x recovered) ran
    ∙ ap (λ s. (s, ok recovered)) same
