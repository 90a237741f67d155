-- ===== src/Persist/Committed.antt =====
-- What `commit` promises: it never claims durability that it does not have, and loses no record.
use drey.Prelude.{
  ℕ, ◌≡◌, refl, Bool, true, false, not, Option, none, some, List, [], ◌∷◌, ◌++◌, arith,
}
use drey.Error.{
  Error, Result, ok, err, panic, returns, guard, and_then, lift, ok_or, follow, ◌>>=◌, storage,
}
use drey.Persist.Log.{WalPersistence, preflight}
use drey.Persist.Commit.{write_frame, batch, grown, settle, flush, commit}

-- The outcomes of a commit. A refusal, for one of three reasons, comes before the file operations and
-- changes nothing; only where these have returned a value are records forgotten, and where they fail
-- the backend is poisoned and keeps its records.
pub data Committed (durable : ℕ → ℕ → List ℕ → Result (Unit {0})) (p : WalPersistence)
    : WalPersistence × Result (Unit {0}) → Type 0 where
  poisoned_before : p.poisoned ≡ true → Committed durable p (p, err storage)
  unframed :
      (e : Error) → p.poisoned ≡ false → batch p.pending ≡ err e → Committed durable p (p, err e)
  overflowed :
      (frames : List ℕ)
      → p.poisoned ≡ false
      → batch p.pending ≡ ok frames
      → grown p.wal_len frames ≡ none
      → Committed durable p (p, err storage)
  idle : p.poisoned ≡ false → p.pending ≡ [] → Committed durable p (p, ok tt)
  flushed :
      (frames : List ℕ) (next_len : ℕ)
      → p.poisoned ≡ false
      → batch p.pending ≡ ok frames
      → grown p.wal_len frames ≡ some next_len
      → durable p.epoch next_len frames ≡ ok tt
      → Committed durable p (record p { pending = []; wal_len = next_len }, ok tt)
  failed :
      (e : Error) (frames : List ℕ) (next_len : ℕ)
      → p.poisoned ≡ false
      → batch p.pending ≡ ok frames
      → grown p.wal_len frames ≡ some next_len
      → durable p.epoch next_len frames ≡ err e
      → Committed durable p (record p { poisoned = true }, err e)

write_frame-returns : (xs : List ℕ) → returns (write_frame xs) ≡ true
unfolding write_frame
write_frame-returns xs = ground arith

batch-returns : (xs : List (List ℕ)) → returns (batch xs) ≡ true
unfolding batch
batch-returns [] = write_frame-returns _
batch-returns (x ∷ xs) = go (write_frame x) (batch xs) (write_frame-returns x) (batch-returns xs)
  where
    go :
        (a b : Result (List ℕ))
        → returns a ≡ true
        → returns b ≡ true
        → returns (and_then a (λ frame. and_then b (λ frames. ok (frame ++ frames)))) ≡ true
    go (ok x) (ok y) h k = refl
    go (ok x) (err e) h k = refl
    go (err e) b h k = refl
    go panic b h k = absurd (ground arith)
    go (ok x) panic h k = absurd (ground arith)

module _ (durable : ℕ → ℕ → List ℕ → Result (Unit {0}))
    (returning : (epoch len : ℕ) (frames : List ℕ) → returns (durable epoch len frames) ≡ true)
    (p : WalPersistence) (healthy : p.poisoned ≡ false) where
  settled :
      (frames : List ℕ) (next_len : ℕ) (r : Result (Unit {0}))
      → batch p.pending ≡ ok frames
      → grown p.wal_len frames ≡ some next_len
      → durable p.epoch next_len frames ≡ r
      → returns r ≡ true
      → Committed durable p (settle r next_len p)
  unfolding settle
  settled frames next_len (ok u) b g d h = flushed frames next_len healthy b g d
  settled frames next_len (err e) b g d h = failed e frames next_len healthy b g d
  settled frames next_len panic b g d h = absurd (ground arith)

  grown_or_refused :
      (frames : List ℕ) (o : Option ℕ)
      → batch p.pending ≡ ok frames
      → grown p.wal_len frames ≡ o
      → Committed durable p
          ((ok_or o storage >>= λ next_len. settle (durable p.epoch next_len frames) next_len) p)
  grown_or_refused frames none b g = overflowed frames healthy b g
  grown_or_refused frames (some n) b g =
      settled frames n (durable p.epoch n frames) b g refl (returning p.epoch n frames)

  batch_or_refused :
      (r : Result (List ℕ))
      → batch p.pending ≡ r
      → returns r ≡ true
      → Committed durable p (
          (lift r >>= λ frames. ok_or (grown p.wal_len frames) storage >>= λ next_len.
          settle (durable p.epoch next_len frames) next_len)
            p)
  batch_or_refused (ok frames) b h = grown_or_refused frames (grown p.wal_len frames) b refl
  batch_or_refused (err e) b h = unframed e healthy b
  batch_or_refused panic b h = absurd (ground arith)

  flush_lem : (xs : List (List ℕ)) → p.pending ≡ xs → Committed durable p (flush durable xs p)
  unfolding flush
  flush_lem [] e = idle healthy e
  flush_lem (x ∷ xs) e = batch_or_refused (batch (x ∷ xs)) (rw e refl) (batch-returns (x ∷ xs))

-- Where the file operations return, with success or an error, `commit` does not panic, and it has
-- one of six outcomes. A poisoned backend, a record too long for a frame and a length that would
-- overflow are refused with their errors before any file operation, and change nothing. An empty
-- buffer of a healthy backend is a success that changes nothing. Where the file operations on the
-- frames of all pending records and the marker succeed, the buffer is emptied, the length grown
-- and success returned. Where they fail, their error is returned, and the backend is poisoned with
-- its records kept.
pub commit_lem :
    (durable : ℕ → ℕ → List ℕ → Result (Unit {0}))
    → ((epoch len : ℕ) (frames : List ℕ) → returns (durable epoch len frames) ≡ true)
    → (p : WalPersistence) → Committed durable p (commit durable p)
unfolding commit preflight
commit_lem durable returning p = go p.poisoned refl
  where
    go :
        (b : Bool)
        → p.poisoned ≡ b
        → Committed durable p (follow (p, guard (not b) storage) (λ _. flush durable p.pending))
    go true e = poisoned_before e
    go false e = flush_lem durable returning p e p.pending refl
