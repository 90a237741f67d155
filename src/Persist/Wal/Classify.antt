-- ===== src/Persist/Wal/Classify.antt =====
-- Phase 2 of `replay_wal` on a log without damage: it ends at the last commit marker.
use drey.Prelude.{
  ℕ, zero, suc, ◌+◌, ◌≡◌, refl, ap, ◌∙◌, Bool, true, false, not, Option, none, some, List, [], ◌∷◌,
  ◌++◌, length, take, arith, if◌then◌else◌, Bool-cases, inl, inr,
}
use drey.Error.{ok}
use drey.Codec.Decodes.{all_of}
use drey.Persist.Wal.{
  RawFrame, is_commit_marker, markers_from, last, any_refused, any_damaged, through_marker,
  classify, Indexed, before_last,
}

abbrev pub is_unmarked : RawFrame → Bool
is_unmarked f = not (is_commit_marker f)

abbrev pub is_intact : RawFrame → Bool
is_intact f = f.crc_ok

markers_from-unmarked :
    (i : ℕ) (fs : List RawFrame) → all_of is_unmarked fs ≡ true → markers_from i fs ≡ []
unfolding markers_from
markers_from-unmarked i [] h = refl
markers_from-unmarked i (f ∷ fs) h = ground (arith, markers_from-unmarked (suc i) fs)

last-cons :
    (m : Indexed) (ms : List Indexed) {k : Indexed} → last ms ≡ some k → last (m ∷ ms) ≡ some k
last-cons m [] h = absurd (ground arith)
last-cons m (n ∷ ms) h = h

-- The last marker of a log is the one behind which none stands.
last-markers_from :
    (i : ℕ) (fs : List RawFrame) (m : RawFrame) (gs : List RawFrame)
    → is_commit_marker m ≡ true
    → all_of is_unmarked gs ≡ true
    → last (markers_from i (fs ++ m ∷ gs)) ≡ some (i + length fs, m)
unfolding markers_from
last-markers_from i [] m gs h k =
    let e : i ≡ i + 0 = omega arith in
    rw (h, markers_from-unmarked (suc i) gs k) (ap (λ n. some (n, m)) e)
last-markers_from i (f ∷ fs) m gs h k =
    let e : suc i + length fs ≡ i + suc (length fs) = omega arith in
    let rest = last-markers_from (suc i) fs m gs h k ∙ ap (λ n. some (n, m)) e in
    elim (Bool-cases (is_commit_marker f)) [
      | inl marked ↦ rw marked (last-cons (i, f) (markers_from (suc i) (fs ++ m ∷ gs)) rest)
      | inr unmarked ↦ rw unmarked rest
    ]

any_damaged-intact :
    (n : ℕ) (fs : List RawFrame) → all_of is_intact fs ≡ true → any_damaged (take n fs) ≡ false
any_damaged-intact zero fs h = refl
any_damaged-intact (suc n) [] h = refl
any_damaged-intact (suc n) (f ∷ fs) h = ground (arith, any_damaged-intact n fs)

any_refused-intact :
    (total : ℕ) (ms : List Indexed) (i : ℕ) (fs : List RawFrame)
    → all_of is_intact fs ≡ true
    → any_refused total ms i fs ≡ false
unfolding any_refused
any_refused-intact total ms i [] h = refl
any_refused-intact total ms i (f ∷ fs) h = ground (arith, any_refused-intact total ms (suc i) fs)

through_marker-intact :
    (fs : List RawFrame) (ms : List Indexed)
    → all_of is_intact fs ≡ true
    → through_marker fs ms ≡ last ms
unfolding through_marker
through_marker-intact fs ms h = go (last ms) refl
  where
    go :
        (o : Option Indexed)
        → last ms ≡ o
        → (elim o [
          | none ↦ none
          | some m ↦ if any_damaged (take m.0 fs) then before_last ms else some m
        ])
          ≡ o
    go none e = refl
    go (some m) e = rw (any_damaged-intact m.0 fs h) refl

pub classify-intact :
    (total : ℕ) (fs : List RawFrame)
    → all_of is_intact fs ≡ true
    → classify total fs ≡ ok (last (markers_from 0 fs))
unfolding classify
classify-intact total fs h =
    rw
      (
        any_refused-intact total (markers_from 0 fs) 0 fs h,
        through_marker-intact fs (markers_from 0 fs) h,
      )
      refl

pub classify-torn :
    (total : ℕ) (fs : List RawFrame) (m : RawFrame) (gs : List RawFrame)
    → all_of is_intact (fs ++ m ∷ gs) ≡ true
    → is_commit_marker m ≡ true
    → all_of is_unmarked gs ≡ true
    → classify total (fs ++ m ∷ gs) ≡ ok (some (length fs, m))
classify-torn total fs m gs h k l =
    rw (classify-intact total (fs ++ m ∷ gs) h, last-markers_from 0 fs m gs k l)
      (ap (λ n. ok (some (n, m))) (omega arith))

pub classify-unmarked :
    (total : ℕ) (gs : List RawFrame)
    → all_of is_intact gs ≡ true
    → all_of is_unmarked gs ≡ true
    → classify total gs ≡ ok none
classify-unmarked total gs h k = rw (classify-intact total gs h, markers_from-unmarked 0 gs k) refl
