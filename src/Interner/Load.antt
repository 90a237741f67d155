-- ===== src/Interner/Load.antt =====
-- `from_labels` restores an interner from its labels, and refuses a repeated label.
use drey.Prelude.{
  ℕ, suc, ◌+◌, ◌%◌, ◌^◌, ◌<◌, ◌≡◌, refl, none, some, List, [], ◌∷◌, ◌++◌, arith, length, get_elem?,
  length-append, get_elem?-append_left, get_elem?-append_length, get_elem?-lt, Option-cases, inl,
  inr, sym, ◌∙◌, ap,
}
use mathlib.Core.List.{append-nil, append_assoc}
use drey.Error.{Result, ok, err, panic, and_then}
use drey.Ord.{Text, text_ord}
use drey.Map
use drey.Map.{Map, insert}
use drey.Interner.{Interner, get, label, fill, from_labels}
use drey.Interner.Laws.{IsValid, IsValid-empty, extend-IsValid}

-- The interner of a prefix of the labels, as the loop has it.
abbrev prefix : List Text → Map Text ℕ → Interner
prefix done index = record { labels = done; index = index }

label_of_labels : (a b : Interner) (i : ℕ) → a.labels ≡ b.labels → label a i ≡ label b i
unfolding label
label_of_labels a b i e = ap (λ ls. get_elem? ls i) e

-- The labels of a valid interner determine its lookups.
get_of_labels :
    (a b : Interner) → IsValid a → IsValid b → a.labels ≡ b.labels → (l : Text) → get a l ≡ get b l
get_of_labels a b v w e l = elim (Option-cases (get b l)) [
  | inl absent ↦ elim (Option-cases (get a l)) [
    | inl nothing ↦ nothing ∙ sym absent
    | inr (i, found) ↦
        absurd (ground (arith, w.complete l i (sym (label_of_labels a b i e) ∙ v.sound l i found)))
  ]
  | inr (i, found) ↦ v.complete l i (label_of_labels a b i e ∙ w.sound l i found) ∙ sym found
]

module _ (it : Interner) (v : IsValid it) (few : length it.labels < 2 ^ 32) where
  -- A label at the next position has not been met.
  fresh :
      (done : List Text) (l : Text) (ls : List Text) (index : Map Text ℕ)
      → it.labels ≡ done ++ l ∷ ls
      → IsValid (prefix done index)
      → Map.get index l ≡ none
  unfolding get label
  fresh done l ls index e w = elim (Option-cases (Map.get index l)) [
    | inl new ↦ new
    | inr (j, old) ↦
        let at_j : get_elem? done j ≡ some l = w.sound l j old in
        let before : j < length done = get_elem?-lt done j at_j in
        let all_j : get_elem? it.labels j ≡ some l =
          rw e (get_elem?-append_left done (l ∷ ls) j before ∙ at_j) in
        let all_n : get_elem? it.labels (length done) ≡ some l =
          rw (e, ← append_assoc done (l ∷ []) ls)
            (get_elem?-append_left (done ++ l ∷ []) ls (length done)
                (omega (arith, length-append done (l ∷ [])))
              ∙ get_elem?-append_length done l) in
        absurd (ground (arith, v.complete l j all_j, v.complete l (length done) all_n))
  ]

  refill :
      (done ls : List Text) (index : Map Text ℕ)
      → it.labels ≡ done ++ ls
      → IsValid (prefix done index)
      → (index' : Map Text ℕ) × (fill (length done) ls index ≡ ok index')
        × IsValid (prefix it.labels index')
  unfolding fill
  refill done [] index e w =
      let e' : it.labels ≡ done = e ∙ append-nil done in (index, refl, rw e' w)
  refill done (l ∷ ls) index e w =
      let new = fresh done l ls index e w in
      let n : length done % 2 ^ 32 ≡ length done =
        omega (arith, ap length e, length-append done (l ∷ ls)) in
      let last : length (done ++ l ∷ []) ≡ suc (length done) =
        omega (arith, length-append done (l ∷ [])) in
      let (index', filled, w') =
        refill (done ++ l ∷ []) ls (insert index l (length done))
          (e ∙ sym (append_assoc done (l ∷ []) ls))
          (extend-IsValid (prefix done index) w l (unfold get in new)) in
      (index', rw (new, n) (rw last at filled), w')

  -- For a valid interner with fewer than 2^32 labels, `from_labels` on its labels succeeds, and
  -- the interner loaded has the same labels and looks every label up as the first did.
  pub from_labels-labels :
      (it' : Interner) × (from_labels it.labels ≡ ok it')
      × (it'.labels ≡ it.labels)
      × ((l : Text) → get it' l ≡ get it l)
  unfolding from_labels
  from_labels-labels =
      let (index', filled, w) = refill [] it.labels [] refl IsValid-empty in
      (
        prefix it.labels index',
        rw filled,
        refl,
        λ l. get_of_labels (prefix it.labels index') it w v refl l,
      )

fill-IsValid :
    (done ls : List Text) (index index' : Map Text ℕ)
    → length done + length ls < 2 ^ 32
    → IsValid (prefix done index)
    → fill (length done) ls index ≡ ok index'
    → IsValid (prefix (done ++ ls) index')
unfolding fill
fill-IsValid done [] index index' few w h =
    let e : index ≡ index' = ground arith in rw (append-nil done) (rw e at w)
fill-IsValid done (l ∷ ls) index index' few w h = elim (Option-cases (Map.get index l)) [
  | inr (j, old) ↦ absurd (ground arith)
  | inl new ↦
      let n : length done % 2 ^ 32 ≡ length done = omega arith in
      let last : length (done ++ l ∷ []) ≡ suc (length done) =
        omega (arith, length-append done (l ∷ [])) in
      rw (append_assoc done (l ∷ []) ls) at (
        fill-IsValid (done ++ l ∷ []) ls (insert index l (length done)) index' (omega arith)
          (extend-IsValid (prefix done index) w l (unfold get in new)) (rw last (rw (new, n) at h)))
]

-- Where `from_labels` accepts a list of fewer than 2^32 labels, the interner is a bijection
-- between labels and ids and has exactly these labels.
pub from_labels-IsValid :
    (labels : List Text) (it : Interner)
    → length labels < 2 ^ 32
    → from_labels labels ≡ ok it
    → IsValid it × (it.labels ≡ labels)
unfolding from_labels
from_labels-IsValid labels it few h = loaded (fill 0 labels []) refl h
  where
    loaded :
        (r : Result (Map Text ℕ))
        → fill 0 labels [] ≡ r
        → and_then r (λ index. ok (record { labels = labels; index = index })) ≡ ok it
        → IsValid it × (it.labels ≡ labels)
    loaded (err e) f h = absurd (ground arith)
    loaded panic f h = absurd (ground arith)
    loaded (ok index) f h =
        let e : prefix labels index ≡ it = ground arith in
        rw (← e) (fill-IsValid [] labels [] index (omega arith) IsValid-empty f, refl)
