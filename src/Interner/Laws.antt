-- ===== src/Interner/Laws.antt =====
-- An interner is a bijection between its labels and the ids below their number.
use drey.Prelude.{
  ℕ, ◌+◌, ◌%◌, ◌^◌, ◌<◌, ◌≡◌, true, none, some, [], ◌∷◌, ◌++◌, arith, length, get_elem?-append_left,
  get_elem?-append_length, get_elem?-lt, length-append, ltb, sym, ◌∙◌, if◌then◌else◌, inl, inr,
  is_some, Option-cases, Bool-cases,
}
use drey.Ord.{Text, text_ord, text_lawful, =?_iff, ◌=?◌}
use drey.Map
use drey.Map.{insert}
use drey.Map.Laws.{get-insert}
use drey.Interner.{Interner, empty, get, label, intern}

-- `get` and `label` are inverse to one another.
pub record IsValid (it : Interner) : Type 0 where
  pub sound : (l : Text) (i : ℕ) → get it l ≡ some i → label it i ≡ some l
  pub complete : (l : Text) (i : ℕ) → label it i ≡ some l → get it l ≡ some i

pub IsValid-empty : IsValid empty
unfolding get label Map.get
IsValid-empty = record {
  sound = λ l i h. absurd (ground arith);
  complete = λ l i h. absurd (ground arith);
}

abbrev pub extend : Interner → Text → Interner
extend it l = record { labels = it.labels ++ l ∷ []; index = insert it.index l (length it.labels) }

label-extend_lt :
    (it : Interner) (l : Text) (i : ℕ) → i < length it.labels → label (extend it l) i ≡ label it i
unfolding label
label-extend_lt it l i h = get_elem?-append_left it.labels (l ∷ []) i h

label-extend_self : (it : Interner) (l : Text) → label (extend it l) (length it.labels) ≡ some l
unfolding label
label-extend_self it l = get_elem?-append_length it.labels l

lt_of_label : (it : Interner) (l : Text) (i : ℕ) → label it i ≡ some l → i < length it.labels
unfolding label
lt_of_label it l i h = get_elem?-lt it.labels i h

lt_of_label-extend :
    (it : Interner) (l j : Text) (i : ℕ) → label (extend it l) i ≡ some j → i < length it.labels + 1
lt_of_label-extend it l j i h =
    omega (arith, lt_of_label (extend it l) j i h, length-append it.labels (l ∷ []))

get-extend :
    (it : Interner) (l j : Text)
    → get (extend it l) j ≡ (if l =? j then some (length it.labels) else get it j)
unfolding get
get-extend it l j = get-insert it.index l j (length it.labels)

module _ (it : Interner) (v : IsValid it) (l : Text) (new : get it l ≡ none) where
  extend_sound : (j : Text) (i : ℕ) → get (extend it l) j ≡ some i → label (extend it l) i ≡ some j
  extend_sound j i h = elim (Bool-cases (l =? j)) [
    | inl same ↦ ground (arith, get-extend it l j, =?_iff l j, label-extend_self it l)
    | inr other ↦
        let old : get it j ≡ some i = ground (arith, get-extend it l j) in
        let at_i : label it i ≡ some j = v.sound j i old in
        label-extend_lt it l i (lt_of_label it j i at_i) ∙ at_i
  ]

  extend_complete :
      (j : Text) (i : ℕ) → label (extend it l) i ≡ some j → get (extend it l) j ≡ some i
  extend_complete j i h = elim (Bool-cases (ltb i (length it.labels))) [
    | inl old ↦
        let at_i : label it i ≡ some j = sym (label-extend_lt it l i (ground arith)) ∙ h in
        ground (arith, get-extend it l j, v.complete j i at_i, =?_iff l j)
    | inr last ↦
        let e : i ≡ length it.labels = ground (arith, lt_of_label-extend it l j i h) in
        let s : label (extend it l) i ≡ some l = rw e (label-extend_self it l) in
        ground (arith, get-extend it l j, =?_iff l j)
  ]

  pub extend-IsValid : IsValid (extend it l)
  extend-IsValid = record { sound = extend_sound; complete = extend_complete }

pub intern_old : (it : Interner) (l : Text) {id : ℕ} → get it l ≡ some id → intern it l ≡ (it, id)
unfolding intern
intern_old it l e = ground arith

pub intern_new :
    (it : Interner) (l : Text)
    → get it l ≡ none
    → length it.labels < 2 ^ 32
    → intern it l ≡ (extend it l, length it.labels)
unfolding intern
intern_new it l e room =
    let n : length it.labels % 2 ^ 32 ≡ length it.labels = omega arith in ground arith

-- What a call of `intern` gives.
pub record Interned (it : Interner) (l : Text) (r : Interner × ℕ) : Type 0 where
  pub valid : IsValid r.0
  pub get_id : get r.0 l ≡ some r.1
  pub label_id : label r.0 r.1 ≡ some l
  pub keeps : (j : Text) (i : ℕ) → get it j ≡ some i → get r.0 j ≡ some i

-- On a valid interner with fewer than 2^32 labels, `intern` keeps the bijection between labels and
-- ids; afterwards the label and the returned id name one another, and every label that had an id
-- has that id still.
pub intern_lem :
    (it : Interner) (l : Text)
    → IsValid it
    → length it.labels < 2 ^ 32
    → Interned it l (intern it l)
intern_lem it l v room = elim (Option-cases (get it l)) [
  | inl new ↦ rw (intern_new it l new room) (record {
    valid = extend-IsValid it v l new;
    get_id = ground (arith, get-extend it l l, =?_iff l l);
    label_id = label-extend_self it l;
    keeps = λ j i h. ground (arith, get-extend it l j, =?_iff l j);
  })
  | inr (id, old) ↦
      rw (intern_old it l old)
        (record { valid = v; get_id = old; label_id = v.sound l id old; keeps = λ j i h. h })
]

-- An id that had a label has one afterwards.
pub label_kept :
    (it : Interner) (l : Text)
    → IsValid it
    → Interned it l (intern it l)
    → (i : ℕ) → is_some (label it i) ≡ true
    → is_some (label (intern it l).0 i) ≡ true
label_kept it l v r i h = elim (Option-cases (label it i)) [
  | inl nothing ↦ absurd (ground arith)
  | inr (j, found) ↦ let e = r.valid.sound j i (r.keeps j i (v.complete j i found)) in ground arith
]
