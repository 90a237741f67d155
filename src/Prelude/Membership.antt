-- ===== src/Prelude/Membership.antt =====
-- Lists of ids as the indexes hold them: the Boolean membership test, `retain`, and
-- `sort_unstable` with `dedup`, and how they act on membership.
use drey.Prelude.{
  ℕ, ◌≡◌, refl, ◌∙◌, Bool, true, false, ◌&&◌, ◌||◌, List, [], ◌∷◌, ◌++◌, arith, leb, ltb, ◌==◌,
  if◌then◌else◌,
}

-- `v.contains(&a)`.
unfoldable pub contains : List ℕ → ℕ → Bool
contains [] a = false
contains (x ∷ xs) a = x == a || contains xs a

-- `v.retain(|x| *x != value)`.
unfoldable pub retain_ne : ℕ → List ℕ → List ℕ
retain_ne v [] = []
retain_ne v (x ∷ xs) = let rest = retain_ne v xs in if x == v then rest else x ∷ rest

insert_sorted : ℕ → List ℕ → List ℕ
insert_sorted a [] = a ∷ []
insert_sorted a (x ∷ xs) = let rest = insert_sorted a xs in if leb a x then a ∷ x ∷ xs else x ∷ rest

-- `v.sort_unstable()` of numbers, whose result does not depend on the algorithm.
unfoldable pub sort : List ℕ → List ℕ
unfolding insert_sorted
sort [] = []
sort (x ∷ xs) = insert_sorted x (sort xs)

-- `v.dedup()`: of neighbours that are equal the first one stays.
unfoldable pub dedup : List ℕ → List ℕ
dedup [] = []
dedup (x ∷ []) = x ∷ []
dedup (x ∷ y ∷ ys) = let rest = dedup (y ∷ ys) in if x == y then rest else x ∷ rest

pub contains-append :
    (xs ys : List ℕ) (a : ℕ) → contains (xs ++ ys) a ≡ (contains xs a || contains ys a)
unfolding contains
contains-append [] ys a = refl
contains-append (x ∷ xs) ys a = ground (arith, contains-append xs ys a)

pub contains-retain_ne :
    (v : ℕ) (xs : List ℕ) (a : ℕ)
    → contains (retain_ne v xs) a ≡ (if v == a then false else contains xs a)
unfolding contains retain_ne
contains-retain_ne v [] a = ground arith
contains-retain_ne v (x ∷ xs) a = ground (arith, contains-retain_ne v xs a)

contains-insert_sorted :
    (v : ℕ) (xs : List ℕ) (a : ℕ) → contains (insert_sorted v xs) a ≡ (v == a || contains xs a)
unfolding contains insert_sorted
contains-insert_sorted v [] a = ground arith
contains-insert_sorted v (x ∷ xs) a = ground (arith, contains-insert_sorted v xs a)

pub contains-sort : (xs : List ℕ) (a : ℕ) → contains (sort xs) a ≡ contains xs a
unfolding contains sort
contains-sort [] a = refl
contains-sort (x ∷ xs) a = ground (arith, contains-insert_sorted x (sort xs) a, contains-sort xs a)

pub contains-dedup : (xs : List ℕ) (a : ℕ) → contains (dedup xs) a ≡ contains xs a
unfolding contains dedup
contains-dedup [] a = refl
contains-dedup (x ∷ []) a = refl
contains-dedup (x ∷ y ∷ ys) a = ground (arith, contains-dedup (y ∷ ys) a)

-- Every element is at least `lo`, and the list ascends from there.
abbrev pub ascends_from : ℕ → List ℕ → Bool
ascends_from lo [] = true
ascends_from lo (x ∷ xs) = leb lo x && ascends_from x xs

-- No element occurs again behind itself.
abbrev pub distinct : List ℕ → Bool
distinct [] = true
distinct (x ∷ xs) = (if contains xs x then false else true) && distinct xs

ascends-insert_sorted :
    (lo v : ℕ) (xs : List ℕ)
    → ascends_from lo xs ≡ true
    → leb lo v ≡ true
    → ascends_from lo (insert_sorted v xs) ≡ true
unfolding insert_sorted
ascends-insert_sorted lo v [] h k = ground arith
ascends-insert_sorted lo v (x ∷ xs) h k = ground (arith, ascends-insert_sorted x v xs)

ascends-sort : (xs : List ℕ) → ascends_from 0 (sort xs) ≡ true
unfolding sort
ascends-sort [] = refl
ascends-sort (x ∷ xs) = ascends-insert_sorted 0 x (sort xs) (ascends-sort xs) (ground arith)

contains-below :
    (lo : ℕ) (xs : List ℕ) (a : ℕ)
    → ascends_from lo xs ≡ true
    → ltb a lo ≡ true
    → contains xs a ≡ false
unfolding contains
contains-below lo [] a h k = refl
contains-below lo (x ∷ xs) a h k = ground (arith, contains-below x xs a)

distinct-dedup : (lo : ℕ) (xs : List ℕ) → ascends_from lo xs ≡ true → distinct (dedup xs) ≡ true
unfolding contains dedup
distinct-dedup lo [] h = refl
distinct-dedup lo (x ∷ []) h = refl
distinct-dedup lo (x ∷ y ∷ ys) h =
    ground
      (arith, distinct-dedup x (y ∷ ys), contains-dedup (y ∷ ys) x, contains-below y (y ∷ ys) x)

-- Sorted and deduplicated ids are pairwise distinct.
pub distinct-dedup-sort : (xs : List ℕ) → distinct (dedup (sort xs)) ≡ true
distinct-dedup-sort xs = distinct-dedup 0 (sort xs) (ascends-sort xs)

pub contains-dedup-sort : (xs : List ℕ) (a : ℕ) → contains (dedup (sort xs)) a ≡ contains xs a
contains-dedup-sort xs a = contains-dedup (sort xs) a ∙ contains-sort xs a
