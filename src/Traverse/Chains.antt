-- ===== src/Traverse/Chains.antt =====
-- The ways back that `bfs_path` of drey/src/traverse.rs records, and the loop of `reconstruct` on
-- them.
use drey.Prelude.{
  ℕ, zero, suc, ◌<◌, ◌≡◌, refl, sym, ap, ◌∙◌, Bool, true, false, none, some, List, [], ◌∷◌, ◌++◌,
  ◌==◌, ==_refl, ==_iff, length, arith,
}
use mathlib.Core.List.{append_assoc}
use mathlib.Core.Path.{ap₂}
use drey.Prelude.Membership.{contains}
use drey.Error.{ok}
use drey.Ord.{nat_ord, nat_lawful}
use drey.Map.{get, insert}
use drey.Map.Laws.{get-insert, get_of_eq}
use drey.Traverse.Dfs.{bottom_up}
use drey.Traverse.Walks.{Walk, begin, extend}
use drey.Traverse.Search.{Prev, walk_back}

-- A new key leaves the others as they are.
get-insert-present :
    (prev : Prev) (x z : ℕ) (v : ℕ × ℕ) {w : ℕ × ℕ}
    → get prev z ≡ some w
    → get prev x ≡ none
    → get (insert prev x v) z ≡ some w
get-insert-present prev x z v here absent =
    ground (arith, get-insert prev x z v, get_of_eq prev x z, here, absent)

module _ (good : ℕ → ℕ → ℕ → Bool) (start : ℕ) where
  -- The way back from a node, as `prev` has it: the nodes behind it and the edges, the last first.
  pub data Chain (prev : Prev) : ℕ → List ℕ → List ℕ → Type 0 where
    root : Chain prev start [] []
    link :
        (y p e : ℕ) (ns es : List ℕ)
        → get prev y ≡ some (p, e)
        → (y == start) ≡ false
        → good p e y ≡ true
        → Chain prev p ns es
        → Chain prev y (p ∷ ns) (e ∷ es)

  pub Chain-Walk :
      (prev : Prev) (y : ℕ) (ns es : List ℕ) → Chain prev y ns es → Walk good start (y ∷ ns) es
  Chain-Walk prev y ns es root = begin
  Chain-Walk prev y ns es (link z p e ns' es' g a h c) =
      extend p e z ns' es' (Chain-Walk prev p ns' es' c) h

  pub Chain-insert :
      (prev : Prev) (x : ℕ) (v : ℕ × ℕ) (y : ℕ) (ns es : List ℕ)
      → get prev x ≡ none
      → Chain prev y ns es
      → Chain (insert prev x v) y ns es
  Chain-insert prev x v y ns es absent root = root
  Chain-insert prev x v y ns es absent (link z p e ns' es' g a h c) =
      link z p e ns' es' (get-insert-present prev x z v g absent) a h
        (Chain-insert prev x v p ns' es' absent c)

  pub walk_back-Chain :
      (fuel : ℕ) (prev : Prev) (y : ℕ) (ns es acc eacc : List ℕ)
      → Chain prev y ns es
      → length es < fuel
      → walk_back fuel start prev y (y ∷ acc) eacc
        ≡ ok (bottom_up (y ∷ ns) ++ acc, bottom_up es ++ eacc)
  unfolding walk_back bottom_up
  walk_back-Chain zero prev y ns es acc eacc c h = absurd (omega arith)
  walk_back-Chain (suc fuel) prev y ns es acc eacc root h = rw (==_refl start) refl
  walk_back-Chain (suc fuel) prev y ns es acc eacc (link z p e ns' es' g a k c) h =
      rw (a, g)
        (walk_back-Chain fuel prev p ns' es' (y ∷ acc) (e ∷ eacc) c (omega arith)
          ∙ ap₂ (λ xs zs. ok (xs, zs)) (sym (append_assoc (bottom_up (p ∷ ns')) (y ∷ []) acc))
              (sym (append_assoc (bottom_up es') (e ∷ []) eacc)))

pub length-insert :
    (prev : Prev) (x : ℕ) (v : ℕ × ℕ)
    → get prev x ≡ none
    → length (insert prev x v) ≡ suc (length prev)
unfolding insert get
length-insert [] x v h = refl
length-insert ((y, w) ∷ prev) x v h = ground (arith, length-insert prev x v)

pub contains_of_eq : (xs : List ℕ) (x y : ℕ) → (x == y) ≡ true → contains xs x ≡ contains xs y
contains_of_eq xs x y h = ap (contains xs) ((==_iff x y).0 h)
