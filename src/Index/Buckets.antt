-- ===== src/Index/Buckets.antt =====
-- What a bucket holds after an insertion and after a removal.
use drey.Prelude.{
  ℕ, ◌≡◌, refl, Bool, true, false, ◌&&◌, ◌||◌, List, [], ◌∷◌, ◌++◌, arith, ◌==◌, if◌then◌else◌,
  Option-cases, inl, inr,
}
use drey.Prelude.Membership.{contains, retain_ne, contains-append, contains-retain_ne}
use drey.Ord.{nat_ord, nat_lawful}
use drey.Map.{get, get_or}
use drey.Map.Laws.{get-insert, get-remove}
use drey.Index.{
  Buckets, Adjacency, push_to, remove_from_vec, open_bucket, adj_insert, adj_remove, is_empty,
}

-- `value` stands in the bucket of `key`.
unfoldable pub holds : Buckets → ℕ → ℕ → Bool
holds m key value = contains (get_or m key []) value

-- `edge` stands at `node` under `etype`.
unfoldable pub listed : Adjacency → ℕ → ℕ → ℕ → Bool
unfolding holds
listed adj node etype edge = holds (get_or adj node []) etype edge

pub holds-push_to :
    (m : Buckets) (k v j w : ℕ) → holds (push_to m k v) j w ≡ ((k == j && v == w) || holds m j w)
unfolding holds push_to contains
holds-push_to m k v j w =
    ground (
      arith,
      get-insert m k j (get_or m k [] ++ v ∷ []),
      contains-append (get_or m k []) (v ∷ []) w,
    )

pub holds-remove_from_vec :
    (m : Buckets) (k v j w : ℕ)
    → holds (remove_from_vec m k v) j w ≡ (if k == j && v == w then false else holds m j w)
unfolding holds remove_from_vec contains
holds-remove_from_vec m k v j w = elim (Option-cases (get m k)) [
  | inl nothing ↦ ground arith
  | inr (ids, e) ↦
      ground
        (arith, get-insert m k j (retain_ne v ids), get-remove m k j, contains-retain_ne v ids w)
]

pub holds-open_bucket : (m : Buckets) (k j w : ℕ) → holds (open_bucket m k) j w ≡ holds m j w
unfolding holds open_bucket contains
holds-open_bucket m k j w = ground (arith, get-insert {V = List ℕ} m k j [])

holds_nil : (j w : ℕ) → holds [] j w ≡ false
unfolding holds contains get
holds_nil j w = refl

holds_of_empty : (m : Buckets) (j w : ℕ) → is_empty m ≡ true → holds m j w ≡ false
holds_of_empty [] j w h = holds_nil j w
holds_of_empty (e ∷ m) j w h = absurd (ground arith)

pub listed-adj_insert :
    (adj : Adjacency) (n t e node etype edge : ℕ)
    → listed (adj_insert adj n t e) node etype edge
      ≡ ((n == node && (t == etype && e == edge)) || listed adj node etype edge)
unfolding listed adj_insert
listed-adj_insert adj n t e node etype edge = ground (
  arith,
  get-insert adj n node (push_to (get_or adj n []) t e),
  holds-push_to (get_or adj n []) t e etype edge,
)

pub listed-adj_remove :
    (adj : Adjacency) (n t e node etype edge : ℕ)
    → listed (adj_remove adj n t e) node etype edge
      ≡ (if n == node && (t == etype && e == edge) then false else listed adj node etype edge)
unfolding listed adj_remove
listed-adj_remove adj n t e node etype edge = elim (Option-cases (get adj n)) [
  | inl nothing ↦ ground (arith, holds_nil etype edge)
  | inr (types, found) ↦ ground (
    arith,
    get-insert adj n node (remove_from_vec types t e),
    get-remove adj n node,
    holds-remove_from_vec types t e etype edge,
    holds_of_empty (remove_from_vec types t e) etype edge,
    holds_nil etype edge,
  )
]
