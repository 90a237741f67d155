-- ===== src/Index/Distinct.antt =====
-- The lists of an adjacency name no edge twice, after an insertion and after a removal.
use drey.Prelude.{
  ℕ, ◌≡◌, refl, true, false, some, List, [], ◌∷◌, ◌++◌, arith, Option-cases, inl, inr,
}
use drey.Prelude.Membership.{contains, retain_ne, distinct, contains-append, contains-retain_ne}
use drey.Ord.{nat_ord, nat_lawful}
use drey.Map.{get, get_or}
use drey.Map.Laws.{get-insert, get-remove}
use drey.Index.{Buckets, Adjacency, push_to, remove_from_vec, adj_insert, adj_remove}
use drey.Index.Buckets.{holds, listed}

-- No list of the buckets has an id twice.
abbrev pub DistinctBuckets : Buckets → Type 0
DistinctBuckets m = (t : ℕ) → distinct (get_or m t []) ≡ true

distinct-append_one :
    (es : List ℕ) (e : ℕ)
    → distinct es ≡ true
    → contains es e ≡ false
    → distinct (es ++ e ∷ []) ≡ true
unfolding contains
distinct-append_one [] e h k = refl
distinct-append_one (x ∷ es) e h k =
    ground (arith, distinct-append_one es e, contains-append es (e ∷ []) x, h, k)

distinct-retain_ne : (v : ℕ) (es : List ℕ) → distinct es ≡ true → distinct (retain_ne v es) ≡ true
unfolding contains retain_ne
distinct-retain_ne v [] h = refl
distinct-retain_ne v (x ∷ es) h = ground (arith, distinct-retain_ne v es, contains-retain_ne v es x)

distinct-push_to :
    (m : Buckets) (k v : ℕ)
    → DistinctBuckets m
    → holds m k v ≡ false
    → DistinctBuckets (push_to m k v)
unfolding push_to holds
distinct-push_to m k v h new t = ground (
  arith,
  get-insert m k t (get_or m k [] ++ v ∷ []),
  distinct-append_one (get_or m k []) v,
  h k,
  h t,
)

distinct-remove_from_vec :
    (m : Buckets) (k v : ℕ) → DistinctBuckets m → DistinctBuckets (remove_from_vec m k v)
unfolding remove_from_vec
distinct-remove_from_vec m k v h t = elim (Option-cases (get m k)) [
  | inl nothing ↦ ground (arith, h t)
  | inr (ids, e) ↦ ground (
    arith,
    h t,
    h k,
    e,
    get-insert m k t (retain_ne v ids),
    get-remove m k t,
    distinct-retain_ne v ids,
  )
]

pub distinct-adj_insert :
    (adj : Adjacency) (n t e : ℕ)
    → ((k : ℕ) → DistinctBuckets (get_or adj k []))
    → listed adj n t e ≡ false
    → (k : ℕ) → DistinctBuckets (get_or (adj_insert adj n t e) k [])
unfolding adj_insert listed
distinct-adj_insert adj n t e h new k u = ground (
  arith,
  get-insert adj n k (push_to (get_or adj n []) t e),
  h k u,
  distinct-push_to (get_or adj n []) t e (h n) new u,
)

distinct_nil : DistinctBuckets []
unfolding get
distinct_nil t = refl

pub distinct-adj_remove :
    (adj : Adjacency) (n t e : ℕ)
    → ((k : ℕ) → DistinctBuckets (get_or adj k []))
    → (k : ℕ) → DistinctBuckets (get_or (adj_remove adj n t e) k [])
unfolding adj_remove
distinct-adj_remove adj n t e h k u = elim (Option-cases (get adj n)) [
  | inl nothing ↦ ground (arith, h k u)
  | inr (types, found) ↦ ground (
    arith,
    h k u,
    get-insert adj n k (remove_from_vec types t e),
    get-remove adj n k,
    distinct_nil u,
    distinct-remove_from_vec types t e (subst_found types found) u,
  )
]
  where
    subst_found : (types : Buckets) → get adj n ≡ some types → DistinctBuckets types
    subst_found types found v = ground (arith, found, h n v)
