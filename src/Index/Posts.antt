-- ===== src/Index/Posts.antt =====
-- What the property index of drey/src/store.rs finds after `index_node_properties`.
use drey.Prelude.{
  ℕ, ◌≡◌, ap, ◌∙◌, Bool, true, false, ◌&&◌, ◌||◌, Option, none, some, List, [], ◌∷◌, ◌++◌,
  Ordering-cases, arith, ==_refl, Bool-cases, Option-cases, inl, inr,
}
use drey.Prelude.Membership.{contains, contains-append}
use drey.Ord.{Text, text_ord, text_lawful, nat_ord, pair_ord, ◌=?◌, =?_iff, =?_refl}
use drey.Map.{Map, get, get_or, insert, contains_key}
use drey.Map.Laws.{get-insert}
use drey.Mutation.Patches.{latest}
use drey.Types.{Scalar, Value, Properties, as_scalar, scalar_key, total_order}
use drey.Index.{PropIndex, Indexed, push_to, index_value, index_node_properties}
use drey.Index.Scalars.{flip-total_order, total_order_refl, key_lawful}

abbrev Tree : Type 0
Tree = Map Scalar (List ℕ)

-- The node stands in a tree under a scalar that equals this one.
abbrev pub posted : Map Scalar (List ℕ) → Scalar → ℕ → Bool
posted [] v node = false
posted ((j, ids) ∷ tree) v node = (j =? v) && contains ids node || posted tree v node

-- `prop_index`: the node stands under the pair of its type and the key.
abbrev pub found : PropIndex → ℕ → Text → Scalar → ℕ → Bool
found index type_id key v node = posted (get_or index (type_id, key) []) v node

same_scalar : (a b : Scalar) → (a =? b) ≡ (b =? a)
same_scalar a b = ground (arith, flip-total_order a b)

-- The tree with some list at a scalar that keeps what stood there.
posted-insert :
    (tree : Tree) (k v : Scalar) (ids : List ℕ) (node : ℕ)
    → ((w : ℕ) → contains (get_or tree k []) w ≡ true → contains ids w ≡ true)
    → posted tree v node ≡ true
    → posted (insert tree k ids) v node ≡ true
unfolding insert get
posted-insert [] k v ids node more h = absurd (ground arith)
posted-insert ((j, old) ∷ tree) k v ids node more h = elim (Ordering-cases (total_order k j)) [
  | inl lt ↦ rw (posted, insert, lt) (ground (arith, h))
  | inr (inl e) ↦ rw (posted, insert, e) (ground (arith, h, more node, flip-total_order k j))
  | inr (inr gt) ↦
      rw (posted, insert, gt)
        (ground (
          arith,
          h,
          posted-insert tree k v ids node (λ w i. more w (ground (arith, i, flip-total_order k j))),
        ))
]

posted-here :
    (tree : Tree) (k : Scalar) (ids : List ℕ) (node : ℕ)
    → contains ids node ≡ true
    → posted (insert tree k ids) k node ≡ true
unfolding insert
posted-here [] k ids node h = ground (arith, total_order_refl k)
posted-here ((j, old) ∷ tree) k ids node h = elim (Ordering-cases (total_order k j)) [
  | inl lt ↦ rw (posted, insert, lt) (ground (arith, h, total_order_refl k))
  | inr (inl e) ↦ rw (posted, insert, e) (ground (arith, h, flip-total_order k j))
  | inr (inr gt) ↦ rw (posted, insert, gt) (ground (arith, posted-here tree k ids node h))
]

posted-push_to :
    (tree : Tree) (k v : Scalar) (new node : ℕ)
    → posted tree v node ≡ true
    → posted (push_to tree k new) v node ≡ true
unfolding push_to
posted-push_to tree k v new node =
    posted-insert tree k v (get_or tree k [] ++ new ∷ []) node
      (λ w i. ground (arith, i, contains-append (get_or tree k []) (new ∷ []) w))

posted-pushed : (tree : Tree) (k : Scalar) (node : ℕ) → posted (push_to tree k node) k node ≡ true
unfolding push_to contains
posted-pushed tree k node =
    posted-here tree k (get_or tree k [] ++ node ∷ []) node
      (ground (arith, contains-append (get_or tree k []) (node ∷ []) node, ==_refl node))

-- One value: what stood in the index stands there, and the node under the value.
found-index_value :
    (index : PropIndex) (t u : ℕ) (j k : Text) (o : Option Scalar) (v : Scalar) (new node : ℕ)
    → found index u k v node ≡ true
    → found (index_value t j new o index) u k v node ≡ true
unfolding index_value
found-index_value index t u j k none v new node h = h
found-index_value index t u j k (some w) v new node h =
    let x : ℕ × Text = (t, j) in
    let y : ℕ × Text = (u, k) in
    let tree = push_to (get_or index x []) w new in
    elim (Bool-cases (x =? y)) [
      | inl same ↦
          let at : posted (get_or index x []) v node ≡ true =
            ap (λ z. posted (get_or index z []) v node) ((=?_iff x y).0 same) ∙ h in
          rw (get-insert index x y tree)
            (rw same (posted-push_to (get_or index x []) w v new node at))
      | inr other ↦ rw (get-insert index x y tree) (rw other h)
    ]

found-indexed :
    (index : PropIndex) (t : ℕ) (k : Text) (v : Scalar) (node : ℕ)
    → found (index_value t k node (some v) index) t k v node ≡ true
unfolding index_value
found-indexed index t k v node =
    let x : ℕ × Text = (t, k) in
    let tree = push_to (get_or index x []) v node in
    rw (get-insert index x x tree) (rw (=?_refl x) (posted-pushed (get_or index x []) v node))

module _ (indexed : Indexed) (t : ℕ) (label : Text) (new : ℕ) where
  -- Indexing a node takes nothing out of the index.
  pub found-index_node_properties :
      (p : Properties) (index : PropIndex) (u : ℕ) (k : Text) (v : Scalar) (node : ℕ)
      → found index u k v node ≡ true
      → found (index_node_properties indexed t label new p index) u k v node ≡ true
  unfolding index_node_properties
  found-index_node_properties [] index u k v node h = h
  found-index_node_properties ((j, value) ∷ p) index u k v node h =
      found-index_node_properties p _ u k v node
        (elim (Bool-cases (contains_key indexed (label, j))) [
          | inl is ↦ rw is (found-index_value index t u j k (as_scalar value) v new node h)
          | inr isnt ↦ rw isnt h
        ])

  -- Each indexed property of the node, which has a scalar value, is found.
  pub found-posted :
      (p : Properties) (index : PropIndex) (k : Text) (value : Value) (v : Scalar)
      → contains_key indexed (label, k) ≡ true
      → latest p k ≡ some value
      → as_scalar value ≡ some v
      → found (index_node_properties indexed t label new p index) t k v new ≡ true
  unfolding index_node_properties latest
  found-posted [] index k value v is l s = absurd (ground arith)
  found-posted ((j, w) ∷ p) index k value v is l s = elim (Option-cases (latest p k)) [
    | inl last ↦ elim (Bool-cases (j =? k)) [
      | inl same ↦
          let e = (=?_iff j k).0 same in
          let here : w ≡ value = ground (arith, l, last, same) in
          found-index_node_properties p _ t k v new
            (rw e (rw is (rw here (rw s (found-indexed index t k v new)))))
      | inr other ↦ absurd (ground (arith, l, last, other))
    ]
    | inr (b, later) ↦ found-posted p _ k value v is (ground (arith, l, later)) s
  ]
