-- ===== src/Index/Lookups.antt =====
-- What a lookup in the property index of drey/src/store.rs gives after `index_node_properties` and after
-- `unindex_node_properties`.
use drey.Prelude.{
  ℕ, ◌≡◌, refl, ◌∙◌, true, false, Option, none, some, List, [], ◌∷◌, ◌++◌, arith, ==_refl,
  Bool-cases, Option-cases, inl, inr,
}
use drey.Prelude.Membership.{contains, retain_ne, contains-append, contains-retain_ne}
use drey.Ord.{Text, text_ord, text_lawful, nat_ord, pair_ord, ◌=?◌, =?_iff, =?_refl}
use drey.Map.{Map, get, get_or, insert, remove, contains_key}
use drey.Map.Laws.{get-insert, get-remove}
use drey.Mutation.Patches.{latest}
use drey.Types.{Scalar, Value, Properties, as_scalar, scalar_key}
use drey.Index.{
  PropIndex, Indexed, push_to, remove_from_vec, index_value, unindex_value, index_node_properties,
  unindex_node_properties,
}
use drey.Index.Scalars.{flip-total_order, total_order_refl, key_lawful}

-- The ids that the index gives for a value.
abbrev pub ids_at : PropIndex → ℕ → Text → Scalar → List ℕ
ids_at index type_id key v = get_or (get_or index (type_id, key) []) v []

-- The index gives a node for each indexed property that has a scalar value.
abbrev pub Finds : Indexed → Text → Properties → PropIndex → ℕ → ℕ → Type 0
Finds indexed label p index type_id node =
    (k : Text) (value : Value) (v : Scalar)
    → contains_key indexed (label, k) ≡ true
    → latest p k ≡ some value
    → as_scalar value ≡ some v
    → contains (ids_at index type_id k v) node ≡ true

-- It does not give the node for the old value of an indexed key that the new properties lack.
abbrev pub Forgets : Indexed → Text → Properties → Properties → PropIndex → ℕ → ℕ → Type 0
Forgets indexed label old new index type_id node =
    (k : Text) (value : Value) (v : Scalar)
    → contains_key indexed (label, k) ≡ true
    → latest old k ≡ some value
    → latest new k ≡ none
    → as_scalar value ≡ some v
    → contains (ids_at index type_id k v) node ≡ false

get-insert_same :
    (tree : Map Scalar (List ℕ)) (k : Scalar) (ids : List ℕ) → get (insert tree k ids) k ≡ some ids
unfolding insert get
get-insert_same [] k ids = ground (arith, total_order_refl k)
get-insert_same ((j, old) ∷ tree) k ids =
    ground (arith, get-insert_same tree k ids, total_order_refl k, flip-total_order k j)

get-remove_same : (tree : Map Scalar (List ℕ)) (k : Scalar) → get (remove tree k) k ≡ none
unfolding remove get
get-remove_same [] k = refl
get-remove_same ((j, old) ∷ tree) k = ground (arith, get-remove_same tree k)

contains-push_to :
    (tree : Map Scalar (List ℕ)) (k : Scalar) (node : ℕ)
    → contains (get_or (push_to tree k node) k []) node ≡ true
unfolding push_to contains
contains-push_to tree k node = ground (
  arith,
  get-insert_same tree k (get_or tree k [] ++ node ∷ []),
  contains-append (get_or tree k []) (node ∷ []) node,
  ==_refl node,
)

contains-remove_from_vec :
    (tree : Map Scalar (List ℕ)) (k : Scalar) (node : ℕ)
    → contains (get_or (remove_from_vec tree k node) k []) node ≡ false
unfolding remove_from_vec contains
contains-remove_from_vec tree k node = elim (Option-cases (get tree k)) [
  | inl nothing ↦ ground arith
  | inr (ids, e) ↦ ground (
    arith,
    get-insert_same tree k (retain_ne node ids),
    get-remove_same tree k,
    contains-retain_ne node ids node,
    ==_refl node,
  )
]

same_key :
    (t : ℕ) (j k : Text)
    → (j =? k) ≡ false
    → let x : ℕ × Text = (t, j) in let y : ℕ × Text = (t, k) in (x =? y) ≡ false
same_key t j k h = ground (arith, h)

-- A value under another key.
get-index_value :
    (index : PropIndex) (t : ℕ) (j k : Text) (o : Option Scalar) (node : ℕ)
    → (j =? k) ≡ false
    → get (index_value t j node o index) (t, k) ≡ get index (t, k)
unfolding index_value
get-index_value index t j k none node h = refl
get-index_value index t j k (some w) node h =
    let x : ℕ × Text = (t, j) in
    let y : ℕ × Text = (t, k) in
    rw (get-insert index x y (push_to (get_or index x []) w node)) (rw (same_key t j k h) refl)

get-unindex_value :
    (index : PropIndex) (t : ℕ) (j k : Text) (o : Option Scalar) (node : ℕ)
    → (j =? k) ≡ false
    → get (unindex_value t j node o index) (t, k) ≡ get index (t, k)
unfolding unindex_value
get-unindex_value index t j k none node h = refl
get-unindex_value index t j k (some w) node h =
    let x : ℕ × Text = (t, j) in
    let y : ℕ × Text = (t, k) in
    elim (Option-cases (get index x)) [
      | inl nothing ↦ rw (unindex_value, nothing) refl
      | inr (tree, e) ↦ ground (
        arith,
        e,
        same_key t j k h,
        get-insert index x y (remove_from_vec tree w node),
        get-remove index x y,
      )
    ]

-- The value itself.
ids-index_value :
    (index : PropIndex) (t : ℕ) (k : Text) (v : Scalar) (node : ℕ)
    → contains (ids_at (index_value t k node (some v) index) t k v) node ≡ true
unfolding index_value
ids-index_value index t k v node =
    let x : ℕ × Text = (t, k) in
    rw (get-insert index x x (push_to (get_or index x []) v node))
      (rw (=?_refl x) (contains-push_to (get_or index x []) v node))

ids-unindex_value :
    (index : PropIndex) (t : ℕ) (k : Text) (v : Scalar) (node : ℕ)
    → contains (ids_at (unindex_value t k node (some v) index) t k v) node ≡ false
unfolding unindex_value contains get
ids-unindex_value index t k v node =
    let x : ℕ × Text = (t, k) in
    elim (Option-cases (get index x)) [
      | inl nothing ↦ rw (unindex_value, nothing, nothing) (unfold get contains in refl)
      | inr (tree, e) ↦ ground (
        arith,
        e,
        =?_refl x,
        get-insert index x x (remove_from_vec tree v node),
        get-remove index x x,
        contains-remove_from_vec tree v node,
      )
    ]

module _ (indexed : Indexed) (t : ℕ) (label : Text) (node : ℕ) where
  -- Properties without a key leave what the index has under the key.
  get-index_node_properties :
      (p : Properties) (index : PropIndex) (k : Text)
      → latest p k ≡ none
      → get (index_node_properties indexed t label node p index) (t, k) ≡ get index (t, k)
  unfolding index_node_properties latest
  get-index_node_properties [] index k l = refl
  get-index_node_properties ((j, w) ∷ p) index k l =
      let later : latest p k ≡ none = ground (arith, l) in
      let other : (j =? k) ≡ false = ground (arith, l) in
      get-index_node_properties p _ k later ∙ elim (Bool-cases (contains_key indexed (label, j))) [
        | inl is ↦ rw is (get-index_value index t j k (as_scalar w) node other)
        | inr isnt ↦ rw isnt refl
      ]

  get-unindex_node_properties :
      (p : Properties) (index : PropIndex) (k : Text)
      → latest p k ≡ none
      → get (unindex_node_properties indexed t label node p index) (t, k) ≡ get index (t, k)
  unfolding unindex_node_properties latest
  get-unindex_node_properties [] index k l = refl
  get-unindex_node_properties ((j, w) ∷ p) index k l =
      let later : latest p k ≡ none = ground (arith, l) in
      let other : (j =? k) ≡ false = ground (arith, l) in
      get-unindex_node_properties p _ k later
      ∙ elim (Bool-cases (contains_key indexed (label, j))) [
        | inl is ↦ rw is (get-unindex_value index t j k (as_scalar w) node other)
        | inr isnt ↦ rw isnt refl
      ]

  -- Each indexed property with a scalar value is found under the value.
  pub ids-index_node_properties :
      (p : Properties) (index : PropIndex) (k : Text) (value : Value) (v : Scalar)
      → contains_key indexed (label, k) ≡ true
      → latest p k ≡ some value
      → as_scalar value ≡ some v
      → contains (ids_at (index_node_properties indexed t label node p index) t k v) node ≡ true
  unfolding index_node_properties latest
  ids-index_node_properties [] index k value v is l s = absurd (ground arith)
  ids-index_node_properties ((j, w) ∷ p) index k value v is l s = elim (Option-cases (latest p k)) [
    | inl last ↦ elim (Bool-cases (j =? k)) [
      | inl same ↦
          let here : w ≡ value = ground (arith, l, last, same) in
          rw (get-index_node_properties p _ k last)
            (rw ((=?_iff j k).0 same) (rw is (rw here (rw s (ids-index_value index t k v node)))))
      | inr other ↦ absurd (ground (arith, l, last, other))
    ]
    | inr (b, later) ↦ ids-index_node_properties p _ k value v is (ground (arith, l, later)) s
  ]

  -- And afterwards not found any more.
  pub ids-unindex_node_properties :
      (p : Properties) (index : PropIndex) (k : Text) (value : Value) (v : Scalar)
      → contains_key indexed (label, k) ≡ true
      → latest p k ≡ some value
      → as_scalar value ≡ some v
      → contains (ids_at (unindex_node_properties indexed t label node p index) t k v) node ≡ false
  unfolding unindex_node_properties latest
  ids-unindex_node_properties [] index k value v is l s = absurd (ground arith)
  ids-unindex_node_properties ((j, w) ∷ p) index k value v is l s =
      elim (Option-cases (latest p k)) [
        | inl last ↦ elim (Bool-cases (j =? k)) [
          | inl same ↦
              let here : w ≡ value = ground (arith, l, last, same) in
              rw (get-unindex_node_properties p _ k last) (
                rw ((=?_iff j k).0 same)
                  (rw is (rw here (rw s (ids-unindex_value index t k v node)))))
          | inr other ↦ absurd (ground (arith, l, last, other))
        ]
        | inr (b, later) ↦ ids-unindex_node_properties p _ k value v is (ground (arith, l, later)) s
      ]

  -- What the index gives under a key that only the old properties have, once a node is indexed anew.
  pub ids-reindexed :
      (old new : Properties) (index : PropIndex) (k : Text) (value : Value) (v : Scalar)
      → contains_key indexed (label, k) ≡ true
      → latest old k ≡ some value
      → latest new k ≡ none
      → as_scalar value ≡ some v
      → contains
          (ids_at
            (index_node_properties indexed t label node new
              (unindex_node_properties indexed t label node old index))
            t
            k
            v)
          node
        ≡ false
  ids-reindexed old new index k value v is l gone s =
      rw
        (get-index_node_properties new (unindex_node_properties indexed t label node old index) k
          gone)
        (ids-unindex_node_properties old index k value v is l s)
