-- ===== src/Interner.antt =====
-- drey/src/interner.rs: labels and their ids.
pub mod Laws
pub mod Load
use drey.Prelude.{
  ℕ, suc, ◌+◌, ◌%◌, ◌^◌, Bool, true, false, Option, none, some, List, [], ◌∷◌, ◌++◌, length,
  get_elem?, is_some, if◌then◌else◌,
}
use drey.Error.{Result, ok, err, codec, and_then}
use drey.Ord.{Text, text_ord}
use drey.Map
use drey.Map.{Map, insert, contains_key}

pub record Interner : Type 0 where
  pub labels : List Text
  pub index : Map Text ℕ

abbrev pub empty : Interner
empty = record { labels = []; index = [] }

-- `Interner::get`.
unfoldable pub get : Interner → Text → Option ℕ
get it label = Map.get it.index label

-- `Interner::label`.
unfoldable pub label : Interner → ℕ → Option Text
label it id = get_elem? it.labels id

-- The id of the next new label: `self.labels.len() as u32`.
abbrev pub next_id : Interner → ℕ
next_id it = length it.labels % 2 ^ 32

-- `Interner::intern`: the new interner, and the id.
unfoldable pub intern : Interner → Text → Interner × ℕ
unfolding get
intern it l = elim (get it l) [
  | some id ↦ (it, id)
  | none ↦
      (record { labels = it.labels ++ l ∷ []; index = insert it.index l (next_id it) }, next_id it)
]

-- The loop of `from_labels`, from position `i` on.
unfoldable pub fill : ℕ → List Text → Map Text ℕ → Result (Map Text ℕ)
fill i [] index = ok index
fill i (l ∷ ls) index =
    let rest = fill (suc i) ls (insert index l (i % 2 ^ 32)) in
    if contains_key index l then err codec else rest

-- `Interner::from_labels`.
unfoldable pub from_labels : List Text → Result Interner
unfolding fill
from_labels labels =
    and_then (fill 0 labels []) (λ index. ok (record { labels = labels; index = index }))
