-- ===== src/Store/PropIndexed.antt =====
-- The property index of a store against the properties of its nodes.
use drey.Prelude.{ℕ, ◌≡◌, true, some}
use drey.Ord.{Text, text_ord, nat_ord, nat_lawful, pair_ord}
use drey.Map.{get, contains_key}
use drey.Types.{Value, Scalar, as_scalar}
use drey.Records.{NodeRecord}
use drey.Interner
use drey.Index.Posts.{found}
use drey.Mutation.Patches.{latest}
use drey.Store.{Store}

-- A node stands in the index under each of its indexed properties.
abbrev pub NodeIndexed : Store → ℕ → NodeRecord → Type 0
NodeIndexed s n r =
    (label k : Text) (value : Value) (v : Scalar)
    → Interner.label s.node_types r.node_type ≡ some label
    → contains_key s.indexed (label, k) ≡ true
    → latest r.properties k ≡ some value
    → as_scalar value ≡ some v
    → found s.prop_index r.node_type k v n ≡ true

abbrev pub PropsIndexed : Store → Type 0
PropsIndexed s = (n : ℕ) (r : NodeRecord) → get s.nodes n ≡ some r → NodeIndexed s n r
