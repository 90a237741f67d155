-- ===== src/Mutation/Patches.antt =====
-- What a `PropertyPatch` of drey/src/mutation.rs does to properties, key by key.
use drey.Prelude.{◌≡◌, refl, true, Option, none, some, [], ◌∷◌, leb, length, arith, if◌then◌else◌}
use drey.Error.{ok}
use drey.Ord.{Text, text_ord, text_lawful, ◌=?◌, =?_iff}
use drey.Map.{Map, get}
use drey.Map.Laws.{get-insert, get-remove}
use drey.Types.{Value, Properties, is_valid, u32_max}
use drey.Mutation.{PropertyPatch, apply_entry, apply_patch}
use drey.Store.{validate_key, validate_patch}

-- The last entry of a key, which in a map is its only one.
unfoldable pub latest {ℓ} : {A : Type ℓ} → Map Text A → Text → Option A
latest [] k = none
latest ((j, a) ∷ m) k = elim (latest m k) [
  | none ↦ if j =? k then some a else none
  | some b ↦ some b
]

-- What a key has where an entry of a patch, or none, meets what it had.
abbrev pub overridden : Option (Option Value) → Option Value → Option Value
overridden none old = old
overridden (some v) old = v

get-apply_entry :
    (p : Properties) (j : Text) (v : Option Value) (k : Text)
    → get (apply_entry p j v) k ≡ (if j =? k then v else get p k)
unfolding apply_entry
get-apply_entry p j none k = get-remove p j k
get-apply_entry p j (some v) k = get-insert p j k v

-- A key that the patch sets has the new value, one that it clears has none, another what it had.
pub get-apply_patch :
    (p : Properties) (patch : PropertyPatch) (k : Text)
    → get (apply_patch p patch) k ≡ overridden (latest patch k) (get p k)
unfolding apply_patch latest
get-apply_patch p [] k = refl
get-apply_patch p ((j, v) ∷ patch) k =
    ground (arith, get-apply_patch (apply_entry p j v) patch k, get-apply_entry p j v k)

-- What the gate on a patch lets through.
pub valid_of_patch :
    (patch : PropertyPatch) (k : Text) (v : Value)
    → validate_patch patch ≡ ok tt
    → latest patch k ≡ some (some v)
    → is_valid v ≡ true
unfolding validate_patch validate_key latest
valid_of_patch [] k v h l = absurd (ground arith)
valid_of_patch ((j, none) ∷ patch) k v h l = ground (arith, valid_of_patch patch k v)
valid_of_patch ((j, some w) ∷ patch) k v h l = ground (arith, valid_of_patch patch k v)

pub short_of_patch :
    (patch : PropertyPatch) (k : Text) (v : Option Value)
    → validate_patch patch ≡ ok tt
    → latest patch k ≡ some v
    → leb (length k) u32_max ≡ true
unfolding validate_patch validate_key latest
short_of_patch [] k v h l = absurd (ground arith)
short_of_patch ((j, none) ∷ patch) k v h l =
    ground (arith, short_of_patch patch k v, (=?_iff j k).0)
short_of_patch ((j, some w) ∷ patch) k v h l =
    ground (arith, short_of_patch patch k v, (=?_iff j k).0)
