-- ===== src/Mutation.antt =====
-- drey/src/mutation.rs, and `Mutation` of drey/src/graph.rs: what a call changes, as values.
pub mod Patches
use drey.Prelude.{ℕ, Bool, true, false, Option, none, some, List, [], ◌∷◌, if◌then◌else◌}
use drey.Ord.{Text, text_ord}
use drey.Float.{Arith32, is_finite32, le32, max32, min32}
use drey.Map.{Map, insert, remove}
use drey.Types.{Value, Properties}

-- `PropertyPatch`: `some v` sets a key, `none` removes it.
abbrev pub PropertyPatch : Type 0
PropertyPatch = Map Text (Option Value)

pub data WeightOp : Type 0 where
  set add multiply : ℕ → WeightOp

pub record WeightUpdate : Type 0 where
  pub op : WeightOp
  pub bounds : Option (ℕ × ℕ)

-- `WeightUpdate::multiply`.
abbrev pub multiply_by : ℕ → WeightUpdate
multiply_by v = record { op = WeightOp.multiply v; bounds = none }

-- The result of the operation, before the bounds.
unfoldable pub raw_weight : Arith32 → WeightOp → ℕ → ℕ
raw_weight f (WeightOp.set v) current = v
raw_weight f (WeightOp.add v) current = f.add current v
raw_weight f (WeightOp.multiply v) current = f.mul current v

-- Malformed bounds leave the number as it is.
unfoldable pub clamp : Option (ℕ × ℕ) → ℕ → ℕ
unfolding le32 max32 min32
clamp none raw = raw
clamp (some (lo, hi)) raw = if le32 lo hi then min32 (max32 raw lo) hi else raw

-- `WeightUpdate::apply`: a result that is not finite is not clamped.
unfoldable pub apply_update : Arith32 → WeightUpdate → ℕ → ℕ
unfolding raw_weight clamp is_finite32
apply_update f u current =
    let raw = raw_weight f u.op current in if is_finite32 raw then clamp u.bounds raw else raw

-- `WeightUpdate::bounds_valid`.
unfoldable pub bounds_valid : WeightUpdate → Bool
unfolding le32
bounds_valid u = elim u.bounds [ none ↦ true | some (lo, hi) ↦ le32 lo hi ]

pub data RemoveNodeMode : Type 0 where
  reject_if_edges_exist remove_incident_edges : RemoveNodeMode

-- `mode == RemoveNodeMode::RemoveIncidentEdges`.
abbrev pub removes_incident : RemoveNodeMode → Bool
removes_incident reject_if_edges_exist = false
removes_incident remove_incident_edges = true

pub record EdgeFilter : Type 0 where
  pub edge_types : List Text
  pub min_weight : Option ℕ

-- `Mutation`: the replayable unit.
pub data Mutation : Type 0 where
  clear_node_embedding : ℕ → Mutation
  register_node_type : Text → Option ℕ → Mutation
  add_node : ℕ → Text → Properties → Mutation
  set_node_embedding : ℕ → List ℕ → Mutation
  update_node_properties : ℕ → PropertyPatch → Mutation
  remove_node : ℕ → RemoveNodeMode → Mutation
  add_edge : ℕ → ℕ → ℕ → Text → ℕ → Properties → Mutation
  set_edge_weight : ℕ → ℕ → Mutation
  update_edge_properties : ℕ → PropertyPatch → Mutation
  remove_edge : ℕ → Mutation
  decay_edges : EdgeFilter → ℕ → Mutation

-- `apply_patch` of drey/src/store.rs: one entry, and the loop over the patch.
unfoldable pub apply_entry : Properties → Text → Option Value → Properties
apply_entry p k none = remove p k
apply_entry p k (some v) = insert p k v

unfoldable pub apply_patch : Properties → PropertyPatch → Properties
unfolding apply_entry
apply_patch p [] = p
apply_patch p ((k, v) ∷ patch) = apply_patch (apply_entry p k v) patch
