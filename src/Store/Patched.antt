-- ===== src/Store/Patched.antt =====
-- `update_node_properties` and `update_edge_properties` of drey/src/store.rs: the patched properties key
-- by key, and the property index behind them.
use drey.Prelude.{ℕ, ◌≡◌, refl, sym, true, Option, none, some, [], ◌∷◌, arith, length, leb}
use mathlib.Core.Path.{subst}
use drey.Error.{ok, returns}
use drey.Atomic.{Atomic, done, Atomic-lift, Atomic-ok_or, Atomic-unwrap, Atomic-bind}
use drey.Ord.{Text, nat_ord, nat_lawful, text_ord}
use drey.Map.{get, insert}
use drey.Index.{index_node_properties, unindex_node_properties}
use drey.Index.Lookups.{Finds, Forgets, ids-index_node_properties, ids-reindexed}
use drey.Mutation.Patches.{latest, overridden, get-apply_patch, valid_of_patch, short_of_patch}
use drey.Types.{Properties, Value, is_valid, u32_max}
use drey.Mutation.{PropertyPatch, apply_patch}
use drey.Records.{NodeRecord, EdgeRecord}
use drey.Interner
use drey.Store.{Store, validate_key, validate_properties, validate_patch}
use drey.Store.Nodes.{reindex_node, put_properties, update_node_properties}
use drey.Store.Consistent.{IsConsistent}
use drey.Store.NodeLaws.{put_properties-NodesAgree, put_properties-EdgesAgree, IsConsistent-rest}
use drey.Interner.{Interner}
use drey.Store.Edges.{put_edge_record, update_edge_properties}
use drey.Store.NodeMethods.{validate_properties-returns, some_of_is_some}
use drey.Store.EdgeMethods.{put_edge_record_lem}

validate_patch-returns : (p : PropertyPatch) → returns (validate_patch p) ≡ true
unfolding validate_patch validate_key
validate_patch-returns [] = refl
validate_patch-returns ((k, none) ∷ p) = ground (arith, validate_patch-returns p)
validate_patch-returns ((k, some v) ∷ p) = ground (arith, validate_patch-returns p)

-- What `update_node_properties` gives: the patched map, checked as a whole.
pub record PropertiesPatched (node : ℕ) (patch : PropertyPatch) (s s' : Store) : Type 0 where
  pub consistent : IsConsistent s'
  pub rec : NodeRecord
  pub was : get s.nodes node ≡ some rec
  -- The new properties, key by key.
  pub new : Properties
  pub patched : (k : Text) → get new k ≡ overridden (latest patch k) (get rec.properties k)
  pub checked : validate_properties new ≡ ok tt
  pub nodes : s'.nodes ≡ insert s.nodes node (record rec { properties = new })
  pub edges_kept : s'.edges ≡ s.edges
  -- The property index follows.
  pub label : Text
  pub named : Interner.label s.node_types rec.node_type ≡ some label
  pub finds : Finds s.indexed label new s'.prop_index rec.node_type node
  pub forgets : Forgets s.indexed label rec.properties new s'.prop_index rec.node_type node

-- The store with the node indexed anew.
unfoldable reindexed : ℕ → ℕ → Text → Properties → Properties → Store → Store
reindexed node t label old new s = record s {
  prop_index =
      index_node_properties s.indexed t label node new
        (unindex_node_properties s.indexed t label node old s.prop_index);
}

reindex_node_lem :
    (node : ℕ) (old new : Properties) (rec : NodeRecord) (label : Text) (s : Store)
    → get s.nodes node ≡ some rec
    → Interner.label s.node_types rec.node_type ≡ some label
    → Atomic s
        (λ s' _. s' ≡ reindexed node rec.node_type label old new s)
        (reindex_node node old new s)
unfolding reindex_node reindexed
reindex_node_lem node old new rec label s was named =
    Atomic-unwrap _ (get s.nodes node) rec _ was
      (Atomic-unwrap _ (Interner.label s.node_types rec.node_type) label _ named (done _ tt refl))

-- What the writes of `update_node_properties` give.
patched_lem :
    (node : ℕ) (patch : PropertyPatch) (rec : NodeRecord) (label : Text) (s : Store)
    → IsConsistent s
    → get s.nodes node ≡ some rec
    → Interner.label s.node_types rec.node_type ≡ some label
    → validate_properties (apply_patch rec.properties patch) ≡ ok tt
    → PropertiesPatched node patch s (
        put_properties node rec
          (apply_patch rec.properties patch)
          (reindexed node rec.node_type label rec.properties (apply_patch rec.properties patch) s))
unfolding reindexed
patched_lem node patch rec label s c was named checked =
    let new = apply_patch rec.properties patch in
    let t = reindexed node rec.node_type label rec.properties new s in
    let d = IsConsistent-rest s t c in
    record {
      consistent = record {
        nodes_agree = put_properties-NodesAgree t node rec was new d.nodes_agree;
        edges_agree = put_properties-EdgesAgree t node rec was new d.edges_agree;
      };
      rec = rec;
      was = was;
      new = new;
      patched = get-apply_patch rec.properties patch;
      checked = checked;
      nodes = unfold put_properties in refl;
      edges_kept = unfold put_properties in refl;
      label = label;
      named = named;
      finds =
          unfold put_properties in
          ids-index_node_properties s.indexed rec.node_type label node new (
            unindex_node_properties s.indexed rec.node_type label node rec.properties s.prop_index);
      forgets =
          unfold put_properties in
          ids-reindexed s.indexed rec.node_type label node rec.properties new s.prop_index;
    }

pub update_node_properties_lem :
    (node : ℕ) (patch : PropertyPatch) (s : Store)
    → IsConsistent s
    → Atomic s (λ s' _. PropertiesPatched node patch s s') (update_node_properties node patch s)
unfolding update_node_properties
update_node_properties_lem node patch s c = Atomic-ok_or _ (get s.nodes node) _ _ λ rec was.
    let new = apply_patch rec.properties patch in
    let (label, named) = some_of_is_some _ (c.nodes_agree.labelled node rec was) in
    Atomic-lift _ (validate_properties new) _ (validate_properties-returns new) λ u checked.
      Atomic-bind _ (reindex_node node rec.properties new) _
        (reindex_node_lem node rec.properties new rec label s was named)
        λ s' u same. (
          put_properties node rec new s',
          tt,
          refl,
          subst (λ (x : Store). PropertiesPatched node patch s (put_properties node rec new x))
              (sym same) (patched_lem node patch rec label s c was named checked),
        )

-- What `update_edge_properties` gives: only valid values are set, and the properties of the edge, and
-- nothing else, are what the patch makes of them, key by key.
pub record EdgePatched (edge : ℕ) (patch : PropertyPatch) (s s' : Store) : Type 0 where
  pub consistent : IsConsistent s'
  pub old : EdgeRecord
  pub was : get s.edges edge ≡ some old
  pub short :
      (k : Text) (v : Option Value) → latest patch k ≡ some v → leb (length k) u32_max ≡ true
  pub valid : (k : Text) (v : Value) → latest patch k ≡ some (some v) → is_valid v ≡ true
  pub new : Properties
  pub patched : (k : Text) → get new k ≡ overridden (latest patch k) (get old.properties k)
  pub result : s' ≡ record s { edges = insert s.edges edge (record old { properties = new }) }

pub update_edge_properties_lem :
    (edge : ℕ) (patch : PropertyPatch) (s : Store)
    → IsConsistent s
    → Atomic s (λ s' _. EdgePatched edge patch s s') (update_edge_properties edge patch s)
unfolding update_edge_properties
update_edge_properties_lem edge patch s c =
    Atomic-lift _ (validate_patch patch) _ (validate_patch-returns patch) λ u checked.
      Atomic-ok_or _ (get s.edges edge) _ _ λ old was.
        let new = apply_patch old.properties patch in
        let rec : EdgeRecord = record old { properties = new } in
        done (put_edge_record edge rec s) tt (record {
          consistent =
              put_edge_record_lem edge old rec s c was refl refl refl
                (c.edges_agree.finite edge old was);
          old = old;
          was = was;
          short = λ k v l. short_of_patch patch k v checked l;
          valid = λ k v l. valid_of_patch patch k v checked l;
          new = new;
          patched = get-apply_patch old.properties patch;
          result = unfold put_edge_record in refl;
        })
