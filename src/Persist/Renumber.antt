-- ===== src/Persist/Renumber.antt =====
-- The methods of the store that a replay calls do not look at the allocators: on a store with other
-- next ids they do the same to everything else.
use drey.Prelude.{
  ℕ, ◌≡◌, refl, ap, Bool, true, false, Option, none, some, List, [], ◌∷◌, not, length,
}
use drey.Error.{
  invalid_node_type, codec, invalid_property_value, node_not_found, edge_not_found,
  invalid_edge_type, Error, Exec, Result, ok, err, panic, follow, ◌>>=◌, ◌>>◌, lift, ok_or, unwrap,
  require, raise, pure, gets, modify,
}
use drey.Ord.{Text, nat_ord}
use drey.Map.{get, contains_key}
use drey.Types.{Properties}
use drey.Mutation.{PropertyPatch, apply_patch}
use drey.Interner
use drey.Store.{
  Store, validate_label, validate_properties, validate_weight, validate_patch, all_finite,
  require_registered,
}
use drey.Store.Nodes.{
  intern_node_type, declare, conflicts, register_node_type, put_node, insert_node_checked,
  put_embedding, flatten, set_node_embedding, check_dim, clear_node_embedding, put_properties,
  update_node_properties, reindex_node,
}
use drey.Store.Edges.{
  incident_edges, put_edge, put_edge_record, drop_edge, intern_edge_type, insert_edge_checked,
  set_edge_weight, update_edge_properties, remove_edge, remove_edges, detach, drop_node,
  remove_node,
}

-- The store with other allocators.
abbrev pub renumber : ℕ → ℕ → Store → Store
renumber a b s = record s { next_node_id = a; next_edge_id = b }

abbrev pub renumbered {ℓ} : {A : Type ℓ} → ℕ → ℕ → Store × Result A → Store × Result A
renumbered a b (s, r) = (renumber a b s, r)

-- The method commutes with the renumbering.
pub record Blind {A : Type 0} (m : Exec Store A) : Type 0 where
  pub same : (a b : ℕ) (s : Store) → m (renumber a b s) ≡ renumbered a b (m s)

module _ {A B : Type 0} where
  Blind-bind :
      (m : Exec Store A) (f : A → Exec Store B)
      → Blind m
      → ((x : A) → Blind (f x))
      → Blind (m >>= f)
  Blind-bind m f p q = record { same = λ a b s. rw (p.same a b s) (go a b (m s)) }
    where
      go :
          (a b : ℕ) (r : Store × Result A)
          → follow (renumbered a b r) f ≡ renumbered a b (follow r f)
      go a b (s, ok x) = (q x).same a b s
      go a b (s, err e) = refl
      go a b (s, panic) = refl

-- A method that first takes the whole state.
Blind-self :
    {B : Type 0} (f : Store → Exec Store B)
    → ((s : Store) → Blind (f s))
    → ((a b : ℕ) (s : Store) → f (renumber a b s) ≡ f s)
    → Blind (gets (λ s. s) >>= f)
Blind-self f p e = record { same = λ a b s. rw (e a b s) ((p s).same a b s) }

Blind-seq :
    {B : Type 0} (m : Exec Store (Unit {0})) (k : Exec Store B) → Blind m → Blind k → Blind (m >> k)
Blind-seq m k p q = Blind-bind m (λ _. k) p (λ _. q)

Blind-lift : {A : Type 0} (r : Result A) → Blind (lift r)
Blind-lift r = record { same = λ a b s. refl }

Blind-pure : {A : Type 0} (x : A) → Blind (pure x)
Blind-pure x = record { same = λ a b s. refl }

Blind-raise : {A : Type 0} (e : Error) → Blind (raise {A = A} e)
Blind-raise e = record { same = λ a b s. refl }

Blind-ok_or : {A : Type 0} (o : Option A) (e : Error) → Blind (ok_or o e)
Blind-ok_or none e = record { same = λ a b s. refl }
Blind-ok_or (some x) e = record { same = λ a b s. refl }

Blind-unwrap : {A : Type 0} (o : Option A) → Blind (unwrap o)
Blind-unwrap none = record { same = λ a b s. refl }
Blind-unwrap (some x) = record { same = λ a b s. refl }

Blind-require : (t : Bool) (e : Error) → Blind (require t e)
Blind-require true e = record { same = λ a b s. refl }
Blind-require false e = record { same = λ a b s. refl }

Blind-modify :
    (h : Store → Store)
    → ((a b : ℕ) (s : Store) → h (renumber a b s) ≡ renumber a b (h s))
    → Blind (modify h)
Blind-modify h e = record { same = λ a b s. ap (λ t. (t, ok tt)) (e a b s) }

Blind-gets :
    {A : Type 0} (h : Store → A)
    → ((a b : ℕ) (s : Store) → h (renumber a b s) ≡ h s)
    → Blind (gets h)
Blind-gets h e = record { same = λ a b s. rw (e a b s) refl }

intern_node_type-Blind : (label : Text) → Blind (intern_node_type label)
unfolding intern_node_type
intern_node_type-Blind label = record { same = λ a b s. refl }

intern_edge_type-Blind : (label : Text) → Blind (intern_edge_type label)
unfolding intern_edge_type
intern_edge_type-Blind label = record { same = λ a b s. refl }

pub register_node_type-Blind :
    (label : Text) (dim : Option ℕ) → Blind (register_node_type label dim)
unfolding register_node_type declare
register_node_type-Blind label dim =
    Blind-seq (lift (validate_label label invalid_node_type)) _ (Blind-lift _) (
      Blind-bind (intern_node_type label) _ (intern_node_type-Blind label) λ id.
        Blind-bind (gets (λ s. get s.embedding_dim id)) _ (Blind-gets _ (λ a b s. refl)) λ existing.
          Blind-seq (require (not (conflicts existing dim)) invalid_node_type) _ (Blind-require _ _)
            (Blind-modify (declare id dim) (λ a b s. refl)))

pub insert_node_checked-Blind :
    (id : ℕ) (label : Text) (p : Properties) → Blind (insert_node_checked id label p)
unfolding insert_node_checked put_node require_registered
insert_node_checked-Blind id label p =
    Blind-self _
      (λ s. Blind-bind (lift (require_registered s label)) _ (Blind-lift _) λ t.
        Blind-seq (lift (validate_properties p)) _ (Blind-lift _) (
          Blind-seq (require (not (contains_key s.nodes id)) codec) _ (Blind-require _ _)
            (Blind-modify (put_node id t label p) (λ a b s. refl))))
      (λ a b s. refl)

check_dim-Blind : (d : Option ℕ) (n : ℕ) → Blind (check_dim d n)
unfolding check_dim
check_dim-Blind none n = Blind-raise _
check_dim-Blind (some d) n = Blind-require _ _

pub set_node_embedding-Blind : (node : ℕ) (v : List ℕ) → Blind (set_node_embedding node v)
unfolding set_node_embedding put_embedding
set_node_embedding-Blind node v =
    Blind-self _
      (λ s. Blind-bind (ok_or (get s.nodes node) (node_not_found node)) _ (Blind-ok_or _ _) λ rec.
        Blind-seq (require (all_finite v) invalid_property_value) _ (Blind-require _ _) (
          Blind-seq (check_dim (flatten (get s.embedding_dim rec.node_type)) (length v)) _
            (check_dim-Blind (flatten (get s.embedding_dim rec.node_type)) (length v))
            (Blind-modify (put_embedding node rec (some v)) (λ a b s. refl))))
      (λ a b s. refl)

pub clear_node_embedding-Blind : (node : ℕ) → Blind (clear_node_embedding node)
unfolding clear_node_embedding put_embedding
clear_node_embedding-Blind node =
    Blind-self _
      (λ s.
        Blind-bind (ok_or (get s.nodes node) (node_not_found node)) _ (Blind-ok_or _ _)
          λ rec. Blind-modify (put_embedding node rec none) (λ a b s. refl))
      (λ a b s. refl)

reindex_node-Blind : (node : ℕ) (old new : Properties) → Blind (reindex_node node old new)
unfolding reindex_node
reindex_node-Blind node old new =
    Blind-self _
      (λ s. Blind-bind (unwrap (get s.nodes node)) _ (Blind-unwrap _) λ rec.
        Blind-bind (unwrap (Interner.label s.node_types rec.node_type)) _ (Blind-unwrap _)
          λ label. record { same = λ a b s. refl })
      (λ a b s. refl)

pub update_node_properties-Blind :
    (node : ℕ) (patch : PropertyPatch) → Blind (update_node_properties node patch)
unfolding update_node_properties put_properties
update_node_properties-Blind node patch =
    Blind-self _
      (λ s. Blind-bind (ok_or (get s.nodes node) (node_not_found node)) _ (Blind-ok_or _ _) λ rec.
        let new = apply_patch rec.properties patch in
        Blind-seq (lift (validate_properties new)) _ (Blind-lift _) (
          Blind-seq (reindex_node node rec.properties new) _
            (reindex_node-Blind node rec.properties new)
            (Blind-modify (put_properties node rec new) (λ a b s. refl))))
      (λ a b s. refl)

pub insert_edge_checked-Blind :
    (id source target : ℕ) (label : Text) (w : ℕ) (p : Properties)
    → Blind (insert_edge_checked id source target label w p)
unfolding insert_edge_checked put_edge
insert_edge_checked-Blind id source target label w p =
    Blind-self _
      (λ s.
        Blind-seq (require (contains_key s.nodes source) (node_not_found source)) _
          (Blind-require _ _)
          (Blind-seq (require (contains_key s.nodes target) (node_not_found target)) _
            (Blind-require _ _)
            (Blind-seq (lift (validate_properties p)) _ (Blind-lift _) (
              Blind-seq (lift (validate_weight w)) _ (Blind-lift _) (
                Blind-seq (lift (validate_label label invalid_edge_type)) _ (Blind-lift _) (
                  Blind-seq (require (not (contains_key s.edges id)) codec) _ (Blind-require _ _) (
                    Blind-bind (intern_edge_type label) _ (intern_edge_type-Blind label) λ t.
                      Blind-modify
                        (put_edge id (record {
                          source = source;
                          target = target;
                          edge_type = t;
                          weight = w;
                          properties = p;
                        }))
                        (λ a b s. refl))))))))
      (λ a b s. refl)

pub set_edge_weight-Blind : (edge w : ℕ) → Blind (set_edge_weight edge w)
unfolding set_edge_weight put_edge_record
set_edge_weight-Blind edge w = Blind-seq (lift (validate_weight w)) _ (Blind-lift _) (
    Blind-self _
      (λ s.
        Blind-bind (ok_or (get s.edges edge) (edge_not_found edge)) _ (Blind-ok_or _ _)
          λ rec. record { same = λ a b s. refl })
      (λ a b s. refl))

pub update_edge_properties-Blind :
    (edge : ℕ) (patch : PropertyPatch) → Blind (update_edge_properties edge patch)
unfolding update_edge_properties put_edge_record
update_edge_properties-Blind edge patch = Blind-seq (lift (validate_patch patch)) _ (Blind-lift _) (
    Blind-self _
      (λ s.
        Blind-bind (ok_or (get s.edges edge) (edge_not_found edge)) _ (Blind-ok_or _ _)
          λ rec. record { same = λ a b s. refl })
      (λ a b s. refl))

pub remove_edge-Blind : (edge : ℕ) → Blind (remove_edge edge)
unfolding remove_edge drop_edge
remove_edge-Blind edge =
    Blind-self _
      (λ s.
        Blind-bind (ok_or (get s.edges edge) (edge_not_found edge)) _ (Blind-ok_or _ _)
          λ rec. record { same = λ a b s. refl })
      (λ a b s. refl)

remove_edges-Blind : (es : List ℕ) → Blind (remove_edges es)
unfolding remove_edges
remove_edges-Blind [] = Blind-pure _
remove_edges-Blind (e ∷ es) =
    Blind-seq (remove_edge e) (remove_edges es) (remove_edge-Blind e) (remove_edges-Blind es)

detach-Blind :
    (node : ℕ) (es : List ℕ) (remove_incident : Bool) → Blind (detach node es remove_incident)
unfolding detach
detach-Blind node [] remove_incident = Blind-pure _
detach-Blind node (e ∷ es) true = remove_edges-Blind (e ∷ es)
detach-Blind node (e ∷ es) false = Blind-raise _

pub remove_node-Blind :
    (node : ℕ) (remove_incident : Bool) → Blind (remove_node node remove_incident)
unfolding remove_node drop_node incident_edges
remove_node-Blind node remove_incident =
    Blind-self _
      (λ s.
        Blind-seq (require (contains_key s.nodes node) (node_not_found node)) _ (Blind-require _ _)
          (Blind-seq (detach node (incident_edges s node) remove_incident) _
            (detach-Blind node (incident_edges s node) remove_incident)
            (Blind-self _
              (λ s. Blind-bind (unwrap (get s.nodes node)) _ (Blind-unwrap _) λ rec.
                Blind-bind (unwrap (Interner.label s.node_types rec.node_type)) _ (Blind-unwrap _)
                  λ label. record { same = λ a b s. refl })
              (λ a b s. refl))))
      (λ a b s. refl)
