-- ===== src/Graph/Calls.antt =====
-- The successful calls of the methods of drey/src/graph.rs as a step relation: each call with the
-- mutation that it is to log. `decay_edges` is not among them.
use drey.Prelude.{ℕ, ◌≡◌, ◌∙◌, sym, ap, refl, Option, some, List, [], ◌∷◌, ◌++◌, map}
use mathlib.Core.List.{append_assoc, append-nil}
use drey.Error.{follow, Result, ok, err, panic, Exec, ◌>>=◌, ◌>>◌, pure}
use drey.Ord.{Text, nat_ord}
use drey.Runs.{Runs-weaken, Runs, ends, errs, panics, Runs-ok, Runs-lift, Runs-ok_or, Runs-require}
use drey.Float.{Arith32, is_finite32}
use drey.Map.{get}
use drey.Types.{Properties}
use drey.Mutation.{
  PropertyPatch, WeightUpdate, RemoveNodeMode, removes_incident, Mutation, apply_update,
  bounds_valid,
}
use drey.Store.{Store}
use drey.Store.Nodes
use drey.Store.Edges
use drey.Graph.{
  Graph, on_store, ensure_writable, log, validate_embedding_dim, register_node_type, add_node,
  set_node_embedding, update_node_properties, clear_node_embedding, remove_node, add_edge,
  update_edge_weight, update_edge_properties, remove_edge,
}
use drey.Persist.Log.{WalPersistence, payload}
use drey.Graph.Logged.{Logged, recorded, log_of_ready, ready_of_writable}

pub data Step (f : Arith32) : Mutation → Graph → Graph → Type 0 where
  registered_type :
      (label : Text) (dim : Option ℕ) {g g' : Graph}
      → register_node_type label dim g ≡ (g', ok tt)
      → Step f (Mutation.register_node_type label dim) g g'
  added_node :
      (label : Text) (p : Properties) (id : ℕ) {g g' : Graph}
      → add_node label p g ≡ (g', ok id)
      → Step f (Mutation.add_node id label p) g g'
  set_embedding :
      (node : ℕ) (v : List ℕ) {g g' : Graph}
      → set_node_embedding node v g ≡ (g', ok tt)
      → Step f (Mutation.set_node_embedding node v) g g'
  cleared_embedding :
      (node : ℕ) {g g' : Graph}
      → clear_node_embedding node g ≡ (g', ok tt)
      → Step f (Mutation.clear_node_embedding node) g g'
  updated_node :
      (node : ℕ) (patch : PropertyPatch) {g g' : Graph}
      → update_node_properties node patch g ≡ (g', ok tt)
      → Step f (Mutation.update_node_properties node patch) g g'
  removed_node :
      (node : ℕ) (mode : RemoveNodeMode) {g g' : Graph}
      → remove_node node mode g ≡ (g', ok tt)
      → Step f (Mutation.remove_node node mode) g g'
  added_edge :
      (source target : ℕ) (label : Text) (w : ℕ) (p : Properties) (id : ℕ) {g g' : Graph}
      → add_edge source target label w p g ≡ (g', ok id)
      → Step f (Mutation.add_edge id source target label w p) g g'
  updated_weight :
      (edge : ℕ) (update : WeightUpdate) (new : ℕ) {g g' : Graph}
      → update_edge_weight f edge update g ≡ (g', ok new)
      → Step f (Mutation.set_edge_weight edge new) g g'
  updated_edge :
      (edge : ℕ) (patch : PropertyPatch) {g g' : Graph}
      → update_edge_properties edge patch g ≡ (g', ok tt)
      → Step f (Mutation.update_edge_properties edge patch) g g'
  removed_edge :
      (edge : ℕ) {g g' : Graph}
      → remove_edge edge g ≡ (g', ok tt)
      → Step f (Mutation.remove_edge edge) g g'

pub data Steps (f : Arith32) : List Mutation → Graph → Graph → Type 0 where
  stay : (g : Graph) → Steps f [] g g
  step :
      {m : Mutation} {ms : List Mutation} {g g' g'' : Graph}
      → Step f m g g'
      → Steps f ms g' g''
      → Steps f (m ∷ ms) g g''

-- The store's method ran, and its mutation is logged.
pub record Ran {A : Type 0} (op : Exec Store A) (m : Mutation) (g g' : Graph) (a : A) : Type 0 where
  pub ran : op g.store ≡ (g'.store, ok a)
  pub logged : Logged m g g'

module _ {A : Type 0} (op : Exec Store A) (m : A → Mutation) (g : Graph)
    (writable : ensure_writable g ≡ ok tt) where
  Runs-logged : Runs (λ g' a. Ran op (m a) g g' a) ((on_store op >>= λ a. log (m a) >> pure a) g)
  unfolding on_store
  Runs-logged = go (op g.store) refl
    where
      go :
          (r : Store × Result A)
          → op g.store ≡ r
          → Runs
              (λ g' a. Ran op (m a) g g' a)
              (follow (record g { store = r.0 }, r.1) (λ a. log (m a) >> pure a))
      go (s', ok a) e =
          let g' = record g { store = s' } in
          rw (log_of_ready (m a) g.persist g' (ready_of_writable g writable) refl) (
            ends (record g' { persist = recorded (m a) g.persist }) a
              (record {
                ran = e;
                logged = record { writable = writable; config_kept = refl; persist = refl };
              }))
      go (s', err x) e = errs _ x
      go (s', panic) e = panics _

module _ (op : Exec Store (Unit {0})) (m : Mutation) (g : Graph)
    (writable : ensure_writable g ≡ ok tt) where
  Runs-logged_unit : Runs (Ran op m g) ((on_store op >> log m) g)
  unfolding on_store
  Runs-logged_unit = go (op g.store) refl
    where
      go :
          (r : Store × Result (Unit {0}))
          → op g.store ≡ r
          → Runs (Ran op m g) (follow (record g { store = r.0 }, r.1) (λ _. log m))
      go (s', ok a) e =
          let g' = record g { store = s' } in
          rw (log_of_ready m g.persist g' (ready_of_writable g writable) refl) (
            ends (record g' { persist = recorded m g.persist }) tt
              (record {
                ran = e;
                logged = record { writable = writable; config_kept = refl; persist = refl };
              }))
      go (s', err x) e = errs _ x
      go (s', panic) e = panics _

pub set_node_embedding-Ran :
    (node : ℕ) (v : List ℕ) (g g' : Graph)
    → set_node_embedding node v g ≡ (g', ok tt)
    → Ran (Nodes.set_node_embedding node v) (Mutation.set_node_embedding node v) g g' tt
unfolding set_node_embedding
set_node_embedding-Ran node v g g' h =
    Runs-ok
      (Runs-lift _ (ensure_writable g) _ λ u writable.
        Runs-logged_unit (Nodes.set_node_embedding node v) (Mutation.set_node_embedding node v) g
          writable)
      g' tt h

pub clear_node_embedding-Ran :
    (node : ℕ) (g g' : Graph)
    → clear_node_embedding node g ≡ (g', ok tt)
    → Ran (Nodes.clear_node_embedding node) (Mutation.clear_node_embedding node) g g' tt
unfolding clear_node_embedding
clear_node_embedding-Ran node g g' h =
    Runs-ok
      (Runs-lift _ (ensure_writable g) _ λ u writable.
        Runs-logged_unit (Nodes.clear_node_embedding node) (Mutation.clear_node_embedding node) g
          writable)
      g' tt h

pub update_node_properties-Ran :
    (node : ℕ) (patch : PropertyPatch) (g g' : Graph)
    → update_node_properties node patch g ≡ (g', ok tt)
    → Ran
        (Nodes.update_node_properties node patch)
        (Mutation.update_node_properties node patch)
        g
        g'
        tt
unfolding update_node_properties
update_node_properties-Ran node patch g g' h =
    Runs-ok
      (Runs-lift _ (ensure_writable g) _ λ u writable.
        Runs-logged_unit (Nodes.update_node_properties node patch)
          (Mutation.update_node_properties node patch) g writable)
      g' tt h

pub remove_node-Ran :
    (node : ℕ) (mode : RemoveNodeMode) (g g' : Graph)
    → remove_node node mode g ≡ (g', ok tt)
    → Ran (Edges.remove_node node (removes_incident mode)) (Mutation.remove_node node mode) g g' tt
unfolding remove_node
remove_node-Ran node mode g g' h =
    Runs-ok
      (Runs-lift _ (ensure_writable g) _ λ u writable.
        Runs-logged_unit (Edges.remove_node node (removes_incident mode))
          (Mutation.remove_node node mode) g writable)
      g' tt h

pub update_edge_properties-Ran :
    (edge : ℕ) (patch : PropertyPatch) (g g' : Graph)
    → update_edge_properties edge patch g ≡ (g', ok tt)
    → Ran
        (Edges.update_edge_properties edge patch)
        (Mutation.update_edge_properties edge patch)
        g
        g'
        tt
unfolding update_edge_properties
update_edge_properties-Ran edge patch g g' h =
    Runs-ok
      (Runs-lift _ (ensure_writable g) _ λ u writable.
        Runs-logged_unit (Edges.update_edge_properties edge patch)
          (Mutation.update_edge_properties edge patch) g writable)
      g' tt h

pub remove_edge-Ran :
    (edge : ℕ) (g g' : Graph)
    → remove_edge edge g ≡ (g', ok tt)
    → Ran (Edges.remove_edge edge) (Mutation.remove_edge edge) g g' tt
unfolding remove_edge
remove_edge-Ran edge g g' h =
    Runs-ok
      (Runs-lift _ (ensure_writable g) _ λ u writable.
        Runs-logged_unit (Edges.remove_edge edge) (Mutation.remove_edge edge) g writable)
      g' tt h

pub register_node_type-Ran :
    (label : Text) (dim : Option ℕ) (g g' : Graph)
    → register_node_type label dim g ≡ (g', ok tt)
    → (validate_embedding_dim g.config dim ≡ ok tt)
      × Ran (Nodes.register_node_type label dim) (Mutation.register_node_type label dim) g g' tt
unfolding register_node_type
register_node_type-Ran label dim g g' h = Runs-ok go g' tt h
  where
    go :
        Runs
          (λ g' a.
            (validate_embedding_dim g.config dim ≡ ok tt)
            × Ran
                (Nodes.register_node_type label dim)
                (Mutation.register_node_type label dim)
                g
                g'
                a)
          (register_node_type label dim g)
    go = Runs-lift _ (ensure_writable g) _ λ u writable.
        Runs-lift _ (validate_embedding_dim g.config dim) _ λ u' allowed.
          Runs-weaken (λ g' a r. (allowed, r))
            (Runs-logged_unit (Nodes.register_node_type label dim)
              (Mutation.register_node_type label dim) g writable)

pub add_node-Ran :
    (label : Text) (p : Properties) (g g' : Graph) (id : ℕ)
    → add_node label p g ≡ (g', ok id)
    → Ran (Nodes.add_node label p) (Mutation.add_node id label p) g g' id
unfolding add_node
add_node-Ran label p g g' id h =
    Runs-ok {Post = λ g' id. Ran (Nodes.add_node label p) (Mutation.add_node id label p) g g' id}
      (Runs-lift _ (ensure_writable g) _ λ u writable.
        Runs-logged (Nodes.add_node label p) (λ id. Mutation.add_node id label p) g writable)
      g' id h

pub add_edge-Ran :
    (source target : ℕ) (label : Text) (w : ℕ) (p : Properties) (g g' : Graph) (id : ℕ)
    → add_edge source target label w p g ≡ (g', ok id)
    → Ran
        (Edges.add_edge source target label w p)
        (Mutation.add_edge id source target label w p)
        g
        g'
        id
unfolding add_edge
add_edge-Ran source target label w p g g' id h =
    Runs-ok
      {Post = λ g' id.
        Ran (Edges.add_edge source target label w p) (Mutation.add_edge id source target label w p)
          g g' id}
      (Runs-lift _ (ensure_writable g) _ λ u writable.
        Runs-logged (Edges.add_edge source target label w p)
          (λ id. Mutation.add_edge id source target label w p) g writable)
      g' id h

-- The weight that `update_edge_weight` computes is the one that it writes, logs and returns.
Runs-reweighted :
    (edge new : ℕ) (g : Graph)
    → ensure_writable g ≡ ok tt
    → Runs
        (λ g' b.
          (a : ℕ) × Ran (Edges.set_edge_weight edge b) (Mutation.set_edge_weight edge b) g g' a)
        ((on_store (Edges.set_edge_weight edge new) >>= λ a.
            log (Mutation.set_edge_weight edge new) >> pure new)
          g)
unfolding on_store
Runs-reweighted edge new g writable = go (Edges.set_edge_weight edge new g.store) refl
  where
    go :
        (r : Store × Result ℕ)
        → Edges.set_edge_weight edge new g.store ≡ r
        → Runs
            (λ g' b.
              (a : ℕ) × Ran (Edges.set_edge_weight edge b) (Mutation.set_edge_weight edge b) g g' a)
            (follow
              (record g { store = r.0 }, r.1)
              (λ a. log (Mutation.set_edge_weight edge new) >> pure new))
    go (s', ok a) e =
        let g' = record g { store = s' } in
        let m = Mutation.set_edge_weight edge new in
        rw (log_of_ready m g.persist g' (ready_of_writable g writable) refl) (
          ends (record g' { persist = recorded m g.persist }) new
            (
              a,
              record {
                ran = e;
                logged = record { writable = writable; config_kept = refl; persist = refl };
              },
            ))
    go (s', err x) e = errs _ x
    go (s', panic) e = panics _

pub update_edge_weight-Ran :
    (f : Arith32) (edge : ℕ) (update : WeightUpdate) (g g' : Graph) (new : ℕ)
    → update_edge_weight f edge update g ≡ (g', ok new)
    → (a : ℕ) × Ran (Edges.set_edge_weight edge new) (Mutation.set_edge_weight edge new) g g' a
unfolding update_edge_weight
update_edge_weight-Ran f edge update g g' new h =
    Runs-ok
      {Post = λ g' b.
        (a : ℕ) × Ran (Edges.set_edge_weight edge b) (Mutation.set_edge_weight edge b) g g' a}
      (Runs-lift _ (ensure_writable g) _ λ u writable.
        Runs-require _ (bounds_valid update) _ _ λ valid.
          Runs-ok_or _ (get g.store.edges edge) _ _ λ rec was.
            let w = apply_update f update rec.weight in
            Runs-require _ (is_finite32 w) _ _ λ finite. Runs-reweighted edge w g writable)
      g' new h

-- Each step logs its mutation.
pub Step-Logged : {f : Arith32} {m : Mutation} {g g' : Graph} → Step f m g g' → Logged m g g'
Step-Logged {f} {m} {g} {g'} (registered_type label dim h) =
    (register_node_type-Ran label dim g g' h).1.logged
Step-Logged {f} {m} {g} {g'} (added_node label p id h) = (add_node-Ran label p g g' id h).logged
Step-Logged {f} {m} {g} {g'} (set_embedding node v h) =
    (set_node_embedding-Ran node v g g' h).logged
Step-Logged {f} {m} {g} {g'} (cleared_embedding node h) =
    (clear_node_embedding-Ran node g g' h).logged
Step-Logged {f} {m} {g} {g'} (updated_node node patch h) =
    (update_node_properties-Ran node patch g g' h).logged
Step-Logged {f} {m} {g} {g'} (removed_node node mode h) = (remove_node-Ran node mode g g' h).logged
Step-Logged {f} {m} {g} {g'} (added_edge source target label w p id h) =
    (add_edge-Ran source target label w p g g' id h).logged
Step-Logged {f} {m} {g} {g'} (updated_weight edge update new h) =
    (update_edge_weight-Ran f edge update g g' new h).1.logged
Step-Logged {f} {m} {g} {g'} (updated_edge edge patch h) =
    (update_edge_properties-Ran edge patch g g' h).logged
Step-Logged {f} {m} {g} {g'} (removed_edge edge h) = (remove_edge-Ran edge g g' h).logged

-- A run of successful calls other than `decay_edges` on a handle with a backend appends to the
-- backend's buffer the encoded records of the calls' mutations, in the order of the calls, and
-- changes nothing else of the backend.
pub Steps-pending :
    {f : Arith32} {ms : List Mutation} {g g' : Graph} (p : WalPersistence)
    → Steps f ms g g'
    → g.persist ≡ some p
    → g'.persist ≡ some (record p { pending = p.pending ++ map payload ms })
Steps-pending p (stay g) e =
    e ∙ ap (λ ps. some (record p { pending = ps })) (sym (append-nil p.pending))
Steps-pending p (step one more) e =
    let l = Step-Logged one in
    let e' = l.persist ∙ ap (recorded _) e in
    Steps-pending _ more e'
    ∙ ap (λ ps. some (record p { pending = ps })) (append_assoc p.pending _ _)
