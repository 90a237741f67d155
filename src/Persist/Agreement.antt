-- ===== src/Persist/Agreement.antt =====
-- `apply_replay` of drey/src/persist/mod.rs against the live methods of drey/src/graph.rs.
use drey.Prelude.{ℕ, ◌+◌, ◌≤◌, ◌≡◌, refl, sym, ap, ◌∙◌, some, List, arith}
use Prim.Native.Nat.{max}
use drey.Error.{
  resource_limit, pure, Exec, Result, ok, err, panic, follow, ok_or, modify, ◌>>=◌, ◌>>◌,
}
use drey.Ord.{Text}
use drey.Runs.{Runs, ends, errs, panics, Runs-ok, Runs-ok_or}
use drey.Float.{Arith32}
use drey.Types.{Properties}
use drey.Config.{GraphConfig}
use drey.Mutation.{Mutation, removes_incident}
use drey.Store.{Store, checked_succ}
use drey.Store.Nodes
use drey.Store.Edges
use drey.Graph.{Graph}
use drey.Graph.Calls.{
  Step, Steps, Step-Logged, register_node_type-Ran, add_node-Ran, set_node_embedding-Ran,
  clear_node_embedding-Ran, update_node_properties-Ran, remove_node-Ran, add_edge-Ran,
  update_edge_weight-Ran, update_edge_properties-Ran, remove_edge-Ran,
}
use drey.Persist.Replay.{Replay, start, on_store, apply_replay, apply_all, finish}
use drey.Persist.Renumber.{renumber, renumbered, Blind}
use drey.Persist.Renumber

-- A replay stands where the live store stood: its store is that one but for the allocators, whose
-- live values are the ones that the replay has raised.
pub record Tracks (s : Store) (r : Replay) : Type 0 where
  pub store_is : r.store ≡ renumber r.store.next_node_id r.store.next_edge_id s
  pub node_id : r.max_node ≡ s.next_node_id
  pub edge_id : r.max_edge ≡ s.next_edge_id
  pub below_node : r.store.next_node_id ≤ r.max_node
  pub below_edge : r.store.next_edge_id ≤ r.max_edge

max_of_le : (a b : ℕ) → a ≤ b → max a b ≡ b
max_of_le a b h = omega (arith, h)

-- What a replay leaves is then the live store itself.
pub finish_of_Tracks : (s : Store) (r : Replay) → Tracks s r → finish r ≡ s
unfolding finish
finish_of_Tracks s r t =
    let node : max r.store.next_node_id r.max_node ≡ s.next_node_id =
      max_of_le _ _ t.below_node ∙ t.node_id in
    let edge : max r.store.next_edge_id r.max_edge ≡ s.next_edge_id =
      max_of_le _ _ t.below_edge ∙ t.edge_id in
    ap
      (λ (z : Store).
        renumber (max r.store.next_node_id r.max_node) (max r.store.next_edge_id r.max_edge) z)
      t.store_is
    ∙ ap (λ k. renumber k (max r.store.next_edge_id r.max_edge) s) node
    ∙ ap (λ k. renumber s.next_node_id k s) edge

module _ {A : Type 0} (op : Exec Store A) (blind : Blind op) where
  -- Such a method leaves the allocators alone,
  ids_kept :
      (s s' : Store) (x : A) → op s ≡ (s', ok x) → s' ≡ renumber s.next_node_id s.next_edge_id s'
  ids_kept s s' x h =
      let e = blind.same s.next_node_id s.next_edge_id s in
      let e' : (s', ok x) ≡ renumbered s.next_node_id s.next_edge_id (s', ok x) =
        sym h ∙ e ∙ ap (renumbered s.next_node_id s.next_edge_id) h in
      ap (λ (z : Store × Result A). z.0) e'

  -- and runs on the replay as it ran on the live store.
  on_store_of_ran :
      (s s' : Store) (x : A) (r : Replay)
      → op s ≡ (s', ok x)
      → Tracks s r
      → on_store op r
        ≡ (record r { store = renumber r.store.next_node_id r.store.next_edge_id s' }, ok x)
  unfolding on_store
  on_store_of_ran s s' x r h t =
      let e = blind.same r.store.next_node_id r.store.next_edge_id s in
      ap (λ (z : Store × Result A). (record r { store = z.0 }, z.1))
        (ap op t.store_is ∙ e ∙ ap (renumbered r.store.next_node_id r.store.next_edge_id) h)

  -- So a replay that tracked the store tracks it still.
  Tracks-ran :
      (s s' : Store) (x : A) (r : Replay)
      → op s ≡ (s', ok x)
      → Tracks s r
      → Tracks s' (record r { store = renumber r.store.next_node_id r.store.next_edge_id s' })
  Tracks-ran s s' x r h t =
      let kept = ids_kept s s' x h in
      record {
        store_is = refl;
        node_id = t.node_id ∙ sym (ap (λ (z : Store). z.next_node_id) kept);
        edge_id = t.edge_id ∙ sym (ap (λ (z : Store). z.next_edge_id) kept);
        below_node = t.below_node;
        below_edge = t.below_edge;
      }

-- The replay succeeds, and tracks the store that the live call left.
abbrev Follows : Store → Replay × Result (Unit {0}) → Type 0
Follows s' x = (r' : Replay) × (x ≡ (r', ok tt)) × Tracks s' r'

-- A mutation of which the replay only runs the store's method.
replays_method :
    (op : Exec Store (Unit {0}))
    → Blind op
    → (s s' : Store) → op s ≡ (s', ok tt)
    → (r : Replay) → Tracks s r
    → Follows s' (on_store op r)
replays_method op blind s s' h r t = (
  record r { store = renumber r.store.next_node_id r.store.next_edge_id s' },
  on_store_of_ran op blind s s' tt r h t,
  Tracks-ran op blind s s' tt r h t,
)

checked_succ_of_some : (id next : ℕ) → checked_succ id ≡ some next → next ≡ id + 1
checked_succ_of_some id next h = ground arith

-- What a live call that allots an id did: the insertion that the replay repeats, with the id that
-- was next, then the allocator.
module _ (insertion : ℕ → Exec Store (Unit {0})) (next_of : Store → ℕ)
    (set : ℕ → Store → Store) where
  record Allotted (s s' : Store) (id : ℕ) : Type 0 where
    id_is : id ≡ next_of s
    in_range : checked_succ id ≡ some (id + 1)
    inner : Store
    ran : insertion id s ≡ (inner, ok tt)
    result : s' ≡ set (id + 1) inner

  Runs-Allotted :
      (s : Store)
      → Runs (Allotted s) (
          (ok_or (checked_succ (next_of s)) resource_limit >>= λ next.
          insertion (next_of s) >> (modify (set next) >> pure (next_of s)))
            s)
  Runs-Allotted s =
      Runs-ok_or _ (checked_succ (next_of s)) _ _
        λ next succ. go next succ (insertion (next_of s) s) refl
    where
      go :
          (next : ℕ)
          → checked_succ (next_of s) ≡ some next
          → (x : Store × Result (Unit {0})) → insertion (next_of s) s ≡ x
          → Runs (Allotted s) (follow x (λ _ t. (set next t, ok (next_of s))))
      go next succ (t, ok a) e =
          let next_is : next ≡ next_of s + 1 = checked_succ_of_some (next_of s) next succ in
          ends (set next t) (next_of s) (record {
            id_is = refl;
            in_range = succ ∙ ap some next_is;
            inner = t;
            ran = e;
            result = ap (λ k. set k t) next_is;
          })
      go next succ (t, err x) e = errs _ x
      go next succ (t, panic) e = panics _

abbrev set_node_id : ℕ → Store → Store
set_node_id k s = record s { next_node_id = k }

abbrev set_edge_id : ℕ → Store → Store
set_edge_id k s = record s { next_edge_id = k }

add_node-Allotted :
    (label : Text) (p : Properties) (s s' : Store) (id : ℕ)
    → Nodes.add_node label p s ≡ (s', ok id)
    → Allotted
        (λ id. Nodes.insert_node_checked id label p)
        (λ s. s.next_node_id)
        set_node_id
        s
        s'
        id
unfolding Nodes.add_node
add_node-Allotted label p s s' id h =
    Runs-ok
      (Runs-Allotted (λ id. Nodes.insert_node_checked id label p) (λ s. s.next_node_id) set_node_id
        s)
      s' id h

add_edge-Allotted :
    (source target : ℕ) (label : Text) (w : ℕ) (p : Properties) (s s' : Store) (id : ℕ)
    → Edges.add_edge source target label w p s ≡ (s', ok id)
    → Allotted
        (λ id. Edges.insert_edge_checked id source target label w p)
        (λ s. s.next_edge_id)
        set_edge_id
        s
        s'
        id
unfolding Edges.add_edge
add_edge-Allotted source target label w p s s' id h =
    Runs-ok
      (Runs-Allotted (λ id. Edges.insert_edge_checked id source target label w p)
        (λ s. s.next_edge_id) set_edge_id s)
      s' id h

apply_replay-add_node :
    (f : Arith32) (config : GraphConfig) (id : ℕ) (label : Text) (p : Properties) (s s' : Store)
    → Nodes.add_node label p s ≡ (s', ok id)
    → (r : Replay) → Tracks s r
    → Follows s' (apply_replay f config (Mutation.add_node id label p) r)
unfolding apply_replay
apply_replay-add_node f config id label p s s' h r t =
    let a = add_node-Allotted label p s s' id h in
    let blind = Renumber.insert_node_checked-Blind id label p in
    let e = on_store_of_ran _ blind s a.inner tt r a.ran t in
    let t' = Tracks-ran _ blind s a.inner tt r a.ran t in
    let at : r.max_node ≡ id = t.node_id ∙ sym a.id_is in
    rw e (
      rw a.in_range (
        record r {
          store = renumber r.store.next_node_id r.store.next_edge_id a.inner;
          max_node = max r.max_node (id + 1);
        },
        refl,
        rw a.result (record {
          store_is = refl;
          node_id = omega (arith, at);
          edge_id = t'.edge_id;
          below_node = omega (arith, at, t.below_node);
          below_edge = t.below_edge;
        }),
      ))

apply_replay-add_edge :
    (f : Arith32) (config : GraphConfig) (id source target : ℕ) (label : Text) (w : ℕ)
    (p : Properties) (s s' : Store)
    → Edges.add_edge source target label w p s ≡ (s', ok id)
    → (r : Replay) → Tracks s r
    → Follows s' (apply_replay f config (Mutation.add_edge id source target label w p) r)
unfolding apply_replay
apply_replay-add_edge f config id source target label w p s s' h r t =
    let a = add_edge-Allotted source target label w p s s' id h in
    let blind = Renumber.insert_edge_checked-Blind id source target label w p in
    let e = on_store_of_ran _ blind s a.inner tt r a.ran t in
    let t' = Tracks-ran _ blind s a.inner tt r a.ran t in
    let at : r.max_edge ≡ id = t.edge_id ∙ sym a.id_is in
    rw e (
      rw a.in_range (
        record r {
          store = renumber r.store.next_node_id r.store.next_edge_id a.inner;
          max_edge = max r.max_edge (id + 1);
        },
        refl,
        rw a.result (record {
          store_is = refl;
          node_id = t'.node_id;
          edge_id = omega (arith, at);
          below_node = t.below_node;
          below_edge = omega (arith, at, t.below_edge);
        }),
      ))

apply_replay-Step :
    {f : Arith32} {m : Mutation} {g g' : Graph}
    → Step f m g g'
    → (r : Replay) → Tracks g.store r
    → Follows g'.store (apply_replay f g.config m r)
unfolding apply_replay
apply_replay-Step {f} {m} {g} {g'} (Step.registered_type label dim h) r t =
    let (allowed, x) = register_node_type-Ran label dim g g' h in
    rw allowed
      (replays_method _ (Renumber.register_node_type-Blind label dim) g.store g'.store x.ran r t)
apply_replay-Step {f} {m} {g} {g'} (Step.added_node label p id h) r t =
    apply_replay-add_node f g.config id label p g.store g'.store
      (add_node-Ran label p g g' id h).ran r t
apply_replay-Step {f} {m} {g} {g'} (Step.set_embedding node v h) r t =
    replays_method _ (Renumber.set_node_embedding-Blind node v) g.store g'.store
      (set_node_embedding-Ran node v g g' h).ran r t
apply_replay-Step {f} {m} {g} {g'} (Step.cleared_embedding node h) r t =
    replays_method _ (Renumber.clear_node_embedding-Blind node) g.store g'.store
      (clear_node_embedding-Ran node g g' h).ran r t
apply_replay-Step {f} {m} {g} {g'} (Step.updated_node node patch h) r t =
    replays_method _ (Renumber.update_node_properties-Blind node patch) g.store g'.store
      (update_node_properties-Ran node patch g g' h).ran r t
apply_replay-Step {f} {m} {g} {g'} (Step.removed_node node mode h) r t =
    replays_method _ (Renumber.remove_node-Blind node (removes_incident mode)) g.store g'.store
      (remove_node-Ran node mode g g' h).ran r t
apply_replay-Step {f} {m} {g} {g'} (Step.added_edge source target label w p id h) r t =
    apply_replay-add_edge f g.config id source target label w p g.store g'.store
      (add_edge-Ran source target label w p g g' id h).ran r t
apply_replay-Step {f} {m} {g} {g'} (Step.updated_weight edge update new h) r t =
    let (a, x) = update_edge_weight-Ran f edge update g g' new h in
    let blind = Renumber.set_edge_weight-Blind edge new in
    rw (on_store_of_ran _ blind g.store g'.store a r x.ran t) (
      record r { store = renumber r.store.next_node_id r.store.next_edge_id g'.store },
      refl,
      Tracks-ran _ blind g.store g'.store a r x.ran t,
    )
apply_replay-Step {f} {m} {g} {g'} (Step.updated_edge edge patch h) r t =
    replays_method _ (Renumber.update_edge_properties-Blind edge patch) g.store g'.store
      (update_edge_properties-Ran edge patch g g' h).ran r t
apply_replay-Step {f} {m} {g} {g'} (Step.removed_edge edge h) r t =
    replays_method _ (Renumber.remove_edge-Blind edge) g.store g'.store
      (remove_edge-Ran edge g g' h).ran r t

-- A run of successful live calls, replayed from its mutations: the replay succeeds, and tracks the
-- store that the calls left.
apply_all-Tracks :
    {f : Arith32} {ms : List Mutation} {g g' : Graph}
    → Steps f ms g g'
    → (r : Replay) → Tracks g.store r
    → Follows g'.store (apply_all f g.config ms r)
unfolding apply_all
apply_all-Tracks (Steps.stay g) r t = (r, refl, t)
apply_all-Tracks {f = f} (Steps.step {ms = ms} one more) r t =
    let (r', ran, t') = apply_replay-Step one r t in
    let (r'', rans, t'') = apply_all-Tracks more r' t' in
    let e = ap (λ c. apply_all f c ms r') (sym (Step-Logged one).config_kept) ∙ rans in
    rw ran (r'', e, t'')

start-Tracks : (s : Store) → Tracks s (start s)
unfolding start
start-Tracks s = record {
  store_is = refl;
  node_id = refl;
  edge_id = refl;
  below_node = omega arith;
  below_edge = omega arith;
}

-- Replaying the mutations of a run of successful calls other than `decay_edges` on the store where
-- the run began, under the configuration of the handle, succeeds and rebuilds exactly the store
-- that the run left, allocators and indexes included.
pub apply_all-Steps :
    {f : Arith32} {ms : List Mutation} {g g' : Graph}
    → Steps f ms g g'
    → (r : Replay) × (apply_all f g.config ms (start g.store) ≡ (r, ok tt)) × (finish r ≡ g'.store)
apply_all-Steps {f} {ms} {g} {g'} steps =
    let (r, ran, t) = apply_all-Tracks steps (start g.store) (start-Tracks g.store) in
    (r, ran, finish_of_Tracks g'.store r t)
