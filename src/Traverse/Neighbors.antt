-- ===== src/Traverse/Neighbors.antt =====
-- `neighbors` of drey/src/traverse.rs on a store whose indexes agree.
use drey.Prelude.{
  ℕ, ◌≡◌, refl, sym, ap, ◌∙◌, Bool, true, Option, none, some, List, [], ◌∷◌, map, arith, ==_refl,
  is_some, Option-cases, inl, inr,
}
use drey.Error.{Result, ok}
use drey.Ord.{nat_ord, Text}
use drey.Types.{Direction}
use drey.Map.{get, contains_key}
use drey.Interner
use drey.Store.{Store}
use drey.Store.Consistent.{EdgesAgree}
use drey.Records.{EdgeRecord}
use drey.Graph.{Graph, validate_min_weight}
use drey.Traverse.{
  Hop, Neighbor, NeighborOptions, neighbor_of, neighbors_of, neighbors, resolve_type_ids,
}
use drey.Traverse.Offers.{offers, once}
use drey.Traverse.Steps.{allowed, steps-Hops}

-- The hop that a neighbour stands for.
abbrev pub hop : Neighbor → Hop
hop n = (n.via, n.node)

-- Each neighbour shows the record of its edge.
pub data AllShown (s : Store) : List Neighbor → Type 0 where
  shown_all : AllShown s []
  shown :
      (n : Neighbor) (rec : EdgeRecord) {ns : List Neighbor}
      → get s.edges n.via ≡ some rec
      → n.weight ≡ rec.weight
      → Interner.label s.edge_types rec.edge_type ≡ some n.edge_type
      → AllShown s ns
      → AllShown s (n ∷ ns)

-- Exactly the pairs that are good, each of them once.
pub record Listed (s : Store) (good : ℕ → ℕ → Bool) (r : Result (List Neighbor)) : Type 0 where
  pub listed : List Neighbor
  pub returned : r ≡ ok listed
  pub exactly : (e m : ℕ) → offers (map hop listed) e m ≡ good e m
  pub no_repeat : once (map hop listed) ≡ true
  pub records : AllShown s listed

-- The neighbours that stand for some hops.
record Shows (s : Store) (hops : List Hop) (r : Result (List Neighbor)) : Type 0 where
  listed : List Neighbor
  returned : r ≡ ok listed
  hops_are : map hop listed ≡ hops
  records : AllShown s listed

module _ (s : Store) (agree : EdgesAgree s) where
  neighbors_of-cons :
      (e m : ℕ) (hops : List Hop) (rec : EdgeRecord) (label : Text) (ns : List Neighbor)
      → get s.edges e ≡ some rec
      → Interner.label s.edge_types rec.edge_type ≡ some label
      → neighbors_of s hops ≡ ok ns
      → neighbors_of s ((e, m) ∷ hops)
        ≡ ok (record { node = m; via = e; edge_type = label; weight = rec.weight } ∷ ns)
  unfolding neighbors_of neighbor_of
  neighbors_of-cons e m hops rec label ns h k l = rw (neighbors_of, neighbor_of, h, k, l) refl

  neighbors_of-Shows :
      (hops : List Hop)
      → ((e m : ℕ) → offers hops e m ≡ true → is_some (get s.edges e) ≡ true)
      → Shows s hops (neighbors_of s hops)
  unfolding neighbors_of neighbor_of
  neighbors_of-Shows [] live = record {
    listed = [];
    returned = refl;
    hops_are = refl;
    records = shown_all;
  }
  neighbors_of-Shows ((e, m) ∷ hops) live = elim (Option-cases (get s.edges e)) [
    | inl absent ↦ absurd (ground (arith, live e m, ==_refl e, ==_refl m))
    | inr (rec, there) ↦ elim (Option-cases (Interner.label s.edge_types rec.edge_type)) [
      | inl unlabelled ↦ absurd (ground (arith, agree.labelled e rec there, unlabelled))
      | inr (label, named) ↦
          let rest = neighbors_of-Shows hops (λ e' m' h. live e' m' (ground (arith, h))) in
          let n : Neighbor = record { node = m; via = e; edge_type = label; weight = rec.weight } in
          record {
            listed = n ∷ rest.listed;
            returned = neighbors_of-cons e m hops rec label rest.listed there named rest.returned;
            hops_are = ap (λ xs. (e, m) ∷ xs) rest.hops_are;
            records = shown n rec there refl named rest.records;
          }
    ]
  ]

allowed-live :
    (d : Direction) (ids : Option (List ℕ)) (w : Option ℕ) (n : ℕ) (o : Option EdgeRecord) (m : ℕ)
    → allowed d ids w n o m ≡ true
    → is_some o ≡ true
allowed-live d ids w n none m h = absurd (ground arith)
allowed-live d ids w n (some rec) m h = refl

-- On a store whose indexes agree with its edges, for a node that is there and a minimal weight
-- that is no NaN, `neighbors` succeeds and lists exactly the pairs of an edge and its other end
-- that the recorded edges, the direction, the types and the minimal weight allow, each pair once,
-- also that of a self-loop in both directions, and each with the weight and the label of its edge.
pub neighbors-Listed :
    (g : Graph) (node : ℕ) (opts : NeighborOptions)
    → EdgesAgree g.store
    → contains_key g.store.nodes node ≡ true
    → validate_min_weight opts.min_weight ≡ ok tt
    → Listed g.store
        (λ e m.
          allowed opts.direction
            (resolve_type_ids g.store opts.edge_types)
            opts.min_weight
            node
            (get g.store.edges e)
            m)
        (neighbors g node opts)
unfolding neighbors
neighbors-Listed g node opts agree there valid =
    let ids = resolve_type_ids g.store opts.edge_types in
    let x = steps-Hops g.store agree ids opts.min_weight node opts.direction in
    let live : (e m : ℕ) → offers x.hops e m ≡ true → is_some (get g.store.edges e) ≡ true =
      λ e m h.
        allowed-live opts.direction ids opts.min_weight node (get g.store.edges e) m
          (sym (x.offered e m) ∙ h) in
    let y = neighbors_of-Shows g.store agree x.hops live in
    record {
      listed = y.listed;
      returned = rw (valid, there, x.returned) y.returned;
      exactly = λ e m. ap (λ hs. offers hs e m) y.hops_are ∙ x.offered e m;
      no_repeat = ap once y.hops_are ∙ x.no_repeat;
      records = y.records;
    }
