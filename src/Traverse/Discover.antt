-- ===== src/Traverse/Discover.antt =====
-- The loops of `bfs_path` of drey/src/traverse.rs: what a round of the search keeps.
use drey.Prelude.{
  ℕ, suc, ◌+◌, ◌≤◌, ◌<◌, ◌≡◌, refl, Bool, true, false, ◌||◌, Option, none, some, List, [], ◌∷◌,
  ◌==◌, ==_refl, ==_iff, length, length-append, arith, if◌then◌else◌, Bool-cases, inl, inr,
}
use mathlib.Core.Path.{subst}
use drey.Prelude.Membership.{contains, contains-append}
use drey.Ord.{nat_ord, nat_lawful}
use drey.Map.{Map, get, insert, contains_key}
use drey.Map.Laws.{get-insert, get_of_eq}
use drey.Types.{Direction, outbound, inbound, both}
use drey.Records.{EdgeRecord}
use drey.Store.{Store}
use drey.Store.Consistent.{EdgesAgree}
use drey.Traverse.Offers.{offers}
use drey.Traverse.Steps.{joins, allowed}
use drey.Traverse.{Hop, ShortestPathOptions}
use drey.Traverse.Chains.{Chain, link, Chain-insert, length-insert, contains_of_eq}
use drey.Traverse.Search.{Prev, Bfs, discover, discover_each}

-- Nodes of the store that were not seen yet.
abbrev pub unseen {ℓ} : {V : Type ℓ} → List ℕ → Map ℕ V → ℕ
unseen seen [] = 0
unseen seen ((n, v) ∷ nodes) =
    let rest = unseen seen nodes in if contains seen n then rest else suc rest

module _ {ℓ} {V : Type ℓ} where
  unseen-le :
      (seen : List ℕ) (x : ℕ) (nodes : Map ℕ V) → unseen (x ∷ seen) nodes ≤ unseen seen nodes
  unfolding contains
  unseen-le seen x [] = omega arith
  unseen-le seen x ((n, v) ∷ nodes) = ground (arith, unseen-le seen x nodes)

  unseen-lt :
      (seen : List ℕ) (x : ℕ) (nodes : Map ℕ V)
      → contains_key nodes x ≡ true
      → contains seen x ≡ false
      → unseen (x ∷ seen) nodes < unseen seen nodes
  unfolding contains get
  unseen-lt seen x [] h k = absurd (ground arith)
  unseen-lt seen x ((n, v) ∷ nodes) h k =
      ground (arith, unseen-le seen x nodes, unseen-lt seen x nodes, contains_of_eq seen n x)

  pub unseen-length : (seen : List ℕ) (nodes : Map ℕ V) → unseen seen nodes ≤ length nodes
  unseen-length seen [] = omega arith
  unseen-length seen ((n, v) ∷ nodes) = ground (arith, unseen-length seen nodes)

module _ (as_f32 : ℕ → ℕ) (s : Store) (opts : ShortestPathOptions) (type_ids : Option (List ℕ))
    (start goal : ℕ) (agree : EdgesAgree s) where
  abbrev pub takes : ℕ → ℕ → ℕ → Bool
  takes n e m = allowed opts.direction type_ids opts.min_weight n (get s.edges e) m

  joins-node :
      (d : Direction) (rec : EdgeRecord) (n m : ℕ)
      → joins d rec n m ≡ true
      → (rec.source == m || rec.target == m) ≡ true
  joins-node outbound rec n m h = ground (arith, h)
  joins-node inbound rec n m h = ground (arith, h)
  joins-node both rec n m h = ground (arith, h)

  -- What is stepped to is a node.
  takes-node : (n e m : ℕ) → takes n e m ≡ true → contains_key s.nodes m ≡ true
  takes-node n e m h = go (get s.edges e) refl h
    where
      go :
          (o : Option EdgeRecord)
          → get s.edges e ≡ o
          → allowed opts.direction type_ids opts.min_weight n o m ≡ true
          → contains_key s.nodes m ≡ true
      go none there t = absurd (ground arith)
      go (some rec) there t = ground (
        arith,
        joins-node opts.direction rec n m,
        agree.from_node e rec there,
        agree.to_node e rec there,
        get_of_eq s.nodes rec.source m,
        get_of_eq s.nodes rec.target m,
      )

  pub record Way (prev : Prev) (y : ℕ) : Type 0 where
    pub nodes : List ℕ
    pub edges : List ℕ
    pub chain : Chain takes start prev y nodes edges
    pub short : length edges ≤ length prev

  -- What holds of the variables between two rounds.
  pub record Searching (b : Bfs) : Type 0 where
    pub started : contains b.seen start ≡ true
    pub way : (y : ℕ) → contains b.seen y ≡ true → Way b.prev y
    pub fresh : (y : ℕ) → contains b.seen y ≡ false → get b.prev y ≡ none
    pub queued : (y : ℕ) → contains b.q y ≡ true → contains b.seen y ≡ true

  abbrev pub measure : Bfs → ℕ
  measure b = length b.q + unseen b.seen s.nodes

  -- The way to the node just found, and the ways that were there.
  Way-on :
      (cur e m : ℕ) (b : Bfs)
      → Searching b
      → contains b.seen cur ≡ true
      → takes cur e m ≡ true
      → contains b.seen m ≡ false
      → Way (insert b.prev m (cur, e)) m
  Way-on cur e m b h k t new =
      let w = h.way cur k in
      let absent = h.fresh m new in
      let longer = length-insert b.prev m (cur, e) absent in
      record {
        nodes = cur ∷ w.nodes;
        edges = e ∷ w.edges;
        chain =
            link m cur e w.nodes w.edges (ground (arith, get-insert b.prev m m (cur, e), ==_refl m))
              (ground (arith, contains_of_eq b.seen m start, h.started)) t
              (Chain-insert takes start b.prev m (cur, e) cur w.nodes w.edges absent w.chain);
        short = omega (arith, longer, w.short);
      }

  Way-kept :
      (x : ℕ) (v : ℕ × ℕ) (prev : Prev) (y : ℕ)
      → get prev x ≡ none
      → Way prev y
      → Way (insert prev x v) y
  Way-kept x v prev y absent w = record {
    nodes = w.nodes;
    edges = w.edges;
    chain = Chain-insert takes start prev x v y w.nodes w.edges absent w.chain;
    short = omega (arith, length-insert prev x v absent, w.short);
  }

  discover-Searching :
      (cur e m : ℕ) (b : Bfs)
      → Searching b
      → contains b.seen cur ≡ true
      → takes cur e m ≡ true
      → Searching (discover cur (e, m) b)
  unfolding contains
  discover-Searching cur e m b h k t = elim (Bool-cases (contains b.seen m)) [
    | inl old ↦ rw old h
    | inr new ↦ rw new (record {
      started = ground (arith, h.started);
      way = λ y seen_y. elim (Bool-cases (m == y)) [
        | inl same ↦
            subst (Way (insert b.prev m (cur, e))) ((==_iff m y).0 same)
              (Way-on cur e m b h k t new)
        | inr other ↦ Way-kept m (cur, e) b.prev y (h.fresh m new) (h.way y (ground arith))
      ];
      fresh = λ y unseen_y. ground (arith, get-insert b.prev m y (cur, e), h.fresh y);
      queued = λ y in_q. ground (arith, contains-append b.q (m ∷ []) y, h.queued y);
    })
  ]

  discover-measure :
      (cur e m : ℕ) (b : Bfs) → takes cur e m ≡ true → measure (discover cur (e, m) b) ≤ measure b
  discover-measure cur e m b t = elim (Bool-cases (contains b.seen m)) [
    | inl old ↦ rw old (omega arith)
    | inr new ↦
        let one = length-append b.q (m ∷ []) in
        let less = unseen-lt b.seen m s.nodes (takes-node cur e m t) new in
        rw new (omega (arith, one, less))
  ]

  -- Every node that was seen is in the queue, or is exempt, or is not the goal and has its steps seen.
  unfoldable pub Closed : (ℕ → Bool) → Bfs → Type 0
  Closed exempt b =
      (y : ℕ)
      → contains b.seen y ≡ true
      → exempt y ≡ false
      → contains b.q y ≡ false
      → ((y == goal) ≡ false) × ((e m : ℕ) → takes y e m ≡ true → contains b.seen m ≡ true)

  seen-discover :
      (cur e m : ℕ) (b : Bfs) (y : ℕ)
      → contains (discover cur (e, m) b).seen y ≡ (m == y || contains b.seen y)
  unfolding contains
  seen-discover cur e m b y = elim (Bool-cases (contains b.seen m)) [
    | inl old ↦ rw old ground (arith, contains_of_eq b.seen m y, old)
    | inr new ↦ rw new refl
  ]

  discover-Closed :
      (cur e m : ℕ) (exempt : ℕ → Bool) (b : Bfs)
      → Closed exempt b
      → Closed exempt (discover cur (e, m) b)
  unfolding Closed contains
  discover-Closed cur e m exempt b h = elim (Bool-cases (contains b.seen m)) [
    | inl old ↦ rw old h
    | inr new ↦ rw new (λ y seen_y free out.
        let both = contains-append b.q (m ∷ []) y in
        let (away, all) =
          h y (ground (arith, both, seen_y, out)) free (ground (arith, both, out)) in
        (away, λ e' m' t. ground (arith, all e' m' t)))
  ]

  pub discover_each-Searching :
      (cur : ℕ) (hops : List Hop) (b : Bfs)
      → Searching b
      → contains b.seen cur ≡ true
      → ((e m : ℕ) → offers hops e m ≡ true → takes cur e m ≡ true)
      → Searching (discover_each cur hops b)
  discover_each-Searching cur [] b h k all = h
  discover_each-Searching cur ((e, m) ∷ hops) b h k all =
      let t = all e m (ground (arith, ==_refl e, ==_refl m)) in
      discover_each-Searching cur hops (discover cur (e, m) b) (discover-Searching cur e m b h k t)
        (ground (arith, seen-discover cur e m b cur, k)) (λ e' m' o. all e' m' (ground (arith, o)))

  pub discover_each-measure :
      (cur : ℕ) (hops : List Hop) (b : Bfs)
      → ((e m : ℕ) → offers hops e m ≡ true → takes cur e m ≡ true)
      → measure (discover_each cur hops b) ≤ measure b
  discover_each-measure cur [] b all = omega arith
  discover_each-measure cur ((e, m) ∷ hops) b all =
      let t = all e m (ground (arith, ==_refl e, ==_refl m)) in
      omega (
        arith,
        discover-measure cur e m b t,
        discover_each-measure cur hops (discover cur (e, m) b)
            (λ e' m' o. all e' m' (ground (arith, o))),
      )

  pub discover_each-Closed :
      (cur : ℕ) (hops : List Hop) (exempt : ℕ → Bool) (b : Bfs)
      → Closed exempt b
      → Closed exempt (discover_each cur hops b)
  discover_each-Closed cur [] exempt b h = h
  discover_each-Closed cur ((e, m) ∷ hops) exempt b h =
      discover_each-Closed cur hops exempt (discover cur (e, m) b)
        (discover-Closed cur e m exempt b h)

  pub seen-discover_each :
      (cur : ℕ) (hops : List Hop) (b : Bfs) (y : ℕ)
      → contains b.seen y ≡ true
      → contains (discover_each cur hops b).seen y ≡ true
  seen-discover_each cur [] b y h = h
  seen-discover_each cur ((e, m) ∷ hops) b y h =
      seen-discover_each cur hops (discover cur (e, m) b) y
        (ground (arith, seen-discover cur e m b y, h))

  pub discover_each-sees :
      (cur : ℕ) (hops : List Hop) (b : Bfs) (e m : ℕ)
      → offers hops e m ≡ true
      → contains (discover_each cur hops b).seen m ≡ true
  discover_each-sees cur [] b e m h = absurd (ground arith)
  discover_each-sees cur ((e', m') ∷ hops) b e m h = elim (Bool-cases (offers hops e m)) [
    | inl later ↦ discover_each-sees cur hops (discover cur (e', m') b) e m later
    | inr now ↦
        seen-discover_each cur hops (discover cur (e', m') b) m
          (ground (arith, seen-discover cur e' m' b m, h, now))
  ]
