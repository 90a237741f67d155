-- ===== src/Traverse/SearchLaws.antt =====
-- `bfs_path` of drey/src/traverse.rs ends; what it finds is a walk to the goal, and it finds one where
-- there is one.
use drey.Prelude.{
  ℕ, zero, suc, ◌+◌, ◌<◌, ◌≡◌, refl, sym, ap, ◌∙◌, Bool, true, false, ◌||◌, Option, none, some,
  List, [], ◌∷◌, ◌==◌, ==_refl, ==_iff, length, arith, Bool-cases, inl, inr,
}
use mathlib.Core.List.{append-nil}
use mathlib.Core.Path.{subst}
use drey.Prelude.Membership.{contains}
use drey.Error.{Result, ok, and_then}
use drey.Ord.{nat_ord, nat_lawful}
use drey.Map.{get}
use drey.Store.{Store}
use drey.Store.Consistent.{EdgesAgree}
use drey.Traverse.Offers.{offers}
use drey.Traverse.Steps.{steps-Hops}
use drey.Traverse.Dfs.{bottom_up}
use drey.Traverse.Walks.{Walk, begin, extend}
use drey.Traverse.{Hop, GraphPath, ShortestPathOptions}
use drey.Traverse.Chains.{root, Chain-Walk, walk_back-Chain}
use drey.Traverse.Search.{Prev, Bfs, reconstruct, discover_each, exhausted, search, bfs_path}
use drey.Traverse.Discover.{
  takes, unseen-length, Way, Searching, measure, Closed, discover_each-Searching,
  discover_each-measure, discover_each-Closed, discover_each-sees,
}

or_false_of : (b : Bool) → (b || false) ≡ true → b ≡ true
or_false_of true h = refl
or_false_of false h = h

module _ (as_f32 : ℕ → ℕ) (s : Store) (opts : ShortestPathOptions) (type_ids : Option (List ℕ))
    (start goal : ℕ) (agree : EdgesAgree s) where
  -- The walk to the goal with these stacks.
  abbrev pub walked : List ℕ → List ℕ → GraphPath
  walked ns es = record {
    nodes = bottom_up (goal ∷ ns);
    edges = bottom_up es;
    cost = as_f32 (length (bottom_up es));
  }

  abbrev pub allows : ℕ → ℕ → ℕ → Bool
  allows = takes as_f32 s opts type_ids start goal agree

  -- A search returns a walk to the goal, or nothing; and nothing without a budget only where there
  -- is no walk.
  data Searched : Result (Option GraphPath) → Type 0 where
    reached :
        (ns es : List ℕ) → Walk allows start (goal ∷ ns) es → Searched (ok (some (walked ns es)))
    missed :
        (opts.max_steps ≡ none → (ns es : List ℕ) → ¬ Walk allows start (goal ∷ ns) es)
        → Searched (ok none)

  abbrev State : Bfs → Type 0
  State b =
      Searching as_f32 s opts type_ids start goal agree b
      × Closed as_f32 s opts type_ids start goal agree (λ y. false) b

  -- With an empty queue the nodes that were seen are closed under steps.
  walk-seen :
      (b : Bfs)
      → State b
      → b.q ≡ []
      → (y : ℕ) (ns es : List ℕ) → Walk allows start (y ∷ ns) es
      → contains b.seen y ≡ true
  unfolding Closed contains
  walk-seen b (h, c) empty y ns es begin = h.started
  walk-seen b (h, c) empty y ns es (extend n e m ns' es' w t) =
      let before = walk-seen b (h, c) empty n ns' es' w in
      let (away, all) = c n before refl (ap (λ q. contains q n) empty) in all e m t

  no-walk : (b : Bfs) → State b → b.q ≡ [] → (ns es : List ℕ) → ¬ Walk allows start (goal ∷ ns) es
  unfolding Closed contains
  no-walk b (h, c) empty ns es w =
      let seen_goal = walk-seen b (h, c) empty goal ns es w in
      let (away, all) = c goal seen_goal refl (ap (λ q. contains q goal) empty) in
      ground (arith, away, ==_refl goal)

  reconstruct-Searched :
      (prev : Prev)
      → Way as_f32 s opts type_ids start goal agree prev goal
      → Searched (and_then (reconstruct as_f32 start goal prev) (λ p. ok (some p)))
  unfolding reconstruct
  reconstruct-Searched prev w =
      let back =
        walk_back-Chain allows start (suc (length prev)) prev goal w.nodes w.edges [] [] w.chain
          (omega (arith, w.short)) in
      let found : reconstruct as_f32 start goal prev ≡ ok (walked w.nodes w.edges) =
        rw (back, append-nil (bottom_up (goal ∷ w.nodes)), append-nil (bottom_up w.edges)) refl in
      rw found (reached w.nodes w.edges (Chain-Walk allows start prev goal w.nodes w.edges w.chain))

  -- The state after a round that visits the steps of `cur`.
  round-State :
      (cur : ℕ) (q : List ℕ) (hops : List Hop) (b : Bfs) (n : ℕ)
      → State b
      → b.q ≡ cur ∷ q
      → (cur == goal) ≡ false
      → ((e m : ℕ) → offers hops e m ≡ allows cur e m)
      → State (discover_each cur hops (record b { q = q; steps = n }))
        × (measure as_f32 s opts type_ids start goal agree
              (discover_each cur hops (record b { q = q; steps = n }))
            < measure as_f32 s opts type_ids start goal agree b)
  unfolding Closed contains
  round-State cur q hops b n (h, c) front away all =
      let b' : Bfs = record b { q = q; steps = n } in
      let in_q : (y : ℕ) → contains b.q y ≡ (cur == y || contains q y) =
        λ y. ap (λ xs. contains xs y) front in
      let seen_cur = h.queued cur (ground (arith, in_q cur, ==_refl cur)) in
      let steps_ok : (e m : ℕ) → offers hops e m ≡ true → allows cur e m ≡ true =
        λ e m o. sym (all e m) ∙ o in
      let h' : Searching as_f32 s opts type_ids start goal agree b' = record {
        started = h.started;
        way = h.way;
        fresh = h.fresh;
        queued = λ y y_in. h.queued y (ground (arith, in_q y, y_in));
      } in
      let c' : Closed as_f32 s opts type_ids start goal agree (λ y. cur == y) b' =
        λ y seen_y free out. c y seen_y refl (ground (arith, in_q y, free, out)) in
      let ahead =
        discover_each-Closed as_f32 s opts type_ids start goal agree cur hops (λ y. cur == y) b'
          c' in
      let size =
        discover_each-measure as_f32 s opts type_ids start goal agree cur hops b' steps_ok in
      (
        (
          discover_each-Searching as_f32 s opts type_ids start goal agree cur hops b' h' seen_cur
              steps_ok,
          λ y seen_y free out. elim (Bool-cases (cur == y)) [
            | inl same ↦
                let p : cur ≡ y = (==_iff cur y).0 same in
                (
                  ap (λ x. x == goal) (sym p) ∙ away,
                  λ e m t.
                      discover_each-sees as_f32 s opts type_ids start goal agree cur hops b' e m
                        (all e m ∙ (ap (λ x. allows x e m) p ∙ t)),
                )
            | inr other ↦ ahead y seen_y other out
          ],
        ),
        omega (arith, size, ap length front),
      )

  exhausted_of_none : opts.max_steps ≡ none → (n : ℕ) → exhausted opts.max_steps n ≡ false
  exhausted_of_none free n = rw free refl

  -- One round.
  search-round :
      (fuel : ℕ) (b : Bfs)
      → State b
      → measure as_f32 s opts type_ids start goal agree b < suc fuel
      → ((b' : Bfs)
          → State b'
          → measure as_f32 s opts type_ids start goal agree b' < fuel
          → Searched (search as_f32 s opts type_ids start goal fuel b'))
      → Searched (search as_f32 s opts type_ids start goal (suc fuel) b)
  unfolding search contains
  search-round fuel b (h, c) enough later = go b.q refl
    where
      go : (q : List ℕ) → b.q ≡ q → Searched (search as_f32 s opts type_ids start goal (suc fuel) b)
      go [] front = rw front (missed (λ _. no-walk b (h, c) front))
      go (cur ∷ q) front = elim (Bool-cases (cur == goal)) [
        | inl here ↦
            rw (front, here)
              (reconstruct-Searched b.prev (
                subst (Way as_f32 s opts type_ids start goal agree b.prev)
                  ((==_iff cur goal).0 here)
                  (h.way cur (h.queued cur (rw front ground (arith, ==_refl cur))))))
        | inr away ↦ elim (Bool-cases (exhausted opts.max_steps (suc b.steps))) [
          | inl stop ↦
              rw (front, away, stop)
                (missed
                  (λ free. absurd (ground (arith, stop, exhausted_of_none free (suc b.steps)))))
          | inr more ↦
              let next = steps-Hops s agree type_ids opts.min_weight cur opts.direction in
              let (st, less) =
                round-State cur q next.hops b (suc b.steps) (h, c) front away next.offered in
              rw (front, away, more, next.returned) (later _ st (omega (arith, less, enough)))
        ]
      ]

  search-Searched :
      (fuel : ℕ) (b : Bfs)
      → State b
      → measure as_f32 s opts type_ids start goal agree b < fuel
      → Searched (search as_f32 s opts type_ids start goal fuel b)
  search-Searched zero b st enough = absurd (omega arith)
  search-Searched (suc fuel) b st enough =
      search-round fuel b st enough (λ b' st' less. search-Searched fuel b' st' less)

  abbrev first : Bfs
  first = record { prev = []; seen = start ∷ []; q = start ∷ []; steps = 0 }

  first-State : State first
  unfolding Closed contains get
  first-State = (
    record {
      started = ground (arith, ==_refl start);
      way = λ y seen_y.
          let here : start ≡ y = (==_iff start y).0 (or_false_of (start == y) seen_y) in
          subst (Way as_f32 s opts type_ids start goal agree []) here
            (record { nodes = []; edges = []; chain = root; short = omega arith });
      fresh = λ y unseen_y. refl;
      queued = λ y in_q. in_q;
    },
    λ y seen_y free out. absurd (ground (arith, seen_y, out)),
  )

  bfs_path-Searched : Searched (bfs_path as_f32 s opts type_ids start goal)
  unfolding bfs_path
  bfs_path-Searched =
      search-Searched (length s.nodes + 2) first first-State
        (omega (arith, unseen-length (start ∷ []) s.nodes))

  -- What a search may return: nothing, or a walk to the goal.
  pub data Returned : Result (Option GraphPath) → Type 0 where
    nothing : Returned (ok none)
    found :
        (ns es : List ℕ) → Walk allows start (goal ∷ ns) es → Returned (ok (some (walked ns es)))

  -- On a store whose indexes agree with its edges, `bfs_path` ends within its fuel and does not
  -- panic, `reconstruct` included. It returns nothing, or the nodes and edges of a walk from the
  -- start to the goal by edges that the options allow.
  pub bfs_path-Returned : Returned (bfs_path as_f32 s opts type_ids start goal)
  bfs_path-Returned = go bfs_path-Searched
    where
      go : {r : Result (Option GraphPath)} → Searched r → Returned r
      go (reached ns es w) = found ns es w
      go (missed h) = nothing

  -- On a store whose indexes agree with its edges and without a budget, where a walk from the
  -- start to the goal by edges that the options allow exists, `bfs_path` returns such a walk.
  pub bfs_path-Walk :
      (ns es : List ℕ)
      → opts.max_steps ≡ none
      → Walk allows start (goal ∷ ns) es
      → (ns' es' : List ℕ) × (bfs_path as_f32 s opts type_ids start goal
          ≡ ok (some (walked ns' es')))
        × Walk allows start (goal ∷ ns') es'
  bfs_path-Walk ns es free w = go bfs_path-Searched
    where
      go :
          {r : Result (Option GraphPath)}
          → Searched r
          → (ns' es' : List ℕ) × (r ≡ ok (some (walked ns' es')))
            × Walk allows start (goal ∷ ns') es'
      go (reached ns' es' w') = (ns', es', refl, w')
      go (missed h) = absurd (h free ns es w)
