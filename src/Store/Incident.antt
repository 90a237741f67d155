-- ===== src/Store/Incident.antt =====
-- The edges at a node: `incident_edges` lists exactly those, and `remove_edges` removes them all.
use drey.Prelude.{
  ℕ, ◌≡◌, ◌∙◌, sym, refl, Bool, true, false, ◌||◌, Option, none, some, List, [], ◌∷◌, ◌++◌, ◌==◌,
  ==_refl, is_some, arith, if◌then◌else◌, Option-cases, Bool-cases, inl, inr,
}
use drey.Prelude.Membership.{contains, distinct, contains-append, contains-dedup-sort}
use drey.Ord.{nat_ord, nat_lawful, =?_iff}
use drey.Map.{get, get_or}
use drey.Map.Keys.{sorted, get-above}
use drey.Map.Laws.{get-remove, get_of_eq}
use drey.Error.{ok}
use drey.Records.{EdgeRecord}
use drey.Index.{Buckets}
use drey.Index.Buckets.{holds, listed}
use drey.Store.{Store}
use drey.Store.Edges.{all_ids, edges_at, incident_edges, remove_edge, remove_edges, drop_edge}
use drey.Store.Consistent.{EdgesAgree}
use drey.Store.EdgeLaws.{drop_edge-EdgesAgree}

-- Some bucket of the map holds the id.
abbrev Somewhere : Buckets → ℕ → Type 0
Somewhere m e = (t : ℕ) × (holds m t e ≡ true)

Somewhere-of_contains :
    (m : Buckets) (e : ℕ) → sorted m ≡ true → contains (all_ids m) e ≡ true → Somewhere m e
unfolding all_ids holds contains get
Somewhere-of_contains [] e s h = absurd (ground arith)
Somewhere-of_contains ((t, ids) ∷ m) e s h = elim (Bool-cases (contains ids e)) [
  | inl here ↦ (t, ground arith)
  | inr there ↦
      let in_rest : contains (all_ids m) e ≡ true =
        ground (arith, contains-append ids (all_ids m) e) in
      let (u, held) = Somewhere-of_contains m e (ground arith) in_rest in
      (u, ground (arith, get-above t m (ground arith), get_of_eq m t u))
]

contains_of_holds : (m : Buckets) (t e : ℕ) → holds m t e ≡ true → contains (all_ids m) e ≡ true
unfolding all_ids holds contains get
contains_of_holds [] t e h = absurd (ground arith)
contains_of_holds ((u, ids) ∷ m) t e h =
    ground (arith, contains_of_holds m t e, contains-append ids (all_ids m) e)

-- An edge that touches the node.
abbrev pub touches : Option EdgeRecord → ℕ → Bool
touches none n = false
touches (some r) n = r.source == n || r.target == n

module _ (s : Store) (h : EdgesAgree s) (node : ℕ) where
  touches_of_contains :
      (e : ℕ) → contains (incident_edges s node) e ≡ true → touches (get s.edges e) node ≡ true
  unfolding incident_edges listed
  touches_of_contains e c =
      let out = edges_at s.out_adj node in
      let inn = edges_at s.in_adj node in
      let both : (contains out e || contains inn e) ≡ true =
        sym (contains-append out inn e) ∙ (sym (contains-dedup-sort (out ++ inn) e) ∙ c) in
      elim (Bool-cases (contains out e)) [
        | inl o ↦
            let (t, held) =
              Somewhere-of_contains (get_or s.out_adj node []) e (h.out_sorted node) o in
            ground (arith, h.outbound node t e)
        | inr o ↦
            let i : contains inn e ≡ true = ground arith in
            let (t, held) =
              Somewhere-of_contains (get_or s.in_adj node []) e (h.in_sorted node) i in
            ground (arith, h.inbound node t e)
      ]

  contains_of_touches :
      (e : ℕ) → touches (get s.edges e) node ≡ true → contains (incident_edges s node) e ≡ true
  unfolding incident_edges listed
  contains_of_touches e c = elim (Option-cases (get s.edges e)) [
    | inl absent ↦ absurd (ground arith)
    | inr (r, there) ↦
        let out = edges_at s.out_adj node in
        let inn = edges_at s.in_adj node in
        let both : (contains out e || contains inn e) ≡ true = ground (
          arith,
          contains_of_holds (get_or s.out_adj node []) r.edge_type e,
          contains_of_holds (get_or s.in_adj node []) r.edge_type e,
          h.outbound node r.edge_type e,
          h.inbound node r.edge_type e,
        ) in
        contains-dedup-sort (out ++ inn) e ∙ (contains-append out inn e ∙ both)
  ]

  -- On a store whose indexes agree with its edges, the edges that `incident_edges` collects from
  -- the adjacency of a node are exactly the recorded edges with an end at it.
  pub contains-incident_edges :
      (e : ℕ) → contains (incident_edges s node) e ≡ touches (get s.edges e) node
  contains-incident_edges e = ground (arith, touches_of_contains e, contains_of_touches e)

-- What the removal of the edges `es` leaves.
pub record Without (es : List ℕ) (s s' : Store) : Type 0 where
  pub edges : (e : ℕ) → get s'.edges e ≡ (if contains es e then none else get s.edges e)
  pub agree : EdgesAgree s'
  pub rest : s' ≡ record s {
    edges = s'.edges;
    out_adj = s'.out_adj;
    in_adj = s'.in_adj;
    edges_by_type = s'.edges_by_type;
  }

-- Distinct edges that are there are all removed, and no call fails.
pub remove_edges_lem :
    (es : List ℕ) (s : Store)
    → EdgesAgree s
    → distinct es ≡ true
    → ((e : ℕ) → contains es e ≡ true → is_some (get s.edges e) ≡ true)
    → (s' : Store) × (remove_edges es s ≡ (s', ok tt)) × Without es s s'
unfolding remove_edges contains
remove_edges_lem [] s h d live = (s, refl, record { edges = λ e. refl; agree = h; rest = refl })
remove_edges_lem (e ∷ es) s h d live = elim (Option-cases (get s.edges e)) [
  | inl absent ↦ absurd (ground (arith, live e, ==_refl e))
  | inr (rec, there) ↦
      let t = drop_edge e rec s in
      let (s', run, w) =
        remove_edges_lem es t (drop_edge-EdgesAgree s e rec there h) (ground arith)
          (λ j c. unfold drop_edge in ground (arith, get-remove s.edges e j, live j, =?_iff e j)) in
      (
        s',
        simp (there, remove_edge) run,
        record {
          edges = λ j. unfold drop_edge in ground (arith, w.edges j, get-remove s.edges e j);
          agree = w.agree;
          rest = unfold drop_edge in w.rest;
        },
      )
]
