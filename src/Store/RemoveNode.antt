-- ===== src/Store/RemoveNode.antt =====
-- `remove_node`: it refuses to orphan edges, or removes them with the node; in both modes it
-- fails before its first write or not at all.
use drey.Prelude.{
  ℕ, ◌≡◌, ◌∙◌, refl, sym, ap, Bool, true, false, Option, none, some, List, [], ◌∷◌, ◌++◌, ◌==◌,
  is_some, arith, if◌then◌else◌, Bool-cases, inl, inr,
}
use mathlib.Core.Path.{subst}
use drey.Prelude.Membership.{contains, distinct, distinct-dedup-sort}
use drey.Atomic.{Atomic, fails, done, Atomic-require, Atomic-bind}
use drey.Ord.{nat_ord, nat_lawful}
use drey.Map.{get, contains_key}
use drey.Map.Laws.{get-remove}
use drey.Records.{EdgeRecord}
use drey.Interner
use drey.Index.{is_empty}
use drey.Store.{Store}
use drey.Store.Edges.{edges_at, incident_edges, detach, drop_node, remove_node}
use drey.Store.Consistent.{NodesAgree, EdgesAgree, IsConsistent}
use drey.Store.NodeLaws.{NodesAgree-rest, drop_node-NodesAgree, drop_node-EdgesAgree}
use drey.Store.Incident.{touches, contains-incident_edges, Without, remove_edges_lem}
use drey.Store.NodeMethods.{some_of_is_some}

-- Every edge at the node is gone with it; every other record is as it was.
pub record NodeRemoved (node : ℕ) (remove_incident : Bool) (s s' : Store) : Type 0 where
  pub consistent : IsConsistent s'
  pub was_there : contains_key s.nodes node ≡ true
  pub nodes : (n : ℕ) → get s'.nodes n ≡ (if node == n then none else get s.nodes n)
  pub edges :
      (e : ℕ) → get s'.edges e ≡ (if touches (get s.edges e) node then none else get s.edges e)
  pub refused : remove_incident ≡ false → (e : ℕ) → touches (get s.edges e) node ≡ false

-- The edges that `detach` leaves, where it does not refuse.
record Detached (node : ℕ) (remove_incident : Bool) (s s' : Store) : Type 0 where
  without : Without (incident_edges s node) s s'
  refused : remove_incident ≡ false → (e : ℕ) → touches (get s.edges e) node ≡ false

distinct-incident_edges : (s : Store) (node : ℕ) → distinct (incident_edges s node) ≡ true
unfolding incident_edges
distinct-incident_edges s node =
    distinct-dedup-sort (edges_at s.out_adj node ++ edges_at s.in_adj node)

live_of_touches : (o : Option EdgeRecord) (n : ℕ) → touches o n ≡ true → is_some o ≡ true
live_of_touches none n h = absurd (ground arith)
live_of_touches (some r) n h = refl

nil_of_empty : (xs : List ℕ) → is_empty xs ≡ true → xs ≡ []
nil_of_empty [] h = refl
nil_of_empty (x ∷ xs) h = absurd (ground arith)

Without-nil : (s : Store) → EdgesAgree s → Without [] s s
Without-nil s h = record { edges = λ e. unfold contains in refl; agree = h; rest = refl }

detach_lem :
    (node : ℕ) (remove_incident : Bool) (s : Store)
    → EdgesAgree s
    → Atomic s
        (λ s' _. Detached node remove_incident s s')
        (detach node (incident_edges s node) remove_incident s)
unfolding detach
detach_lem node remove_incident s h =
    let es = incident_edges s node in
    let listed = contains-incident_edges s h node in
    let (s', run, w) =
      remove_edges_lem es s h (distinct-incident_edges s node)
        (λ e c. live_of_touches (get s.edges e) node (sym (listed e) ∙ c)) in
    elim (Bool-cases (is_empty es)) [
      | inl nothing ↦
          let none_there = nil_of_empty es nothing in
          rw nothing (
            done s tt (record {
              without = rw none_there (Without-nil s h);
              refused = λ m e.
                  sym (listed e)
                  ∙ ap (λ (xs : List ℕ). contains xs e) none_there
                  ∙ unfold contains in refl;
            }))
      | inr some_there ↦ elim (Bool-cases remove_incident) [
        | inl incident ↦
            rw (some_there, incident, run)
              (done s' tt (record { without = w; refused = λ m. absurd (ground arith) }))
        | inr reject ↦ rw (some_there, reject) (fails _)
      ]
    ]

pub remove_node_lem :
    (node : ℕ) (remove_incident : Bool) (s : Store)
    → IsConsistent s
    → Atomic s (λ s' _. NodeRemoved node remove_incident s s') (remove_node node remove_incident s)
unfolding remove_node
remove_node_lem node remove_incident s c = Atomic-require _ (contains_key s.nodes node) _ _ λ there.
    Atomic-bind _ (detach node (incident_edges s node) remove_incident) _
      (detach_lem node remove_incident s c.edges_agree)
      λ s' u d.
        let (rec, was) = some_of_is_some _ there in
        let (label, named) = some_of_is_some _ (c.nodes_agree.labelled node rec was) in
        let w = d.without in
        let t = record s {
          edges = s'.edges;
          out_adj = s'.out_adj;
          in_adj = s'.in_adj;
          edges_by_type = s'.edges_by_type;
        } in
        let here : get s'.nodes node ≡ some rec =
          ap (λ (x : Store). get x.nodes node) w.rest ∙ was in
        let named' : Interner.label s'.node_types rec.node_type ≡ some label =
          ap (λ (x : Store). Interner.label x.node_types rec.node_type) w.rest ∙ named in
        let listed = contains-incident_edges s c.edges_agree node in
        (
          drop_node node rec label s',
          tt,
          rw (here, named'),
          record {
            consistent = record {
              nodes_agree =
                  drop_node-NodesAgree s' node rec label here
                    (subst NodesAgree (sym w.rest) (NodesAgree-rest s t c.nodes_agree));
              edges_agree =
                  drop_node-EdgesAgree s' node rec label
                    (λ e r g. ground (arith, w.edges e, listed e)) w.agree;
            };
            was_there = there;
            nodes = λ n.
                unfold drop_node in
                ground
                  (arith, get-remove s'.nodes node n, ap (λ (x : Store). get x.nodes n) w.rest);
            edges = λ e. unfold drop_node in ground (arith, w.edges e, listed e);
            refused = d.refused;
          },
        )
