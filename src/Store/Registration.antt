-- ===== src/Store/Registration.antt =====
-- `register_node_type`: a conflicting declaration is refused and changes nothing, although the
-- label is interned before the declarations are compared.
use drey.Prelude.{
  ℕ, ◌^◌, ◌<◌, ◌≡◌, refl, true, false, not, Option, none, some, is_some, arith, length, get_elem?,
  ap, get_elem?-lt, Option-cases, inl, inr,
}
use drey.Error.{Error, returns, invalid_node_type}
use drey.Atomic.{Atomic, done, Atomic-require, Atomic-lift}
use drey.Ord.{Text, nat_ord, nat_lawful}
use drey.Map.{get, contains_key}
use drey.Map.Laws.{get-insert}
use drey.Interner
use drey.Interner.Laws.{intern_old, intern_new, intern_lem}
use drey.Store.{Store, validate_label}
use drey.Store.Nodes.{intern_node_type, conflicts, declare, register_node_type}
use drey.Store.Consistent.{NodesAgree, IsConsistent}
use drey.Store.NodeLaws.{
  declare-NodesAgree, intern-NodesAgree, declaration_kept, EdgesAgree-more_nodes,
}

pub validate_label-returns : (label : Text) (e : Error) → returns (validate_label label e) ≡ true
unfolding validate_label
validate_label-returns label e = ground arith

-- The label has an id, the id has the dimension, and every declaration that was there stands.
pub record TypeRegistered (label : Text) (dim : Option ℕ) (s s' : Store) : Type 0 where
  pub consistent : IsConsistent s'
  pub id : ℕ
  pub named : Interner.get s'.node_types label ≡ some id
  pub declared : get s'.embedding_dim id ≡ some dim
  pub kept :
      (t : ℕ)
      → contains_key s.embedding_dim t ≡ true
      → get s'.embedding_dim t ≡ get s.embedding_dim t
  pub nodes_kept : s'.nodes ≡ s.nodes
  pub edges_kept : s'.edges ≡ s.edges

-- A position behind the labels has no label.
no_label : (it : Interner.Interner) → is_some (Interner.label it (length it.labels)) ≡ false
unfolding Interner.label
no_label it = elim (Option-cases (get_elem? it.labels (length it.labels))) [
  | inl nothing ↦ ground arith
  | inr (l, found) ↦ absurd (omega (arith, get_elem?-lt it.labels (length it.labels) found))
]

undeclared : (s : Store) → NodesAgree s → get s.embedding_dim (length s.node_types.labels) ≡ none
undeclared s h = elim (Option-cases (get s.embedding_dim (length s.node_types.labels))) [
  | inl nothing ↦ nothing
  | inr (d, found) ↦
      absurd (ground (arith, h.declared (length s.node_types.labels), no_label s.node_types))
]

abbrev interned : Store → Text → Store
interned s label = record s { node_types = (Interner.intern s.node_types label).0 }

-- What is declared once the label is interned, if it does not conflict.
declare_lem :
    (s : Store) (label : Text) (dim : Option ℕ) (id : ℕ)
    → length s.node_types.labels < 2 ^ 32
    → IsConsistent s
    → (Interner.intern s.node_types label).1 ≡ id
    → conflicts (get s.embedding_dim id) dim ≡ false
    → TypeRegistered label dim s (declare id dim (interned s label))
unfolding declare
declare_lem s label dim id room c e free =
    let i = intern_lem s.node_types label c.nodes_agree.labels room in
    let named = rw e at i.label_id in
    let t = interned s label in
    record {
      consistent = record {
        nodes_agree =
            declare-NodesAgree t id dim free (ground arith)
              (intern-NodesAgree s label room c.nodes_agree);
        edges_agree = EdgesAgree-more_nodes s (declare id dim t) c.edges_agree (λ n m. m);
      };
      id = id;
      named = rw e at i.get_id;
      declared = ground (arith, get-insert s.embedding_dim id id dim);
      kept = λ u d. declaration_kept s id dim free u d;
      nodes_kept = refl;
      edges_kept = refl;
    }

pub register_node_type_lem :
    (label : Text) (dim : Option ℕ) (s : Store)
    → length s.node_types.labels < 2 ^ 32
    → IsConsistent s
    → Atomic s (λ s' _. TypeRegistered label dim s s') (register_node_type label dim s)
unfolding register_node_type intern_node_type
register_node_type_lem label dim s room c =
    Atomic-lift _ (validate_label label invalid_node_type) _ (validate_label-returns label _)
      λ u fits. elim (Option-cases (Interner.get s.node_types label)) [
        | inl new ↦
            let e = intern_new s.node_types label new room in
            let free : conflicts (get s.embedding_dim (length s.node_types.labels)) dim ≡ false =
              rw (undeclared s c.nodes_agree) (unfold conflicts in refl) in
            let p =
              declare_lem s label dim (length s.node_types.labels) room c
                (ap (λ (r : Interner.Interner × ℕ). r.1) e) free in
            rw (e, free) (done _ tt (rw e at p))
        | inr (id, old) ↦
            let e = intern_old s.node_types label old in
            rw e (
              Atomic-require _ (not (conflicts (get s.embedding_dim id) dim)) _ _ λ free.
                let p =
                  declare_lem s label dim id room c (ap (λ (r : Interner.Interner × ℕ). r.1) e)
                    (ground arith) in
                done _ tt (rw e at p))
      ]
