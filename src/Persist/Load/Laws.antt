-- ===== src/Persist/Load/Laws.antt =====
-- What `load_snapshot` of drey/src/persist/mod.rs returns is a store in agreement.
use drey.Prelude.{
  ℕ, ◌^◌, ◌<◌, ◌≡◌, refl, sym, ap, true, Option, none, some, List, [], leb, ◌==◌, length, arith,
}
use drey.Prelude.Membership.{contains}
use drey.Error.{Result, lift, pure, gets, and_then, ok, err, panic, codec}
use drey.Ord.{Text, nat_ord, text_ord, pair_ord, nat_lawful}
use drey.Runs.{Runs, Runs-ok, Runs-bind, Runs-then, ends, errs, panics, Runs-lift, Runs-require}
use drey.Map.{Map, get}
use drey.Interner.{Interner, fill, from_labels}
use drey.Interner.Laws.{IsValid}
use drey.Interner.Load.{from_labels-IsValid}
use drey.Index.Buckets.{holds, listed}
use drey.Config.{GraphConfig}
use drey.Index.{Indexed}
use drey.Store.{Store}
use drey.Store.Consistent.{IsConsistent, IsAllocated}
use drey.Codec.Reader
use drey.Codec.Reader.{Reader, remaining}
use drey.Persist.Load.{times, load_declaration, load_indexed, load_node, load_edge}
use drey.Persist.Load.{
  load_body, load_records, tables, load_image, load_snapshot, read_labels, check_allocator,
  snapshot_header, checksum_matches,
}
use drey.Store.PropIndexed.{PropsIndexed}
use drey.Persist.Load.Sound.{none_of_nil}
use drey.Persist.Load.Loops.{
  times-Runs, below, NodesBelow, EdgesBelow, Bare, NodesLoaded, EdgesLoaded, load_declaration-Bare,
  load_indexed-Bare, load_node-NodesLoaded, load_edge-EdgesLoaded,
}

checked-below :
    (next : ℕ) (top : Option ℕ) (n : ℕ)
    → check_allocator next top ≡ ok tt
    → below top n ≡ true
    → n < next
unfolding check_allocator
checked-below next none n h k = absurd (ground arith)
checked-below next (some top) n h k = ground (arith, h)

-- What a loaded store is, where its tables of labels are in the range of the ids.
record Loaded (s : Store) : Type 0 where
  consistent :
      length s.node_types.labels < 2 ^ 32 → length s.edge_types.labels < 2 ^ 32 → IsConsistent s
  allocated : IsAllocated s
  props_indexed : PropsIndexed s

Loaded-of_tables :
    (nt et : Interner) (nn ne : ℕ) (s : Store) (last top : Option ℕ)
    → EdgesLoaded nt et nn ne last (s, top)
    → check_allocator nn last ≡ ok tt
    → check_allocator ne top ≡ ok tt
    → Loaded s
Loaded-of_tables nt et nn ne s last top (h, n, b) a k = record {
  consistent = λ x y. h.consistent (rw (← h.node_types_are) x) (rw (← h.edge_types_are) y);
  props_indexed = h.props_indexed;
  allocated = record {
    node_ids = λ m r g. rw h.next_node_is (checked-below nn last m a (n m r g));
    edge_ids = λ m r g. rw h.next_edge_is (checked-below ne top m k (b m r g));
  };
}

some_of_none : {A : Type 0} {a : A} → none ≡ some a → ⊥
some_of_none h = ground arith

-- A table of labels that was read.
abbrev Table : Interner → Type 0
Table i = length i.labels < 2 ^ 32 → IsValid i

labels-from_labels :
    (labels : List Text) (i : Interner) → from_labels labels ≡ ok i → i.labels ≡ labels
unfolding from_labels
labels-from_labels labels i h = go (fill 0 labels []) h
  where
    go :
        (x : Result (Map Text ℕ))
        → and_then x (λ index. ok (record { labels = labels; index = index })) ≡ ok i
        → i.labels ≡ labels
    go (err e) h = absurd (ground arith)
    go panic h = absurd (ground arith)
    go (ok index) h =
        let e : record { labels = labels; index = index } ≡ i = ground arith in
        sym (ap (λ (j : Interner). j.labels) e)

read_labels-Table : (r : Reader) → Runs (λ _ i. Table i) (read_labels r)
unfolding read_labels
read_labels-Table r =
    let post : Reader → Interner → Type 0 = λ _ i. Table i in
    Runs-bind post Reader.u32 _ r (λ r n. Runs-bind post (Reader.checked_len n 4) _ r (λ r n.
      Runs-bind post (Reader.repeat n Reader.str) _ r
        (λ r labels. table labels (from_labels labels) refl r)))
  where
    table :
        (labels : List Text) (x : Result Interner)
        → from_labels labels ≡ x
        → (r : Reader) → Runs (λ _ i. Table i) (lift x r)
    table labels (ok i) e r =
        let same = labels-from_labels labels i e in
        ends r i (λ few. (from_labels-IsValid labels i (rw (← same) few) e).0)
    table labels (err x) e r = errs r x
    table labels panic e r = panics r

tables-Bare :
    (base : Indexed) (nt et : Interner) (nn ne : ℕ)
    → Table nt
    → Table et
    → Bare nt et nn ne (tables base nt et nn ne)
unfolding get holds listed contains
tables-Bare base nt et nn ne v w = (
  record {
    node_types_are = refl;
    edge_types_are = refl;
    next_node_is = refl;
    next_edge_is = refl;
    props_indexed = λ n r h. absurd (some_of_none h);
    consistent = λ a b. record {
      nodes_agree = record {
        labelled = λ n r h. absurd (some_of_none h);
        registered = λ n r h. absurd (some_of_none h);
        embedded = λ n r h. absurd (some_of_none h);
        declared = λ t h. absurd (ground arith);
        by_type = λ t n. refl;
        labels = v a;
      };
      edges_agree = record {
        from_node = λ e r h. absurd (some_of_none h);
        to_node = λ e r h. absurd (some_of_none h);
        labelled = λ e r h. absurd (some_of_none h);
        finite = λ e r h. absurd (some_of_none h);
        outbound = λ n t e. refl;
        inbound = λ n t e. refl;
        by_type = λ t e. refl;
        out_sorted = λ n. refl;
        in_sorted = λ n. refl;
        out_distinct = λ n t. refl;
        in_distinct = λ n t. refl;
        labels = w b;
      };
    };
  },
  refl,
  refl,
)

load_records-Loaded :
    (nt et : Interner) (nn ne : ℕ) (s : Store) (r : Reader)
    → Bare nt et nn ne s
    → Runs (λ _ s. Loaded s) (load_records nn ne s r)
unfolding load_records
load_records-Loaded nt et nn ne s r (h, n, e) =
    let post : Reader → Store → Type 0 = λ _ s. Loaded s in
    let no_nodes : NodesBelow nt et nn ne s none = λ m q g. absurd (none_of_nil s.nodes m n g) in
    Runs-bind post Reader.u64 _ r (λ r c. Runs-bind post (Reader.checked_len c 17) _ r (λ r c.
      Runs-then (λ _ x. NodesLoaded nt et nn ne x) post (times c load_node (s, none) r) _
        (times-Runs (NodesLoaded nt et nn ne) load_node (load_node-NodesLoaded nt et nn ne) c
          (s, none) r (h, no_nodes, e))
        (λ r x loaded. Runs-bind post Reader.u64 _ r (λ r c.
          Runs-bind post (Reader.checked_len c 36) _ r (λ r c.
            let (h', b, e') = loaded in
            let no_edges : EdgesBelow nt et nn ne x.0 none =
              λ m q g. absurd (none_of_nil x.0.edges m e' g) in
            Runs-then (λ _ y. EdgesLoaded nt et nn ne x.1 y) post (times c load_edge (x.0, none) r)
              _
              (times-Runs (EdgesLoaded nt et nn ne x.1) load_edge
                (load_edge-EdgesLoaded nt et nn ne x.1) c (x.0, none) r (h', b, no_edges))
              (λ r y found. Runs-lift post (check_allocator nn x.1) _ (λ u above.
                Runs-lift post (check_allocator ne y.1) _ (λ u' above'.
                  Runs-bind post (gets remaining) _ r (λ r left.
                    Runs-require {s = r} post (left == 4) codec (pure y.0) (λ _.
                      ends r y.0
                        (Loaded-of_tables nt et nn ne y.0 x.1 y.1 found above above')))))))))))

load_body-Loaded :
    (config : GraphConfig) (base : Indexed) (r : Reader)
    → Runs (λ _ s. Loaded s) (load_body config base r)
unfolding load_body
load_body-Loaded config base r =
    let post : Reader → Store → Type 0 = λ _ s. Loaded s in
    Runs-bind post Reader.u64 _ r (λ r nn. Runs-bind post Reader.u64 _ r (λ r ne.
      Runs-then (λ _ i. Table i) post (read_labels r) _ (read_labels-Table r)
        (λ r nt nt_ok.
          Runs-then (λ _ i. Table i) post (read_labels r) _ (read_labels-Table r)
            (λ r et et_ok. Runs-bind post Reader.u32 _ r (λ r n.
              let s0 = tables base nt et nn ne in
              let bare0 = tables-Bare base nt et nn ne nt_ok et_ok in
              let step1 = load_declaration-Bare nt et nn ne config in
              Runs-then (λ _ s. Bare nt et nn ne s) post (times n (load_declaration config) s0 r) _
                (times-Runs (Bare nt et nn ne) (load_declaration config) step1 n s0 r bare0)
                (λ r s1 bare1. Runs-bind post Reader.u32 _ r (λ r n.
                  let step2 = load_indexed-Bare nt et nn ne in
                  Runs-then (λ _ s. Bare nt et nn ne s) post (times n load_indexed s1 r) _
                    (times-Runs (Bare nt et nn ne) load_indexed step2 n s1 r bare1)
                    (λ r s2 bare2. load_records-Loaded nt et nn ne s2 r bare2))))))))

load_image-Loaded :
    (bytes : List ℕ) (base : Indexed) (config : GraphConfig) (r : Reader)
    → Runs (λ _ x. Loaded x.0) (load_image bytes base config r)
unfolding load_image
load_image-Loaded bytes base config r =
    let post : Reader → Store × ℕ → Type 0 = λ _ x. Loaded x.0 in
    Runs-bind post snapshot_header _ r (λ r epoch.
      Runs-require post (leb 20 (length bytes)) codec _ (λ _.
        Runs-require post (checksum_matches bytes) codec _ (λ _.
          Runs-then (λ _ s. Loaded s) post (load_body config base r) _
            (load_body-Loaded config base r) (λ r s loaded. ends r (s, epoch) loaded))))

-- Where `load_snapshot` accepts an image, whatever its bytes, and the two tables of labels are
-- shorter than 2^32, the store that it returns is consistent: the records refer to what is there,
-- and the adjacencies and the lists by type agree with them. Its allocators stand above every id,
-- and its property index has each node, under each property that is indexed for its type and has a
-- scalar value, at a scalar that is equal in the order of the index.
pub load_snapshot-IsConsistent :
    (bytes : List ℕ) (base : Indexed) (config : GraphConfig) (s : Store) (epoch : ℕ)
    → load_snapshot bytes base config ≡ ok (s, epoch)
    → length s.node_types.labels < 2 ^ 32
    → length s.edge_types.labels < 2 ^ 32
    → IsConsistent s × IsAllocated s × PropsIndexed s
unfolding load_snapshot
load_snapshot-IsConsistent bytes base config s epoch h few few' =
    let x = load_image bytes base config (Reader.new bytes) in
    let result : x ≡ (x.0, ok (s, epoch)) = ap (λ y. (x.0, y)) h in
    let loaded =
      Runs-ok (load_image-Loaded bytes base config (Reader.new bytes)) x.0 (s, epoch) result in
    (loaded.consistent few few', loaded.allocated, loaded.props_indexed)
