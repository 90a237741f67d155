-- ===== src/Persist/Load/Loops.antt =====
-- The loops of `load_snapshot` of drey/src/persist/mod.rs over the declarations, the nodes and the edges
-- keep the store in agreement.
use drey.Prelude.{
  ℕ, zero, suc, ◌≡◌, refl, Bool, true, false, not, Option, none, some, [], leb, ltb, ◌==◌, arith,
  Option-cases, inl, inr,
}
use drey.Error.{Exec, lift, pure, ok, codec, ◌>>=◌}
use drey.Ord.{nat_ord, text_ord, pair_ord, nat_lawful}
use drey.Runs.{Runs, Runs-bind, Runs-then, ends, Runs-lift, Runs-ok_or, Runs-require}
use drey.Float.{is_finite32}
use drey.Map.{get, insert, contains_key}
use drey.Map.Laws.{get-insert}
use drey.Records.{NodeRecord, EdgeRecord}
use drey.Interner
use drey.Interner.{Interner, fill, from_labels}
use drey.Config.{GraphConfig}
use drey.Store.{Store, validate_properties, validate_weight}
use drey.Store.Consistent.{EmbeddingOk}
use drey.Store.Nodes.{declare}
use drey.Store.Load.{insert_node_raw, insert_edge_raw}
use drey.Graph.{validate_embedding_dim}
use drey.Codec.Reader
use drey.Codec.Reader.{Reader, remaining}
use drey.Codec.Records.{read_node_record, read_edge_record}
use drey.Persist.Load.{
  times, type_count, read_dim, load_declaration, load_indexed, check_embedding, Counted, max_of,
  left_by, load_node, load_edge, as_codec,
}
use drey.Persist.Load.Sound.{
  Sound, put_raw, insert_node_raw-label, label_of_count, check_embedding-ok, declare-Sound,
  index-Sound, node-Sound, edge-Sound,
}

pub times-Runs {ℓ ν} :
    {A : Type ℓ} (P : A → Type ν) (body : A → Exec Reader A)
    → ((a : A) (r : Reader) → P a → Runs (λ _ a'. P a') (body a r))
    → (n : ℕ) (a : A) (r : Reader) → P a
    → Runs (λ _ a'. P a') (times n body a r)
unfolding times
times-Runs P body step zero a r p = ends r a p
times-Runs P body step (suc n) a r p =
    Runs-then (λ _ a'. P a') (λ _ a'. P a') (body a r) (times n body) (step a r p)
      (λ r' a' p'. times-Runs P body step n a' r' p')

-- The ids of a table are at most the greatest so far.
abbrev pub below : Option ℕ → ℕ → Bool
below none n = false
below (some m) n = leb n m

weight_finite : (w : ℕ) {u : Unit {0}} → as_codec (validate_weight w) ≡ ok u → is_finite32 w ≡ true
unfolding validate_weight
weight_finite w h = go (is_finite32 w) refl
  where
    go : (b : Bool) → is_finite32 w ≡ b → is_finite32 w ≡ true
    go true e = e
    go false e = absurd (ground (arith, e, h))

below_max : (top : Option ℕ) (id m : ℕ) → below top m ≡ true → below (some (max_of top id)) m ≡ true
below_max none id m h = absurd (ground arith)
below_max (some k) id m h = ground (arith, h)

below_id : (top : Option ℕ) (id m : ℕ) → (id == m) ≡ true → below (some (max_of top id)) m ≡ true
below_id none id m h = ground arith
below_id (some k) id m h = ground arith

module _ (nt et : Interner) (nn ne : ℕ) where
  abbrev pub NodesBelow : Store → Option ℕ → Type 0
  NodesBelow s top = (n : ℕ) (r : NodeRecord) → get s.nodes n ≡ some r → below top n ≡ true

  abbrev pub EdgesBelow : Store → Option ℕ → Type 0
  EdgesBelow s top = (e : ℕ) (r : EdgeRecord) → get s.edges e ≡ some r → below top e ≡ true

  abbrev pub Bare : Store → Type 0
  Bare s = Sound nt et nn ne s × (s.nodes ≡ []) × (s.edges ≡ [])

  abbrev pub NodesLoaded : Counted → Type 0
  NodesLoaded (s, top) = Sound nt et nn ne s × NodesBelow s top × (s.edges ≡ [])

  abbrev pub EdgesLoaded : Option ℕ → Counted → Type 0
  EdgesLoaded last (s, top) = Sound nt et nn ne s × NodesBelow s last × EdgesBelow s top

  pub load_declaration-Bare :
      (config : GraphConfig) (s : Store) (r : Reader)
      → Bare s
      → Runs (λ _ s'. Bare s') (load_declaration config s r)
  unfolding load_declaration declare
  load_declaration-Bare config s r (h, n, e) =
      let post : Reader → Store → Type 0 = λ _ s'. Bare s' in
      Runs-bind post Reader.u32 _ r (λ r tid. Runs-bind post read_dim _ r (λ r dim.
        Runs-require post (ltb tid (type_count s.node_types)) codec _ (λ known.
          Runs-lift post (validate_embedding_dim config dim) _ (λ _ _.
            Runs-require post (not (contains_key s.embedding_dim tid)) codec _ (λ new.
              ends r (declare tid dim s)
                (declare-Sound nt et nn ne s tid dim known (ground (arith, new)) h, n, e))))))

  pub load_indexed-Bare :
      (s : Store) (r : Reader) → Bare s → Runs (λ _ s'. Bare s') (load_indexed s r)
  unfolding load_indexed
  load_indexed-Bare s r (h, n, e) =
      let post : Reader → Store → Type 0 = λ _ s'. Bare s' in
      Runs-bind post Reader.str _ r (λ r t. Runs-bind post Reader.str _ r (λ r k.
        ends r (record s { indexed = insert s.indexed (t, k) tt })
          (
            index-Sound nt et nn ne s (record s { indexed = insert s.indexed (t, k) tt }) n h,
            n,
            e,
          )))

  pub load_node-NodesLoaded :
      (x : Counted) (r : Reader) → NodesLoaded x → Runs (λ _ y. NodesLoaded y) (load_node x r)
  unfolding load_node
  load_node-NodesLoaded (s, top) r (h, n, e) =
      let post : Reader → Counted → Type 0 = λ _ y. NodesLoaded y in
      Runs-bind post Reader.u64 _ r (λ r id. Runs-bind post read_node_record _ r (λ r rec.
        Runs-require post (ltb rec.node_type (type_count s.node_types)) codec _ (λ known.
          Runs-ok_or post (get s.embedding_dim rec.node_type) codec _ (λ declared is.
            Runs-lift post (check_embedding declared rec.embedding) _ (λ _ fits.
              Runs-lift post (as_codec (validate_properties rec.properties)) _ (λ _ _.
                Runs-require post (not (contains_key s.nodes id)) codec _
                  (λ new. inserted r id rec known declared is fits (ground (arith, new)))))))))
    where
      inserted :
          (r : Reader) (id : ℕ) (rec : NodeRecord)
          → ltb rec.node_type (type_count s.node_types) ≡ true
          → (declared : Option ℕ) → get s.embedding_dim rec.node_type ≡ some declared
          → check_embedding declared rec.embedding ≡ ok tt
          → get s.nodes id ≡ none
          → Runs
              (λ _ y. NodesLoaded y)
              ((lift (left_by (insert_node_raw id rec s)) >>= λ s'. pure (s', some (max_of top id)))
                r)
      inserted r id rec known declared is fits new =
          elim (Option-cases (Interner.label s.node_types rec.node_type)) [
            | inl unlabelled ↦
                absurd (ground (arith, label_of_count s.node_types rec.node_type known, unlabelled))
            | inr (label, named) ↦
                let fits' : EmbeddingOk (get s.embedding_dim rec.node_type) rec.embedding =
                  rw is (check_embedding-ok declared rec.embedding fits) in
                let sound =
                  node-Sound nt et nn ne s id rec label new named (ground (arith, is)) fits' h in
                rw (insert_node_raw-label s id rec label named) (
                  ends r (put_raw id rec label s, some (max_of top id))
                    (
                      sound,
                      (λ m q g. ground (
                        arith,
                        get-insert s.nodes id m rec,
                        below_max top id m,
                        below_id top id m,
                        n m q,
                      )),
                      e,
                    ))
          ]

  pub load_edge-EdgesLoaded :
      (last : Option ℕ) (x : Counted) (r : Reader)
      → EdgesLoaded last x
      → Runs (λ _ y. EdgesLoaded last y) (load_edge x r)
  unfolding load_edge
  load_edge-EdgesLoaded last (s, top) r (h, n, b) =
      let post : Reader → Counted → Type 0 = λ _ y. EdgesLoaded last y in
      Runs-bind post Reader.u64 _ r (λ r id. Runs-bind post read_edge_record _ r (λ r rec.
        Runs-require post (ltb rec.edge_type (type_count s.edge_types)) codec _ (λ known.
          Runs-require post (contains_key s.nodes rec.source) codec _ (λ source_there.
            Runs-require post (contains_key s.nodes rec.target) codec _ (λ target_there.
              Runs-lift post (as_codec (validate_weight rec.weight)) _ (λ _ finite.
                Runs-lift post (as_codec (validate_properties rec.properties)) _ (λ _ _.
                  Runs-require post (not (contains_key s.edges id)) codec _ (λ new.
                    ends r (insert_edge_raw id rec s, some (max_of top id))
                      (
                        edge-Sound nt et nn ne s id rec (ground (arith, new)) source_there
                            target_there known (weight_finite rec.weight finite) h,
                        unfold insert_edge_raw in n,
                        unfold insert_edge_raw in
                            (λ m q g. ground (
                              arith,
                              get-insert s.edges id m rec,
                              below_max top id m,
                              below_id top id m,
                              b m q,
                            )),
                      )))))))))
