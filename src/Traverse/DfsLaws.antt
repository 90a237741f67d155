-- ===== src/Traverse/DfsLaws.antt =====
-- What `traverse` of drey/src/traverse.rs returns: bounded walks, and not more than were asked for.
use drey.Prelude.{
  ℕ, zero, suc, ◌+◌, ◌≤◌, ◌<◌, ◌≡◌, refl, sym, ap, ◌∙◌, Bool, true, false, not, ◌&&◌, ◌||◌, Option,
  some, List, [], ◌∷◌, ◌++◌, leb, ==_refl, length, length-append, arith, if◌then◌else◌, unwrap_or,
  Bool-cases, inl, inr,
}
use drey.Prelude.Membership.{contains, retain_ne, distinct}
use drey.Error.{Exec, ok}
use drey.Ord.{nat_ord}
use drey.Store.{Store}
use drey.Map.{get}
use drey.Store.Consistent.{EdgesAgree}
use drey.Traverse.Offers.{offers}
use drey.Traverse.Steps.{allowed, steps-Hops}
use drey.Traverse.{Hop, GraphPath, TraversalOptions, steps}
use drey.Traverse.Dfs.{
  Dfs, top, forbids_revisit, enter, leave, full, this_path, report, visit_each, dfs,
}
use drey.Traverse.Walks.{Walk, begin, extend, PathOk, AllOk, AllOk-snoc}

implied : (b c : Bool) → (b ≡ true → c ≡ true) → (not b || c) ≡ true
implied true c h = h refl
implied false c h = refl

retain_ne-absent : (v : ℕ) (xs : List ℕ) → contains xs v ≡ false → retain_ne v xs ≡ xs
unfolding contains retain_ne
retain_ne-absent v [] h = refl
retain_ne-absent v (x ∷ xs) h = ground (arith, retain_ne-absent v xs)

-- What is popped is what was pushed.
leave-enter :
    (e m : ℕ) (d : Dfs) (ps : List GraphPath)
    → leave (not (contains d.on_path m)) m (record (enter (e, m) d) { paths = ps })
      ≡ record d { paths = ps }
unfolding retain_ne
leave-enter e m d ps = elim (Bool-cases (contains d.on_path m)) [
  | inl on ↦ simp on refl
  | inr off ↦ simp (off, ==_refl m, retain_ne-absent m d.on_path off) refl
]

module _ (as_f32 : ℕ → ℕ) (s : Store) (opts : TraversalOptions) (type_ids : Option (List ℕ))
    (start : ℕ) (agree : EdgesAgree s) where
  -- The hop `e` from `n` to `m` is one that the options allow.
  abbrev pub good : ℕ → ℕ → ℕ → Bool
  good n e m = allowed opts.direction type_ids opts.min_weight n (get s.edges e) m

  abbrev budget : ℕ
  budget = unwrap_or opts.max_hops 0

  abbrev Collected : List GraphPath → Type 0
  Collected ps =
      AllOk as_f32 good start budget (forbids_revisit opts.cycle_policy) ps
      × (length ps ≤ opts.max_paths)

  -- The state at a call of `dfs`.
  pub record Ready (d : Dfs) : Type 0 where
    pub walk : Walk good start d.nodes_stack d.edges_stack
    pub bounded : length d.edges_stack ≤ budget
    pub on_path_is : (x : ℕ) → contains d.on_path x ≡ contains d.nodes_stack x
    pub no_repeat : forbids_revisit opts.cycle_policy ≡ true → distinct d.nodes_stack ≡ true
    pub collected : Collected d.paths

  -- What a call does: it returns, with the stacks as they were, and more paths.
  pub record Explores (run : Exec Dfs (Unit {0})) (d : Dfs) : Type 0 where
    pub found : List GraphPath
    pub ran : run d ≡ (record d { paths = found }, ok tt)
    pub collected : Collected found

  -- The stacks with one more hop.
  enter-Ready :
      (e m n : ℕ) (ns : List ℕ) (d : Dfs)
      → Ready d
      → d.nodes_stack ≡ n ∷ ns
      → good n e m ≡ true
      → length d.edges_stack < budget
      → (forbids_revisit opts.cycle_policy && contains d.on_path m) ≡ false
      → Ready (enter (e, m) d)
  unfolding contains
  enter-Ready e m n ns d r top here room fresh = record {
    walk =
        let below : Walk good start (n ∷ ns) d.edges_stack = rw (← top) r.walk in
        rw top (extend n e m ns d.edges_stack below here);
    bounded = omega (arith, room);
    on_path_is = λ x. ground (arith, r.on_path_is x, r.on_path_is m);
    no_repeat = λ h. ground (arith, r.on_path_is m, r.no_repeat h, fresh);
    collected = r.collected;
  }

  Ready-paths :
      (d : Dfs) (ps : List GraphPath) → Ready d → Collected ps → Ready (record d { paths = ps })
  Ready-paths d ps r c = record {
    walk = r.walk;
    bounded = r.bounded;
    on_path_is = r.on_path_is;
    no_repeat = r.no_repeat;
    collected = c;
  }

  visit_each-cons :
      (visit : Exec Dfs (Unit {0})) (e m : ℕ) (hops : List Hop) (d : Dfs) (found : List GraphPath)
      → (forbids_revisit opts.cycle_policy && contains d.on_path m) ≡ false
      → visit (enter (e, m) d) ≡ (record (enter (e, m) d) { paths = found }, ok tt)
      → visit_each as_f32 s opts type_ids visit ((e, m) ∷ hops) d ≡ (
          if full as_f32 s opts type_ids (record d { paths = found })
          then (record d { paths = found }, ok tt)
          else visit_each as_f32 s opts type_ids visit hops (record d { paths = found }))
  unfolding visit_each
  visit_each-cons visit e m hops d found fresh run =
      let d' : Dfs = record d { paths = found } in
      rw (fresh, run, leave-enter e m d found)
        (elim (Bool-cases (full as_f32 s opts type_ids d')) [
          | inl stop ↦ rw stop refl
          | inr more ↦ rw more refl
        ])

  visit_each-Explores :
      (visit : Exec Dfs (Unit {0})) (hops : List Hop) (n : ℕ) (ns : List ℕ) (d : Dfs)
      → Ready d
      → d.nodes_stack ≡ n ∷ ns
      → ((e m : ℕ) → offers hops e m ≡ true → good n e m ≡ true)
      → length d.edges_stack < budget
      → ((d' : Dfs)
          → Ready d'
          → length d'.edges_stack ≡ suc (length d.edges_stack)
          → Explores visit d')
      → Explores (visit_each as_f32 s opts type_ids visit hops) d
  unfolding visit_each
  visit_each-Explores visit [] n ns d r top sub room go = record {
    found = d.paths;
    ran = refl;
    collected = r.collected;
  }
  visit_each-Explores visit ((e, m) ∷ hops) n ns d r top sub room go =
      elim (Bool-cases (forbids_revisit opts.cycle_policy && contains d.on_path m)) [
        | inl skip ↦
            let rest =
              visit_each-Explores visit hops n ns d r top (λ e' m' h. sub e' m' (ground arith)) room
                go in
            record { found = rest.found; ran = simp skip rest.ran; collected = rest.collected }
        | inr fresh ↦
            let here : good n e m ≡ true = sub e m (ground (arith, ==_refl e, ==_refl m)) in
            let x = go (enter (e, m) d) (enter-Ready e m n ns d r top here room fresh) refl in
            let cons = visit_each-cons visit e m hops d x.found fresh x.ran in
            let d' : Dfs = record d { paths = x.found } in
            elim (Bool-cases (full as_f32 s opts type_ids d')) [
              | inl stop ↦ record {
                found = x.found;
                ran = cons ∙ rw stop refl;
                collected = x.collected;
              }
              | inr more ↦
                  let rest =
                    visit_each-Explores visit hops n ns d' (Ready-paths d x.found r x.collected) top
                      (λ e' m' h. sub e' m' (ground arith)) room go in
                  record {
                    found = rest.found;
                    ran = cons ∙ rw more rest.ran;
                    collected = rest.collected;
                  }
            ]
      ]

  this_path-PathOk :
      (d : Dfs)
      → Ready d
      → 0 < length d.edges_stack
      → PathOk as_f32 good start budget
          (forbids_revisit opts.cycle_policy)
          (this_path as_f32 s opts type_ids d)
  this_path-PathOk d r h = record {
    node_stack = d.nodes_stack;
    edge_stack = d.edges_stack;
    nodes_are = refl;
    edges_are = refl;
    cost_is = refl;
    walk = r.walk;
    some_edge = h;
    bounded = r.bounded;
    no_repeat = implied (forbids_revisit opts.cycle_policy) (distinct d.nodes_stack) r.no_repeat;
  }

  report-Collected :
      (d : Dfs)
      → Ready d
      → full as_f32 s opts type_ids d ≡ false
      → Collected (report as_f32 s opts type_ids d).paths
  report-Collected d r h = go d.edges_stack refl
    where
      go :
          (es : List ℕ)
          → d.edges_stack ≡ es
          → Collected (elim es [
            | [] ↦ d.paths
            | _ ∷ _ ↦ d.paths ++ this_path as_f32 s opts type_ids d ∷ []
          ])
      go [] e = r.collected
      go (x ∷ es) e =
          let p = this_path as_f32 s opts type_ids d in
          let long : 0 < length d.edges_stack = omega (arith, ap length e) in
          (
            AllOk-snoc as_f32 good start budget (forbids_revisit opts.cycle_policy) d.paths p
                r.collected.0 (this_path-PathOk d r long),
            ground (arith, length-append d.paths (p ∷ [])),
          )

  Walk-top : (ns es : List ℕ) → Walk good start ns es → (n : ℕ) × (ns' : List ℕ) × (ns ≡ n ∷ ns')
  Walk-top ns es begin = (start, [], refl)
  Walk-top ns es (extend n e m ns' es' w h) = (m, n ∷ ns', refl)

  -- Where no test ends the call, it visits the steps out of the top node.
  dfs-descends :
      (fuel : ℕ) (d : Dfs) (n : ℕ) (hops : List Hop)
      → full as_f32 s opts type_ids d ≡ false
      → full as_f32 s opts type_ids (report as_f32 s opts type_ids d) ≡ false
      → leb budget (length d.edges_stack) ≡ false
      → top d.nodes_stack ≡ some n
      → steps s n opts.direction type_ids opts.min_weight ≡ ok hops
      → dfs as_f32 s opts type_ids (suc fuel) d
        ≡ visit_each as_f32 s opts type_ids
            (dfs as_f32 s opts type_ids fuel)
            hops
            (report as_f32 s opts type_ids d)
  unfolding dfs
  dfs-descends fuel d n hops more more' room top_is step =
      simp (more, more', room, top_is, step) refl

  pub dfs-Explores :
      (fuel : ℕ) (d : Dfs)
      → Ready d
      → budget < fuel + length d.edges_stack
      → Explores (dfs as_f32 s opts type_ids fuel) d
  unfolding dfs
  dfs-Explores zero d r enough = absurd (omega (arith, r.bounded))
  dfs-Explores (suc fuel) d r enough =
      let d' = report as_f32 s opts type_ids d in
      elim (Bool-cases (full as_f32 s opts type_ids d)) [
        | inl stop ↦ record { found = d.paths; ran = rw stop refl; collected = r.collected }
        | inr more ↦
            let c = report-Collected d r more in
            elim (Bool-cases (full as_f32 s opts type_ids d')) [
              | inl stop ↦ record { found = d'.paths; ran = rw (more, stop) refl; collected = c }
              | inr more' ↦ elim (Bool-cases (leb budget (length d.edges_stack))) [
                | inl deep ↦ record {
                  found = d'.paths;
                  ran = rw (more, more', deep) refl;
                  collected = c;
                }
                | inr room ↦
                    let (n, ns, top_is) = Walk-top d.nodes_stack d.edges_stack r.walk in
                    let next = steps-Hops s agree type_ids opts.min_weight n opts.direction in
                    let rest =
                      visit_each-Explores (dfs as_f32 s opts type_ids fuel) next.hops n ns d'
                        (Ready-paths d d'.paths r c) top_is (λ e m h. sym (next.offered e m) ∙ h)
                        (ground (arith, room))
                        (λ x ready one. dfs-Explores fuel x ready (omega (arith, enough, one))) in
                    record {
                      found = rest.found;
                      ran =
                          dfs-descends fuel d n next.hops more more' room (ap top top_is)
                            next.returned
                          ∙ rest.ran;
                      collected = rest.collected;
                    }
              ]
            ]
      ]
