-- ===== src/Traverse/Steps.antt =====
-- `steps` of drey/src/traverse.rs against the recorded edges.
use drey.Prelude.{
  ℕ, ◌≡◌, refl, sym, ap, ◌∙◌, Bool, true, false, not, ◌&&◌, ◌||◌, Option, none, some, List, [],
  ◌++◌, ◌==◌, ==_refl, is_some, arith, Option-cases, Bool-cases, inl, inr,
}
use drey.Ord.{nat_ord, nat_lawful}
use drey.Map.{get, get_or}
use drey.Map.Keys.{sorted}
use drey.Types.{Direction, outbound, inbound, both}
use drey.Records.{EdgeRecord}
use drey.Index.{Buckets, Adjacency}
use drey.Index.Buckets.{holds, listed}
use drey.Store.{Store}
use drey.Store.Consistent.{EdgesAgree}
use drey.Traverse.{wanted, too_light, hop_of, push_from, steps}
use drey.Index.Distinct.{DistinctBuckets}
use drey.Traverse.Offers.{
  once-append, Apart-of_sorted, offers, Hops, offers-append, wanted_of_eq, any_wanted_of_holds,
  holds_of_any_wanted, hops_of_types-Hops, offers-hop_of, any_wanted,
}

-- An edge that `steps` is to take from `n` to `m`.
abbrev pub joins : Direction → EdgeRecord → ℕ → ℕ → Bool
joins outbound rec n m = rec.source == n && rec.target == m
joins inbound rec n m = rec.target == n && rec.source == m
joins both rec n m = rec.source == n && rec.target == m || rec.target == n && rec.source == m

abbrev pub allowed : Direction → Option (List ℕ) → Option ℕ → ℕ → Option EdgeRecord → ℕ → Bool
allowed direction type_ids min_weight n none m = false
allowed direction type_ids min_weight n (some rec) m =
    joins direction rec n m
    && (wanted type_ids rec.edge_type && not (too_light min_weight rec.weight))

-- Where a bucket map lists an edge under its one type.
any_wanted-at :
    (types : Option (List ℕ)) (m : Buckets) (here : Bool) (u e : ℕ)
    → sorted m ≡ true
    → ((t : ℕ) → holds m t e ≡ (here && u == t))
    → any_wanted types m e ≡ (here && wanted types u)
any_wanted-at types m here u e ordered at = elim (Bool-cases (any_wanted types m e)) [
  | inl found ↦
      let (t, held, w) = holds_of_any_wanted types m e ordered found in
      ground (arith, at t, wanted_of_eq types u t, held, w, found)
  | inr missed ↦ ground (arith, at u, ==_refl u, any_wanted_of_holds types m u e, missed)
]

module _ (s : Store) (min_weight : Option ℕ) (take_to skip : Bool) (adj : Adjacency) (n : ℕ)
    (here : EdgeRecord → Bool) where
  -- The adjacency lists an edge under its type where the test holds.
  abbrev lists : Option EdgeRecord → ℕ → Bool
  lists none t = false
  lists (some rec) t = here rec && rec.edge_type == t

  abbrev pushed : Option (List ℕ) → Option EdgeRecord → ℕ → ℕ → Bool
  pushed type_ids none e m = false
  pushed type_ids (some rec) e m =
      here rec
      && wanted type_ids rec.edge_type
      && offers (hop_of s min_weight take_to skip e rec) e m

  module _ (ordered : sorted (get_or adj n []) ≡ true) (alone : DistinctBuckets (get_or adj n []))
      (index : (t e : ℕ) → listed adj n t e ≡ lists (get s.edges e) t) where
    one_type :
        (t u e : ℕ)
        → holds (get_or adj n []) t e ≡ true
        → holds (get_or adj n []) u e ≡ true
        → (t == u) ≡ true
    unfolding listed
    one_type t u e h k = elim (Option-cases (get s.edges e)) [
      | inl absent ↦ absurd (ground (arith, h, index t e, ap (λ o. lists o t) absent))
      | inr (rec, there) ↦
          ground (
            arith,
            h,
            k,
            index t e,
            index u e,
            ap (λ o. lists o t) there,
            ap (λ o. lists o u) there,
          )
    ]

    any_wanted-listed :
        (types : Option (List ℕ)) (e : ℕ) (rec : EdgeRecord)
        → get s.edges e ≡ some rec
        → any_wanted types (get_or adj n []) e ≡ (here rec && wanted types rec.edge_type)
    unfolding listed
    any_wanted-listed types e rec there =
        any_wanted-at types (get_or adj n []) (here rec) rec.edge_type e ordered
          (λ t. index t e ∙ ap (λ o. lists o t) there)

    any_wanted-absent :
        (types : Option (List ℕ)) (e : ℕ)
        → get s.edges e ≡ none
        → any_wanted types (get_or adj n []) e ≡ false
    unfolding listed
    any_wanted-absent types e absent =
        any_wanted-at types (get_or adj n []) false 0 e ordered
          (λ t. index t e ∙ ap (λ o. lists o t) absent)

    listed-live :
        (e : ℕ) → any_wanted none (get_or adj n []) e ≡ true → is_some (get s.edges e) ≡ true
    listed-live e h = elim (Option-cases (get s.edges e)) [
      | inl absent ↦ absurd (ground (arith, any_wanted-absent none e absent, h))
      | inr (rec, there) ↦ rw there refl
    ]

    push_from-Hops :
        (type_ids : Option (List ℕ))
        → Hops
            (push_from s min_weight take_to skip type_ids adj n)
            (λ e m. pushed type_ids (get s.edges e) e m)
    unfolding push_from
    push_from-Hops type_ids =
        let x =
          hops_of_types-Hops s min_weight take_to skip type_ids (get_or adj n []) listed-live
            (Apart-of_sorted (get_or adj n []) ordered alone one_type) in
        record {
          hops = x.hops;
          returned = x.returned;
          offered = λ e m. x.offered e m ∙ elim (Option-cases (get s.edges e)) [
            | inl absent ↦ rw (absent, any_wanted-absent type_ids e absent) refl
            | inr (rec, there) ↦ rw (there, any_wanted-listed type_ids e rec there) refl
          ];
          no_repeat = x.no_repeat;
        }

module _ (s : Store) (h : EdgesAgree s) (type_ids : Option (List ℕ)) (min_weight : Option ℕ)
    (n : ℕ) where
  out_index :
      (t e : ℕ)
      → listed s.out_adj n t e
        ≡ lists s min_weight true false s.out_adj n (λ r. r.source == n) (get s.edges e) t
  out_index t e =
      h.outbound n t e
      ∙ elim (Option-cases (get s.edges e)) [ inl a ↦ rw a refl | inr (r, a) ↦ rw a refl ]

  in_index :
      (skip : Bool) (t e : ℕ)
      → listed s.in_adj n t e
        ≡ lists s min_weight false skip s.in_adj n (λ r. r.target == n) (get s.edges e) t
  in_index skip t e =
      h.inbound n t e
      ∙ elim (Option-cases (get s.edges e)) [ inl a ↦ rw a refl | inr (r, a) ↦ rw a refl ]

  pushed_out : Hops (push_from s min_weight true false type_ids s.out_adj n) (λ e m.
      pushed s min_weight true false s.out_adj n (λ r. r.source == n) type_ids (get s.edges e) e m)
  pushed_out =
      push_from-Hops s min_weight true false s.out_adj n (λ r. r.source == n) (h.out_sorted n)
        (h.out_distinct n) out_index type_ids

  pushed_in :
      (skip : Bool)
      → Hops (push_from s min_weight false skip type_ids s.in_adj n) (λ e m.
        pushed s min_weight false skip s.in_adj n (λ r. r.target == n) type_ids (get s.edges e) e m)
  pushed_in skip =
      push_from-Hops s min_weight false skip s.in_adj n (λ r. r.target == n) (h.in_sorted n)
        (h.in_distinct n) (in_index skip) type_ids

  abbrev pushed_by : Bool → Bool → (EdgeRecord → Bool) → Option EdgeRecord → ℕ → ℕ → Bool
  pushed_by take_to skip here o e m =
      pushed s min_weight take_to skip s.out_adj n here type_ids o e m

  allowed_outbound :
      (o : Option EdgeRecord) (e m : ℕ)
      → pushed_by true false (λ r. r.source == n) o e m ≡ allowed outbound type_ids min_weight n o m
  allowed_outbound none e m = refl
  allowed_outbound (some rec) e m = rw (offers-hop_of s min_weight true false e rec m) ground arith

  allowed_inbound :
      (o : Option EdgeRecord) (e m : ℕ)
      → pushed_by false false (λ r. r.target == n) o e m ≡ allowed inbound type_ids min_weight n o m
  allowed_inbound none e m = refl
  allowed_inbound (some rec) e m = rw (offers-hop_of s min_weight false false e rec m) ground arith

  allowed_both :
      (o : Option EdgeRecord) (e m : ℕ)
      → (pushed_by true false (λ r. r.source == n) o e m
          || pushed_by false true (λ r. r.target == n) o e m)
        ≡ allowed both type_ids min_weight n o m
  allowed_both none e m = refl
  allowed_both (some rec) e m =
      rw
        (
          offers-hop_of s min_weight true false e rec m,
          offers-hop_of s min_weight false true e rec m,
        )
        ground arith

  -- A self-loop is taken from the outbound side alone.
  sides_apart :
      (o : Option EdgeRecord) (e m : ℕ)
      → pushed_by true false (λ r. r.source == n) o e m ≡ true
      → pushed_by false true (λ r. r.target == n) o e m ≡ false
  sides_apart none e m p = refl
  sides_apart (some rec) e m p =
      rw (offers-hop_of s min_weight false true e rec m)
        (ground (arith, p, offers-hop_of s min_weight true false e rec m))

  pub steps-Hops :
      (direction : Direction)
      → Hops
          (steps s n direction type_ids min_weight)
          (λ e m. allowed direction type_ids min_weight n (get s.edges e) m)
  unfolding steps
  steps-Hops outbound = record {
    hops = pushed_out.hops;
    returned = pushed_out.returned;
    offered = λ e m. pushed_out.offered e m ∙ allowed_outbound (get s.edges e) e m;
    no_repeat = pushed_out.no_repeat;
  }
  steps-Hops inbound = record {
    hops = (pushed_in false).hops;
    returned = (pushed_in false).returned;
    offered = λ e m. (pushed_in false).offered e m ∙ allowed_inbound (get s.edges e) e m;
    no_repeat = (pushed_in false).no_repeat;
  }
  steps-Hops both = record {
    hops = pushed_out.hops ++ (pushed_in true).hops;
    returned = rw (pushed_out.returned, (pushed_in true).returned) refl;
    offered = λ e m.
        offers-append pushed_out.hops (pushed_in true).hops e m
        ∙ rw (pushed_out.offered e m, (pushed_in true).offered e m)
            (allowed_both (get s.edges e) e m);
    no_repeat =
        once-append pushed_out.hops (pushed_in true).hops pushed_out.no_repeat
          (pushed_in true).no_repeat
          (λ e m o.
            (pushed_in true).offered e m
            ∙ sides_apart (get s.edges e) e m (sym (pushed_out.offered e m) ∙ o));
  }
