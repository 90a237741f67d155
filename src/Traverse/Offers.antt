-- ===== src/Traverse/Offers.antt =====
-- What the loops of `steps` of drey/src/traverse.rs over buckets and edges offer.
use drey.Prelude.{
  ℕ, ◌≡◌, refl, sym, ap, ◌∙◌, Bool, true, false, not, ◌&&◌, ◌||◌, Option, none, some, List, [], ◌∷◌,
  ◌++◌, ◌==◌, ==_refl, ==_iff, is_some, arith, if◌then◌else◌, Option-cases, Bool-cases, inl, inr,
}
use drey.Prelude.Membership.{contains, distinct}
use drey.Error.{Result, ok}
use drey.Ord.{nat_ord, nat_lawful, ◌=?◌, =?_iff}
use drey.Map.{get}
use drey.Map.Keys.{sorted, get-above}
use drey.Map.Laws.{get_of_eq}
use drey.Records.{EdgeRecord}
use drey.Index.{Buckets}
use drey.Index.Buckets.{holds}
use drey.Index.Distinct.{DistinctBuckets}
use drey.Store.{Store}
use drey.Traverse.{Hop, wanted, too_light, hop_of, hops_of_edges, hops_of_types}

-- The hop stands among the hops.
abbrev pub offers : List Hop → ℕ → ℕ → Bool
offers [] e m = false
offers ((e', m') ∷ hops) e m = e' == e && m' == m || offers hops e m

pub offers-append :
    (xs ys : List Hop) (e m : ℕ) → offers (xs ++ ys) e m ≡ (offers xs e m || offers ys e m)
offers-append [] ys e m = refl
offers-append (x ∷ xs) ys e m = ground (arith, offers-append xs ys e m)

-- No hop stands among the hops behind it.
abbrev pub once : List Hop → Bool
once [] = true
once ((e, m) ∷ hops) = not (offers hops e m) && once hops

pub once-append :
    (xs ys : List Hop)
    → once xs ≡ true
    → once ys ≡ true
    → ((e m : ℕ) → offers xs e m ≡ true → offers ys e m ≡ false)
    → once (xs ++ ys) ≡ true
once-append [] ys h k apart = k
once-append ((e, m) ∷ xs) ys h k apart =
    let rest =
      once-append xs ys (ground (arith, h)) k (λ e' m' o. apart e' m' (ground (arith, o))) in
    ground
      (arith, h, rest, offers-append xs ys e m, apart e m (ground (arith, ==_refl e, ==_refl m)))

or_false : (b : Bool) → (b || false) ≡ b
or_false true = refl
or_false false = refl

-- Some bucket of a wanted type holds the edge.
abbrev pub any_wanted : Option (List ℕ) → Buckets → ℕ → Bool
any_wanted type_ids [] e = false
any_wanted type_ids ((t, es) ∷ m) e = wanted type_ids t && contains es e || any_wanted type_ids m e

pub wanted_of_eq :
    (type_ids : Option (List ℕ)) (t u : ℕ) → (t =? u) ≡ true → wanted type_ids t ≡ wanted type_ids u
wanted_of_eq type_ids t u h = ap (wanted type_ids) ((=?_iff t u).0 h)

pub any_wanted_of_holds :
    (type_ids : Option (List ℕ)) (m : Buckets) (t e : ℕ)
    → holds m t e ≡ true
    → wanted type_ids t ≡ true
    → any_wanted type_ids m e ≡ true
unfolding holds contains get
any_wanted_of_holds type_ids [] t e h w = absurd (ground arith)
any_wanted_of_holds type_ids ((u, ids) ∷ m) t e h w =
    ground (arith, any_wanted_of_holds type_ids m t e, wanted_of_eq type_ids u t)

pub holds_of_any_wanted :
    (type_ids : Option (List ℕ)) (m : Buckets) (e : ℕ)
    → sorted m ≡ true
    → any_wanted type_ids m e ≡ true
    → (t : ℕ) × (holds m t e ≡ true) × (wanted type_ids t ≡ true)
unfolding holds contains get
holds_of_any_wanted type_ids [] e s h = absurd (ground arith)
holds_of_any_wanted type_ids ((t, ids) ∷ m) e s h =
    elim (Bool-cases (wanted type_ids t && contains ids e)) [
      | inl here ↦ (t, ground arith, ground arith)
      | inr there ↦
          let (u, held, w) = holds_of_any_wanted type_ids m e (ground arith) (ground arith) in
          (u, ground (arith, get-above t m (ground arith), get_of_eq m t u), w)
    ]

any_wanted-none :
    (type_ids : Option (List ℕ)) (m : Buckets) (e : ℕ)
    → any_wanted none m e ≡ false
    → any_wanted type_ids m e ≡ false
any_wanted-none type_ids [] e h = refl
any_wanted-none type_ids ((t, es) ∷ m) e h = ground (arith, any_wanted-none type_ids m e, h)

-- No edge stands twice in the buckets.
abbrev pub Apart : Buckets → Type 0
Apart [] = Unit {0}
Apart ((t, es) ∷ m) =
    (distinct es ≡ true) × ((e : ℕ) → contains es e ≡ true → any_wanted none m e ≡ false) × Apart m

pub Apart-of_sorted :
    (m : Buckets)
    → sorted m ≡ true
    → DistinctBuckets m
    → ((t u e : ℕ) → holds m t e ≡ true → holds m u e ≡ true → (t == u) ≡ true)
    → Apart m
unfolding holds contains get
Apart-of_sorted [] s d one_type = tt
Apart-of_sorted ((t, es) ∷ m) s d one_type = (
  ground (arith, d t, ==_refl t),
  (λ e h. elim (Bool-cases (any_wanted none m e)) [
    | inr free ↦ free
    | inl again ↦
        let (u, held, w) = holds_of_any_wanted none m e (ground (arith, s)) again in
        absurd (
          ground (
            arith,
            held,
            get-above t m (ground (arith, s)),
            get_of_eq m t u,
            one_type t u e,
            h,
            ==_refl t,
          ))
  ]),
  Apart-of_sorted m (ground (arith, s))
      (λ u. ground (arith, d u, get-above t m (ground (arith, s)), get_of_eq m t u))
      (λ u v e h k.
        one_type u v e (ground (arith, h, get-above t m (ground (arith, s)), get_of_eq m t u))
          (ground (arith, k, get-above t m (ground (arith, s)), get_of_eq m t v))),
)

-- The hops that a call returns, each of them once.
pub record Hops (r : Result (List Hop)) (good : ℕ → ℕ → Bool) : Type 0 where
  pub hops : List Hop
  pub returned : r ≡ ok hops
  pub offered : (e m : ℕ) → offers hops e m ≡ good e m
  pub no_repeat : once hops ≡ true

module _ (s : Store) (min_weight : Option ℕ) (take_to skip : Bool) where
  -- What an edge contributes.
  abbrev kept : Option EdgeRecord → ℕ → ℕ → Bool
  kept none e m = false
  kept (some rec) e m = offers (hop_of s min_weight take_to skip e rec) e m

  pub offers-hop_of :
      (e : ℕ) (rec : EdgeRecord) (m : ℕ)
      → offers (hop_of s min_weight take_to skip e rec) e m ≡ (
          not (skip && rec.source == rec.target)
          && (not (too_light min_weight rec.weight)
              && (if take_to then rec.target else rec.source) == m))
  offers-hop_of e rec m = elim (Bool-cases (skip && rec.source == rec.target)) [
    | inl loop ↦ rw loop refl
    | inr apart ↦ elim (Bool-cases (too_light min_weight rec.weight)) [
      | inl light ↦ rw (apart, light) refl
      | inr heavy ↦
          rw (apart, heavy, ==_refl e)
            (or_false ((if take_to then rec.target else rec.source) == m))
    ]
  ]

  elsewhere :
      (e : ℕ) (rec : EdgeRecord) (e' m : ℕ)
      → (e == e') ≡ false
      → offers (hop_of s min_weight take_to skip e rec) e' m ≡ false
  elsewhere e rec e' m h = elim (Bool-cases (skip && rec.source == rec.target)) [
    | inl loop ↦ rw loop refl
    | inr _ ↦ elim (Bool-cases (too_light min_weight rec.weight)) [
      | inl light ↦ ground arith
      | inr _ ↦ ground arith
    ]
  ]

  kept-hop_of :
      (e : ℕ) (rec : EdgeRecord) (e' m : ℕ)
      → get s.edges e ≡ some rec
      → offers (hop_of s min_weight take_to skip e rec) e' m
        ≡ (e == e' && kept (get s.edges e') e' m)
  kept-hop_of e rec e' m h = elim (Bool-cases (e == e')) [
    | inl same ↦
        let p : e ≡ e' = (==_iff e e').0 same in
        let there : get s.edges e' ≡ some rec = ap (get s.edges) (sym p) ∙ h in
        rw (same, there) (ap (λ x. offers (hop_of s min_weight take_to skip x rec) e' m) p)
    | inr other ↦ rw other (elsewhere e rec e' m other)
  ]

  once-hop_of : (e : ℕ) (rec : EdgeRecord) → once (hop_of s min_weight take_to skip e rec) ≡ true
  once-hop_of e rec = elim (Bool-cases (skip && rec.source == rec.target)) [
    | inl loop ↦ rw loop refl
    | inr apart ↦ elim (Bool-cases (too_light min_weight rec.weight)) [
      | inl light ↦ rw (apart, light) refl
      | inr heavy ↦ rw (apart, heavy) refl
    ]
  ]

  hops_of_edges-cons :
      (e : ℕ) (es : List ℕ) (rec : EdgeRecord) (hops : List Hop)
      → get s.edges e ≡ some rec
      → hops_of_edges s min_weight take_to skip es ≡ ok hops
      → hops_of_edges s min_weight take_to skip (e ∷ es)
        ≡ ok (hop_of s min_weight take_to skip e rec ++ hops)
  unfolding hops_of_edges
  hops_of_edges-cons e es rec hops h k = rw (hops_of_edges, h, k) refl

  hops_of_edges-Hops :
      (es : List ℕ)
      → ((e : ℕ) → contains es e ≡ true → is_some (get s.edges e) ≡ true)
      → distinct es ≡ true
      → Hops
          (hops_of_edges s min_weight take_to skip es)
          (λ e m. contains es e && kept (get s.edges e) e m)
  unfolding hops_of_edges contains
  hops_of_edges-Hops [] live d = record {
    hops = [];
    returned = refl;
    offered = λ e m. refl;
    no_repeat = refl;
  }
  hops_of_edges-Hops (e ∷ es) live d = elim (Option-cases (get s.edges e)) [
    | inl absent ↦ absurd (ground (arith, live e, ==_refl e))
    | inr (rec, there) ↦
        let rest = hops_of_edges-Hops es (λ e' h. live e' (ground arith)) (ground (arith, d)) in
        record {
          hops = hop_of s min_weight take_to skip e rec ++ rest.hops;
          returned = hops_of_edges-cons e es rec rest.hops there rest.returned;
          offered = λ e' m.
              offers-append (hop_of s min_weight take_to skip e rec) rest.hops e' m
              ∙ ground (arith, kept-hop_of e rec e' m there, rest.offered e' m);
          no_repeat =
              once-append (hop_of s min_weight take_to skip e rec) rest.hops (once-hop_of e rec)
                rest.no_repeat
                (λ e' m o.
                  ground (
                    arith,
                    o,
                    d,
                    kept-hop_of e rec e' m there,
                    rest.offered e' m,
                    (==_iff e e').0,
                  ));
        }
  ]

  pub hops_of_types-Hops :
      (type_ids : Option (List ℕ)) (m : Buckets)
      → ((e : ℕ) → any_wanted none m e ≡ true → is_some (get s.edges e) ≡ true)
      → Apart m
      → Hops
          (hops_of_types s min_weight take_to skip type_ids m)
          (λ e n. any_wanted type_ids m e && kept (get s.edges e) e n)
  unfolding hops_of_types contains
  hops_of_types-Hops type_ids [] live a = record {
    hops = [];
    returned = refl;
    offered = λ e m. refl;
    no_repeat = refl;
  }
  hops_of_types-Hops type_ids ((t, es) ∷ m) live (d, apart, a) =
      let first = hops_of_edges-Hops es (λ e h. live e (ground arith)) d in
      let rest = hops_of_types-Hops type_ids m (λ e h. live e (ground arith)) a in
      elim (Bool-cases (wanted type_ids t)) [
        | inl w ↦ record {
          hops = first.hops ++ rest.hops;
          returned = rw (w, first.returned, rest.returned) refl;
          offered = λ e n.
              offers-append first.hops rest.hops e n
              ∙ ground (arith, first.offered e n, rest.offered e n);
          no_repeat = once-append first.hops rest.hops first.no_repeat rest.no_repeat (λ e n o.
              ground (
                arith,
                o,
                first.offered e n,
                rest.offered e n,
                apart e,
                any_wanted-none type_ids m e,
              ));
        }
        | inr w ↦ record {
          hops = rest.hops;
          returned = rw (w, rest.returned) refl;
          offered = λ e n. ground (arith, rest.offered e n);
          no_repeat = rest.no_repeat;
        }
      ]
