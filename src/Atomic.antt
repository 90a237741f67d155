-- ===== src/Atomic.antt =====
-- What a method promises: it does not panic, an error leaves the state as it was, and a success
-- meets a postcondition. The rules follow the code from call to call.
use drey.Prelude.{◌≡◌, refl, ap, Bool, true, false, Option, none, some, arith}
use mathlib.Core.Path.{subst₂}
use drey.Error.{
  Error, Result, ok, err, panic, Exec, lift, ok_or, unwrap, require, ◌>>=◌, ◌>>◌, follow, returns,
}

pub data Atomic {ℓ κ μ} {S : Type ℓ} {A : Type κ} (s : S) (Post : S → A → Type μ)
    : S × Result A → Type (ℓ ⊔ κ ⊔ μ) where
  fails : (e : Error) → Atomic s Post (s, err e)
  done : (s' : S) (a : A) → Post s' a → Atomic s Post (s', ok a)

module _ {ℓ μ ν} {S : Type ℓ} {B : Type μ} {s : S} (Post : S → B → Type ν) where
  pub Atomic-require :
      (test : Bool) (e : Error) (k : Exec S B)
      → (test ≡ true → Atomic s Post (k s))
      → Atomic s Post ((require test e >> k) s)
  Atomic-require true e k h = h refl
  Atomic-require false e k h = fails e

module _ {ℓ κ μ ν} {S : Type ℓ} {A : Type κ} {B : Type μ} {s : S} (Post : S → B → Type ν) where
  pub Atomic-lift :
      (r : Result A) (f : A → Exec S B)
      → returns r ≡ true
      → ((a : A) → r ≡ ok a → Atomic s Post (f a s))
      → Atomic s Post ((lift r >>= f) s)
  Atomic-lift (ok a) f p h = h a refl
  Atomic-lift (err e) f p h = fails e
  Atomic-lift panic f p h = absurd (ground arith)

  pub Atomic-ok_or :
      (o : Option A) (e : Error) (f : A → Exec S B)
      → ((a : A) → o ≡ some a → Atomic s Post (f a s))
      → Atomic s Post ((ok_or o e >>= f) s)
  Atomic-ok_or none e f h = fails e
  Atomic-ok_or (some a) e f h = h a refl

  pub Atomic-unwrap :
      (o : Option A) (a : A) (f : A → Exec S B)
      → o ≡ some a
      → Atomic s Post (f a s)
      → Atomic s Post ((unwrap o >>= f) s)
  Atomic-unwrap o a f e h = rw e h

  -- Behind a call that may have changed the state, only what must succeed may follow.
  pub Atomic-bind :
      {Mid : S → A → Type ν} (m : Exec S A) (f : A → Exec S B)
      → Atomic s Mid (m s)
      → ((s' : S) (a : A) → Mid s' a → (t : S) × (b : B) × (f a s' ≡ (t, ok b)) × Post t b)
      → Atomic s Post ((m >>= f) s)
  Atomic-bind {Mid} m f h k = go (m s) h
    where
      go : (r : S × Result A) → Atomic s Mid r → Atomic s Post (follow r f)
      go _ (fails e) = fails e
      go _ (done s' a p) = let (t, b, e, q) = k s' a p in rw e (done t b q)

ok-injective {κ} : {A : Type κ} {a b : A} → ok a ≡ ok b → a ≡ b
ok-injective h = cc

module _ {ℓ κ μ} {S : Type ℓ} {A : Type κ} {s : S} where
  -- Two readings of such a promise.
  pub Atomic-ok :
      {Post : S → A → Type μ} {r : S × Result A}
      → Atomic s Post r
      → (s' : S) (a : A) → r ≡ (s', ok a)
      → Post s' a
  Atomic-ok {Post} (fails e) s' a h = absurd (ground arith)
  Atomic-ok {Post} (done t b p) s' a h =
      let same : t ≡ s' = ap (λ (r : S × Result A). r.0) h in
      let value : b ≡ a = ok-injective (ap (λ (r : S × Result A). r.1) h) in
      subst₂ Post same value p

  pub Atomic-weaken :
      {Post Post' : S → A → Type μ} {r : S × Result A}
      → ((s' : S) (a : A) → Post s' a → Post' s' a)
      → Atomic s Post r
      → Atomic s Post' r
  Atomic-weaken f (fails e) = fails e
  Atomic-weaken f (done t b p) = done t b (f t b p)
