-- ===== src/Runs.antt =====
-- What a successful run of a method shows; nothing is said of a run that fails.
use drey.Prelude.{◌≡◌, refl, ap, Bool, true, false, Option, none, some, arith}
use mathlib.Core.Path.{subst₂}
use drey.Error.{Error, Result, ok, err, panic, Exec, lift, ok_or, require, follow, ◌>>=◌, ◌>>◌}

pub data Runs {ℓ κ μ} {S : Type ℓ} {A : Type κ} (Post : S → A → Type μ)
    : S × Result A → Type (ℓ ⊔ κ ⊔ μ) where
  ends : (s : S) (a : A) → Post s a → Runs Post (s, ok a)
  errs : (s : S) (e : Error) → Runs Post (s, err e)
  panics : (s : S) → Runs Post (s, panic)

ok-injective {κ} : {A : Type κ} {a b : A} → ok a ≡ ok b → a ≡ b
ok-injective h = cc

pub Runs-ok {ℓ κ μ} :
    {S : Type ℓ} {A : Type κ} {Post : S → A → Type μ} {r : S × Result A}
    → Runs Post r
    → (s : S) (a : A) → r ≡ (s, ok a)
    → Post s a
Runs-ok {S} {A} {Post} (ends t b p) s a h =
    subst₂ Post (ap (λ (r : S × Result A). r.0) h) (ok-injective (ap (λ (r : S × Result A). r.1) h))
      p
Runs-ok (errs t e) s a h = absurd (ground arith)
Runs-ok (panics t) s a h = absurd (ground arith)

module _ {ℓ κ μ ν} {S : Type ℓ} {A : Type κ} {B : Type μ} {s : S} (Post : S → B → Type ν) where
  pub Runs-lift :
      (r : Result A) (f : A → Exec S B)
      → ((a : A) → r ≡ ok a → Runs Post (f a s))
      → Runs Post ((lift r >>= f) s)
  Runs-lift (ok a) f h = h a refl
  Runs-lift (err e) f h = errs s e
  Runs-lift panic f h = panics s

  pub Runs-ok_or :
      (o : Option A) (e : Error) (f : A → Exec S B)
      → ((a : A) → o ≡ some a → Runs Post (f a s))
      → Runs Post ((ok_or o e >>= f) s)
  Runs-ok_or none e f h = errs s e
  Runs-ok_or (some a) e f h = h a refl

module _ {ℓ μ ν} {S : Type ℓ} {B : Type μ} {s : S} (Post : S → B → Type ν) where
  pub Runs-require :
      (test : Bool) (e : Error) (k : Exec S B)
      → (test ≡ true → Runs Post (k s))
      → Runs Post ((require test e >> k) s)
  Runs-require true e k h = h refl
  Runs-require false e k h = errs s e

pub Runs-weaken {ℓ κ μ ν} :
    {S : Type ℓ} {A : Type κ} {P : S → A → Type μ} {Q : S → A → Type ν} {r : S × Result A}
    → ((s : S) (a : A) → P s a → Q s a)
    → Runs P r
    → Runs Q r
Runs-weaken k (ends s a p) = ends s a (k s a p)
Runs-weaken k (errs s e) = errs s e
Runs-weaken k (panics s) = panics s

-- After a call of any kind.
pub Runs-bind {ℓ κ μ ν} :
    {S : Type ℓ} {A : Type κ} {B : Type μ} (Post : S → B → Type ν) (m : Exec S A) (f : A → Exec S B)
    (s : S)
    → ((s' : S) (a : A) → Runs Post (f a s'))
    → Runs Post ((m >>= f) s)
Runs-bind {S} {A} Post m f s h = go (m s)
  where
    go : (x : S × Result A) → Runs Post (follow x f)
    go (s', ok a) = h s' a
    go (s', err e) = errs s' e
    go (s', panic) = panics s'

-- After a call of which something is known.
pub Runs-then {ℓ κ μ ν ρ} :
    {S : Type ℓ} {A : Type κ} {B : Type μ} (Pre : S → A → Type ρ) (Post : S → B → Type ν)
    (x : S × Result A) (f : A → Exec S B)
    → Runs Pre x
    → ((s' : S) (a : A) → Pre s' a → Runs Post (f a s'))
    → Runs Post (follow x f)
Runs-then Pre Post x f (ends s a p) h = h s a p
Runs-then Pre Post x f (errs s e) h = errs s e
Runs-then Pre Post x f (panics s) h = panics s
