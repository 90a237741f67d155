-- ===== src/Error.antt =====
-- drey/src/error.rs, and the state-and-error monad in which the methods are written. The
-- formatted messages of the errors are not modelled; their categories and ids are.
use drey.Prelude.{ℕ, Bool, true, false, Option, none, some}

-- `Error`: the variants that the modelled code raises, and the others of the enum.
pub data Error : Type 0 where
  invalid_request resource_limit conflict unavailable storage codec : Error
  node_not_found : ℕ → Error
  edge_not_found : ℕ → Error
  invalid_node_type invalid_edge_type invalid_property_value : Error
  dimension_mismatch : ℕ → ℕ → Error
  dangling_edge : ℕ → Error
  index_corruption unsupported_query : Error
  version_mismatch : ℕ → ℕ → Error
  generation_mismatch : ℕ → ℕ → Error
  lock_conflict : Error

-- `panic` stands for a failing `unwrap` or index, which the program means never to happen.
pub data Result {ℓ} (A : Type ℓ) : Type ℓ where
  ok : A → Result A
  err : Error → Result A
  panic : Result A

-- A method on `&mut self`: the new state stands beside the result also where it is an error, so
-- that what a failing call leaves behind can be stated.
abbrev pub Exec {ℓ κ} : Type ℓ → Type κ → Type (ℓ ⊔ κ)
Exec S A = S → S × Result A

module _ {ℓ κ} {S : Type ℓ} {A : Type κ} where
  abbrev pub pure : A → Exec S A
  pure a s = (s, ok a)

  abbrev pub raise : Error → Exec S A
  raise e s = (s, err e)

  -- A pure fallible call behind `?`.
  abbrev pub lift : Result A → Exec S A
  lift r s = (s, r)

  -- `o.ok_or(e)?`.
  abbrev pub ok_or : Option A → Error → Exec S A
  ok_or none e s = (s, err e)
  ok_or (some a) e s = (s, ok a)

  -- `o.unwrap()`.
  abbrev pub unwrap : Option A → Exec S A
  unwrap none s = (s, panic)
  unwrap (some a) s = (s, ok a)

  -- A read of the state.
  abbrev pub gets : (S → A) → Exec S A
  gets f s = (s, ok (f s))

abbrev pub modify {ℓ} : {S : Type ℓ} → (S → S) → Exec S (Unit {0})
modify f s = (f s, ok tt)

-- `if !test { return Err(e) }`.
abbrev pub require {ℓ} : {S : Type ℓ} → Bool → Error → Exec S (Unit {0})
require true e s = (s, ok tt)
require false e s = (s, err e)

-- What follows a call: it goes on after `ok`, and an error ends the method.
abbrev pub follow {ℓ κ μ} :
    {S : Type ℓ} {A : Type κ} {B : Type μ} → S × Result A → (A → Exec S B) → S × Result B
follow (s, ok a) f = f a s
follow (s, err e) f = (s, err e)
follow (s, panic) f = (s, panic)

infixl 5 ◌>>=◌ ◌>>◌
abbrev pub ◌>>=◌ {ℓ κ μ} :
    {S : Type ℓ} {A : Type κ} {B : Type μ} → Exec S A → (A → Exec S B) → Exec S B
◌>>=◌ m f s = follow (m s) f

abbrev pub ◌>>◌ {ℓ κ} : {S : Type ℓ} {B : Type κ} → Exec S (Unit {0}) → Exec S B → Exec S B
◌>>◌ m k s = follow (m s) (λ _. k)

-- `if !test { return Err(e) }` in a function with no state.
abbrev pub guard : Bool → Error → Result (Unit {0})
guard true e = ok tt
guard false e = err e

-- `r?` followed by the rest, in a function with no state.
abbrev pub and_then {ℓ κ} : {A : Type ℓ} {B : Type κ} → Result A → (A → Result B) → Result B
and_then (ok a) f = f a
and_then (err e) f = err e
and_then panic f = panic

abbrev pub is_ok {ℓ} : {A : Type ℓ} → Result A → Bool
is_ok (ok a) = true
is_ok (err e) = false
is_ok panic = false

-- The call returned, with a value or an error.
abbrev pub returns {ℓ} : {A : Type ℓ} → Result A → Bool
returns (ok a) = true
returns (err e) = true
returns panic = false
