-- ===== src/Types.antt =====
-- drey/src/types.rs: the data model, the validity of values, and the total order of scalars.
use drey.Prelude.{
  ℕ, ◌-◌, ◌^◌, Bool, true, false, not, ◌&&◌, Option, none, some, List, [], ◌∷◌, compare, Ordering,
  ltb, leb, ◌==◌, if◌then◌else◌, length,
}
use drey.Ord.{Ord, Text, cmp_text, text_ord, flip}
use drey.Int.{ℤ, cmp_ℤ}
use drey.Float.{is_nan64, magnitude64, sign64, total_cmp64, floor64, has_fraction64}
use drey.Map.{Map}

-- `Direction`.
pub data Direction : Type 0 where
  outbound inbound both : Direction

-- `Scalar`; an `f64` is its bit pattern.
pub data Scalar : Type 0 where
  bool : Bool → Scalar
  i64 : ℤ → Scalar
  f64 : ℕ → Scalar
  string : Text → Scalar

-- `Value`.
pub data Value : Type 0 where
  null : Value
  bool : Bool → Value
  i64 : ℤ → Value
  f64 : ℕ → Value
  string : Text → Value
  bytes : List ℕ → Value
  list : List Scalar → Value

-- `Properties`, a `BTreeMap<String, Value>`.
abbrev pub Properties : Type 0
Properties = Map Text Value

-- A node's or edge's embedding is a vector of `f32` bit patterns; `Embedding::dim` is its length.
abbrev pub Embedding : Type 0
Embedding = List ℕ

-- `Node` and `Edge`, what queries return.
pub record Node : Type 0 where
  pub id : ℕ
  pub node_type : Text
  pub properties : Properties
  pub embedding : Option Embedding

pub record Edge : Type 0 where
  pub id : ℕ
  pub source : ℕ
  pub target : ℕ
  pub edge_type : Text
  pub weight : ℕ
  pub properties : Properties

-- `Value::as_scalar`.
unfoldable pub as_scalar : Value → Option Scalar
as_scalar (Value.bool b) = some (Scalar.bool b)
as_scalar (Value.i64 i) = some (Scalar.i64 i)
as_scalar (Value.f64 x) = some (Scalar.f64 x)
as_scalar (Value.string s) = some (Scalar.string s)
as_scalar Value.null = none
as_scalar (Value.bytes _) = none
as_scalar (Value.list _) = none

-- `u32::MAX as usize`.
abbrev pub u32_max : ℕ
u32_max = 2 ^ 32 - 1

-- The closure over the items in `Value::is_valid`.
unfoldable pub item_is_valid : Scalar → Bool
item_is_valid (Scalar.string s) = leb (length s) u32_max
item_is_valid (Scalar.bool _) = true
item_is_valid (Scalar.i64 _) = true
item_is_valid (Scalar.f64 _) = true

unfoldable pub items_are_valid : List Scalar → Bool
unfolding item_is_valid
items_are_valid [] = true
items_are_valid (s ∷ rest) = item_is_valid s && items_are_valid rest

-- `Value::is_valid`.
unfoldable pub is_valid : Value → Bool
unfolding items_are_valid
is_valid (Value.string s) = leb (length s) u32_max
is_valid (Value.bytes b) = leb (length b) u32_max
is_valid (Value.list items) = leb (length items) u32_max && items_are_valid items
is_valid Value.null = true
is_valid (Value.bool _) = true
is_valid (Value.i64 _) = true
is_valid (Value.f64 _) = true

-- `norm` in `cmp_f64`: the zeros collapse.
abbrev pub norm : ℕ → ℕ
norm x = if magnitude64 x == 0 then 0 else x

-- The match of `cmp_f64` on the two NaN tests.
abbrev pub by_nan : Bool → Bool → Ordering → Ordering
by_nan true true c = Ordering.eq
by_nan true false c = Ordering.gt
by_nan false true c = Ordering.lt
by_nan false false c = c

-- `cmp_f64`.
unfoldable pub cmp_f64 : ℕ → ℕ → Ordering
unfolding is_nan64 total_cmp64
cmp_f64 a b = by_nan (is_nan64 a) (is_nan64 b) (total_cmp64 (norm a) (norm b))

-- `f >= 2^63` and `f < -2^63`, by the bit patterns of 2^63 and -2^63.
abbrev pub above_i64 : ℕ → Bool
above_i64 f = not (sign64 f) && leb 0x43e0_0000_0000_0000 f

abbrev pub below_i64 : ℕ → Bool
below_i64 f = ltb 0xc3e0_0000_0000_0000 f

-- The last match of `cmp_i64_f64`.
abbrev with_fraction : Bool → Ordering → Ordering
with_fraction true Ordering.eq = Ordering.lt
with_fraction _ c = c

-- `cmp_i64_f64`.
unfoldable pub cmp_i64_f64 : ℤ → ℕ → Ordering
unfolding is_nan64 cmp_ℤ floor64 has_fraction64
cmp_i64_f64 i f =
    if is_nan64 f
    then Ordering.lt
    else if above_i64 f
    then Ordering.lt
    else if below_i64 f
    then Ordering.gt
    else with_fraction (has_fraction64 f) (cmp_ℤ i (floor64 f))

abbrev pub cmp_bool : Bool → Bool → Ordering
cmp_bool false true = Ordering.lt
cmp_bool true false = Ordering.gt
cmp_bool _ _ = Ordering.eq

-- `rank` in `Scalar::total_order`.
abbrev pub rank : Scalar → ℕ
rank (Scalar.bool _) = 0
rank (Scalar.i64 _) = 1
rank (Scalar.f64 _) = 1
rank (Scalar.string _) = 2

-- `Scalar::total_order`.
unfoldable pub total_order : Scalar → Scalar → Ordering
unfolding cmp_f64 cmp_i64_f64 cmp_ℤ cmp_text
total_order (Scalar.bool a) (Scalar.bool b) = cmp_bool a b
total_order (Scalar.i64 a) (Scalar.i64 b) = cmp_ℤ a b
total_order (Scalar.f64 a) (Scalar.f64 b) = cmp_f64 a b
total_order (Scalar.i64 a) (Scalar.f64 b) = cmp_i64_f64 a b
total_order (Scalar.f64 a) (Scalar.i64 b) = flip (cmp_i64_f64 b a)
total_order (Scalar.string a) (Scalar.string b) = cmp_text a b
total_order a b = compare (rank a) (rank b)

-- `ScalarKey`: a scalar under that order.
instance abbrev pub scalar_key : Ord Scalar
scalar_key = record { cmp = total_order }
