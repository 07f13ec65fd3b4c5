-- ===== src/Typeutils/Compare.antt =====
-- utils/typeutils/compare.go: Compare, on values of every kind but json.Number and the package's own
-- Time. An Ordering stands for -1, 0 and 1, and `none` for the panic of a conversion or an assertion. Times are
-- nanoseconds. `F` is the type of floats, and `P` what Go and fmt do with them.
pub mod Order
pub mod Kinds
use olake.Base.{ℕ, ◌-◌, ◌^◌, String, ◌≡◌, Bool, true, false, Option, none, some, if◌then◌else◌, ltb}
use Prim.Native.Nat.{Ordering, compare as compare_nat}
use Prim.Native.String.{compare as compare_text}

-- The integers of Go, at a width that is written out where it matters
pub data ℤ : Type 0 where
  pos : ℕ → ℤ
  negsuc : ℕ → ℤ

-- A value of type any
pub data Value (F : Type 0) : Type 0 where
  nil : Value F
  unsigned : ℕ → Value F
  signed : ℤ → Value F
  float : F → Value F
  time : ℤ → Value F
  boolean : Bool → Value F
  -- a primitive.ObjectID, by its hex digits
  object_id : String → Value F
  -- any other value, by what %v makes of it
  other : String → Value F

abbrev pub is_nil_value : {F : Type 0} → Value F → Bool
is_nil_value nil = true
is_nil_value _ = false

pub record Platform (F : Type 0) : Type 0 where
  pub less : F → F → Bool
  pub float_of : ℤ → F
  pub truncated : F → ℤ
  pub truncated_unsigned : F → ℕ
  -- fmt's %v
  pub print : Value F → String

-- The conversions between int64 and uint64 keep the bits.
pub to_uint64 : ℤ → ℕ
to_uint64 (pos n) = n
to_uint64 (negsuc n) = 2 ^ 64 - 1 - n

pub to_int64 : ℕ → ℤ
to_int64 n = if ltb n (2 ^ 63) then pos n else negsuc (2 ^ 64 - 1 - n)

unfoldable pub compare_int : ℤ → ℤ → Ordering
compare_int (pos a) (pos b) = compare_nat a b
compare_int (pos a) (negsuc b) = Ordering.gt
compare_int (negsuc a) (pos b) = Ordering.lt
compare_int (negsuc a) (negsuc b) = compare_nat b a

unfoldable pub compare_bool : Bool → Bool → Ordering
compare_bool false true = Ordering.lt
compare_bool true false = Ordering.gt
compare_bool false false = Ordering.eq
compare_bool true true = Ordering.eq

abbrev pub found : {A : Type 0} → (A → Ordering) → Option A → Option Ordering
found f none = none
found f (some a) = some (f a)

module _ {F : Type 0} (P : Platform F) where
  unfoldable pub compare_float : F → F → Ordering
  compare_float a b =
      if P.less a b then Ordering.lt else if P.less b a then Ordering.gt else Ordering.eq

  -- What reflect's Convert makes of a value at uint64, at int64 and at float64
  pub as_uint : Value F → Option ℕ
  unfolding to_uint64
  as_uint (unsigned n) = some n
  as_uint (signed i) = some (to_uint64 i)
  as_uint (float x) = some (P.truncated_unsigned x)
  as_uint _ = none

  pub as_int : Value F → Option ℤ
  unfolding to_int64
  as_int (unsigned n) = some (to_int64 n)
  as_int (signed i) = some i
  as_int (float x) = some (P.truncated x)
  as_int _ = none

  pub as_float : Value F → Option F
  as_float (unsigned n) = some (P.float_of (pos n))
  as_float (signed i) = some (P.float_of i)
  as_float (float x) = some x
  as_float _ = none

  pub as_time : Value F → Option ℤ
  as_time (time t) = some t
  as_time _ = none

  pub as_bool : Value F → Option Bool
  as_bool (boolean b) = some b
  as_bool _ = none

  -- The switch on the type of the first value
  pub compare_kind : Value F → Value F → Option Ordering
  unfolding compare_int compare_bool compare_float as_uint as_int as_float as_time as_bool
  compare_kind nil b = none
  compare_kind (unsigned m) b = found (compare_nat m) (as_uint b)
  compare_kind (signed i) b = found (compare_int i) (as_int b)
  compare_kind (float x) b = found (compare_float x) (as_float b)
  compare_kind (time t) b = found (compare_int t) (as_time b)
  compare_kind (boolean c) b = found (compare_bool c) (as_bool b)
  compare_kind (object_id h) b = some (compare_text (P.print (object_id h)) (P.print b))
  compare_kind (other s) b = some (compare_text s (P.print b))

  unfoldable pub compare : Value F → Value F → Option Ordering
  unfolding compare_kind
  compare nil nil = some Ordering.eq
  compare nil b = some Ordering.lt
  compare a nil = some Ordering.gt
  compare a b = compare_kind a b
