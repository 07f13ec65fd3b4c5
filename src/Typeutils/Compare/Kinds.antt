-- ===== src/Typeutils/Compare/Kinds.antt =====
-- utils/typeutils/compare.go: Compare on nil and the values of one kind.
use olake.Base.{
  ℕ, String, ◌≡◌, refl, ap, ◌∙◌, Bool, true, false, not, ◌&&◌, ◌||◌, ltb, Option, none, some, arith,
}
use olake.Typeutils.Filter.{is_lt, is_gt}
use Prim.Native.String.{[], ◌∷◌}
use Prim.Native.Char.{code}
use olake.Typeutils.Compare.{
  ℤ, pos, negsuc, Value, nil, unsigned, signed, float, time, boolean, other, Platform, compare,
  compare_kind, compare_int, compare_bool, compare_float, as_uint, as_int, as_float, as_time,
  as_bool,
}
use olake.Typeutils.Compare.Order.{
  IsOrder, is_at_most, nat-IsOrder, int-IsOrder, bool-IsOrder, text-IsOrder,
}
use Prim.Native.Nat.{Ordering, compare as compare_nat}
use Prim.Native.String.compare as compare_text
use Prim.Native.String.{compare as compare_text}

pub data Kind : Type 0 where
  unsigned_kind signed_kind float_kind time_kind boolean_kind other_kind : Kind

-- Floats that are no NaN, and what fmt says of %v and a text
pub record IsLawful {F : Type 0} (P : Platform F) : Type 0 where
  pub floats : IsOrder (compare_float P)
  pub asymmetric : (x y : F) → P.less x y ≡ true → P.less y x ≡ false
  pub prints : (s : String) → P.print (other s) ≡ s

abbrev pub Typed : Type 0 → Kind → Type 0
Typed F unsigned_kind = ℕ
Typed F signed_kind = ℤ
Typed F float_kind = F
Typed F time_kind = ℤ
Typed F boolean_kind = Bool
Typed F other_kind = String

-- The values of a kind, and nil for `none`
unfoldable pub value_of : {F : Type 0} (k : Kind) → Option (Typed F k) → Value F
value_of k none = nil
value_of unsigned_kind (some n) = unsigned n
value_of signed_kind (some i) = signed i
value_of float_kind (some x) = float x
value_of time_kind (some t) = time t
value_of boolean_kind (some b) = boolean b
value_of other_kind (some s) = other s

unfoldable pub order_of : {F : Type 0} → Platform F → (k : Kind) → Typed F k → Typed F k → Ordering
order_of P unsigned_kind a b = compare_nat a b
order_of P signed_kind a b = compare_int a b
order_of P float_kind a b = compare_float P a b
order_of P time_kind a b = compare_int a b
order_of P boolean_kind a b = compare_bool a b
order_of P other_kind a b = compare_text a b

-- nil is less than every value
unfoldable pub nil_first : {A : Type 0} → (A → A → Ordering) → Option A → Option A → Ordering
nil_first cmp none none = Ordering.eq
nil_first cmp none (some b) = Ordering.lt
nil_first cmp (some a) none = Ordering.gt
nil_first cmp (some a) (some b) = cmp a b

pub nil_first-IsOrder :
    {A : Type 0} (cmp : A → A → Ordering) → IsOrder cmp → IsOrder (nil_first cmp)
unfolding nil_first is_at_most
nil_first-IsOrder {A} cmp o = record { itself = itself; total = total; trans = trans }
  where
    itself : (a : Option A) → is_at_most (nil_first cmp a a) ≡ true
    itself none = refl
    itself (some a) = o.itself a

    total :
        (a b : Option A)
        → is_at_most (nil_first cmp a b) ≡ false
        → is_at_most (nil_first cmp b a) ≡ true
    total none none h = refl
    total none (some b) h = ground arith
    total (some a) none h = refl
    total (some a) (some b) h = o.total a b h

    trans :
        (a b c : Option A)
        → is_at_most (nil_first cmp a b) ≡ true
        → is_at_most (nil_first cmp b c) ≡ true
        → is_at_most (nil_first cmp a c) ≡ true
    trans none b none h k = refl
    trans none b (some c) h k = refl
    trans (some a) none c h k = ground arith
    trans (some a) (some b) none h k = ground arith
    trans (some a) (some b) (some c) h k = o.trans a b c h k

order_of-IsOrder : {F : Type 0} (P : Platform F) → IsLawful P → (k : Kind) → IsOrder (order_of P k)
unfolding order_of
order_of-IsOrder P h unsigned_kind = nat-IsOrder
order_of-IsOrder P h signed_kind = int-IsOrder
order_of-IsOrder P h float_kind = h.floats
order_of-IsOrder P h time_kind = int-IsOrder
order_of-IsOrder P h boolean_kind = bool-IsOrder
order_of-IsOrder P h other_kind = text-IsOrder

compare-value_of :
    {F : Type 0} (P : Platform F)
    → IsLawful P
    → (k : Kind) (a b : Option (Typed F k))
    → compare P (value_of k a) (value_of k b) ≡ some (nil_first (order_of P k) a b)
unfolding compare compare_kind value_of order_of nil_first as_uint as_int as_float as_time as_bool
compare-value_of P h k none none = refl
compare-value_of P h unsigned_kind none (some b) = refl
compare-value_of P h signed_kind none (some b) = refl
compare-value_of P h float_kind none (some b) = refl
compare-value_of P h time_kind none (some b) = refl
compare-value_of P h boolean_kind none (some b) = refl
compare-value_of P h other_kind none (some b) = refl
compare-value_of P h unsigned_kind (some a) none = refl
compare-value_of P h signed_kind (some a) none = refl
compare-value_of P h float_kind (some a) none = refl
compare-value_of P h time_kind (some a) none = refl
compare-value_of P h boolean_kind (some a) none = refl
compare-value_of P h other_kind (some a) none = refl
compare-value_of P h unsigned_kind (some a) (some b) = refl
compare-value_of P h signed_kind (some a) (some b) = refl
compare-value_of P h float_kind (some a) (some b) = refl
compare-value_of P h time_kind (some a) (some b) = refl
compare-value_of P h boolean_kind (some a) (some b) = refl
compare-value_of P h other_kind (some a) (some b) = ap (λ t. some (compare_text a t)) (h.prints b)

-- What it is for a value to be less than another
abbrev pub below_int : ℤ → ℤ → Bool
below_int (pos a) (pos b) = ltb a b
below_int (pos a) (negsuc b) = false
below_int (negsuc a) (pos b) = true
below_int (negsuc a) (negsuc b) = ltb b a

abbrev pub below_text : String → String → Bool
below_text [] [] = false
below_text [] (d ∷ t) = true
below_text (c ∷ s) [] = false
below_text (c ∷ s) (d ∷ t) =
    ltb (code c) (code d) || (not (ltb (code d) (code c)) && below_text s t)

unfoldable pub below : {F : Type 0} → Platform F → (k : Kind) → Typed F k → Typed F k → Bool
below P unsigned_kind a b = ltb a b
below P signed_kind a b = below_int a b
below P float_kind a b = P.less a b
below P time_kind a b = below_int a b
below P boolean_kind a b = not a && b
below P other_kind a b = below_text a b

-- An answer that is 1 or -1 as one value or the other is less, and else 0
abbrev pub Tells : Ordering → Bool → Bool → Type 0
Tells o lower higher = (is_lt o ≡ lower) × (is_gt o ≡ higher)

int-Tells : (a b : ℤ) → Tells (compare_int a b) (below_int a b) (below_int b a)
unfolding compare_int
int-Tells (pos a) (pos b) = (ground arith, ground arith)
int-Tells (pos a) (negsuc b) = (refl, refl)
int-Tells (negsuc a) (pos b) = (refl, refl)
int-Tells (negsuc a) (negsuc b) = (ground arith, ground arith)

text-Tells : (a b : String) → Tells (compare_text a b) (below_text a b) (below_text b a)
text-Tells [] [] = (ap is_lt compare_text.nil-nil, ap is_gt compare_text.nil-nil)
text-Tells [] (d ∷ t) = (ap is_lt (compare_text.nil-cons d t), ap is_gt (compare_text.nil-cons d t))
text-Tells (c ∷ s) [] = (ap is_lt (compare_text.cons-nil c s), ap is_gt (compare_text.cons-nil c s))
text-Tells (c ∷ s) (d ∷ t) =
    let (l, g) = text-Tells s t in
    (
      ap is_lt (compare_text.cons-cons c d s t) ∙ ground arith,
      ap is_gt (compare_text.cons-cons c d s t) ∙ ground arith,
    )

order_of-Tells :
    {F : Type 0} (P : Platform F)
    → IsLawful P
    → (k : Kind) (a b : Typed F k) → Tells (order_of P k a b) (below P k a b) (below P k b a)
unfolding order_of below compare_float compare_bool
order_of-Tells P h unsigned_kind a b = (ground arith, ground arith)
order_of-Tells P h signed_kind a b = int-Tells a b
order_of-Tells P h float_kind a b = (ground arith, ground (arith, h.asymmetric a b))
order_of-Tells P h time_kind a b = int-Tells a b
order_of-Tells P h boolean_kind a b = (ground arith, ground arith)
order_of-Tells P h other_kind a b = text-Tells a b

pub compare_ordered :
    {F : Type 0} (P : Platform F)
    → IsLawful P
    → (k : Kind)
    → (cmp : Option (Typed F k) → Option (Typed F k) → Ordering) × ((a b : Option (Typed F k))
        → compare P (value_of k a) (value_of k b) ≡ some (cmp a b))
      × ((a : Typed F k) → cmp none (some a) ≡ Ordering.lt)
      × ((a : Typed F k) → cmp (some a) none ≡ Ordering.gt)
      × ((a b : Typed F k) → Tells (cmp (some a) (some b)) (below P k a b) (below P k b a))
      × IsOrder cmp
unfolding nil_first
compare_ordered P h k = (
  nil_first (order_of P k),
  compare-value_of P h k,
  λ a. refl,
  λ a. refl,
  order_of-Tells P h k,
  nil_first-IsOrder (order_of P k) (order_of-IsOrder P h k),
)
