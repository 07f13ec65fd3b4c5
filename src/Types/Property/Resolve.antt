-- ===== src/Types/Property/Resolve.antt =====
-- types/type_schema.go: what DataType makes of a set of types, in any order.
use mathlib.Core.Logic.{∥∥₁_elim}
use mathlib.Core.List.{Permᴰ}
use mathlib.Core.List.Permᴰ
use text.Mathlib.TextEquality.{IsScalar-prop}
use olake.Base.{
  ◌≡◌, refl, ◌∙◌, sym, ap, Bool, true, false, Option, none, some, List, [], ◌∷◌, arith, Perm,
  if◌then◌else◌,
}
use olake.Utils.Arrays.{array_contains}
use olake.Types.Set.{array}
use olake.Types.DataType.{DataType, null, common_type, data_type_eq, DataType-beq_iff}
use olake.Types.DataType.Order.{joined, joined-perm}
use olake.Types.Property.{Property, is_null, drop_null, resolve, data_type}

-- The search and the two slices take out the first null.
pub drop_null_cons :
    (t : DataType) (ts : List DataType)
    → drop_null (t ∷ ts) ≡ (if is_null t then ts else t ∷ drop_null ts)
unfolding drop_null array_contains
drop_null_cons t ts = ground arith

is_null_iff : (t : DataType) → is_null t ≡ true → t ≡ null
is_null_iff t h = (DataType-beq_iff t null).0 h

cons_case :
    (x : DataType) (ts us : List DataType)
    → Permᴰ ts us
    → Permᴰ (drop_null ts) (drop_null us)
    → (b : Bool) → Permᴰ (if b then ts else x ∷ drop_null ts) (if b then us else x ∷ drop_null us)
cons_case x ts us p rest true = p
cons_case x ts us p rest false = Permᴰ.cons refl rest

swap_case :
    (v u : DataType) (ts : List DataType) → Permᴰ (drop_null (v ∷ u ∷ ts)) (drop_null (u ∷ v ∷ ts))
swap_case v u ts =
    rw
      (
        drop_null_cons v (u ∷ ts),
        drop_null_cons u (v ∷ ts),
        drop_null_cons u ts,
        drop_null_cons v ts,
      )
      (cases (is_null v) (is_null u) refl refl)
  where
    cases :
        (b c : Bool)
        → is_null v ≡ b
        → is_null u ≡ c
        → Permᴰ
            (if b then u ∷ ts else v ∷ (if c then ts else u ∷ drop_null ts))
            (if c then v ∷ ts else u ∷ (if b then ts else v ∷ drop_null ts))
    cases true true p q = Permᴰ.cons (is_null_iff u q ∙ sym (is_null_iff v p)) (Permᴰ.refl ts)
    cases true false p q = Permᴰ.refl (u ∷ ts)
    cases false true p q = Permᴰ.refl (v ∷ ts)
    cases false false p q = Permᴰ.swap refl refl

drop_null-perm : {ts us : List DataType} → Permᴰ ts us → Permᴰ (drop_null ts) (drop_null us)
drop_null-perm Permᴰ.nil = Permᴰ.refl (drop_null [])
drop_null-perm (Permᴰ.cons {a = x} {b = y} {l₁ = ts} {l₂ = us} e p) =
    rw (drop_null_cons x ts, drop_null_cons y us, ← e)
      (cons_case x ts us p (drop_null-perm p) (is_null x))
drop_null-perm (Permᴰ.swap {a = x} {b = y} {a' = u} {b' = v} {l = ts} e e') =
    rw (e, e') (swap_case v u ts)
drop_null-perm (Permᴰ.trans p q) = Permᴰ.trans (drop_null-perm p) (drop_null-perm q)

-- DataType after the null is taken out.
abbrev or_null : Option DataType → DataType
or_null none = null
or_null (some t) = t

resolve-joined : (ts : List DataType) → resolve ts ≡ or_null (joined (drop_null ts))
unfolding resolve
resolve-joined ts = split (drop_null ts)
  where
    split :
        (us : List DataType)
        → (elim us as (λ _. DataType) [ [] ↦ null | t ∷ vs ↦ common_type t vs ])
          ≡ or_null (joined us)
    split [] = refl
    split (t ∷ vs) = refl

pub resolve-common :
    (ts : List DataType) (t : DataType) (us : List DataType)
    → drop_null ts ≡ t ∷ us
    → resolve ts ≡ common_type t us
resolve-common ts t us e = resolve-joined ts ∙ ap (λ vs. or_null (joined vs)) e

DataType-set : IsSet DataType
DataType-set = hlevel IsScalar-prop

-- The type of a column does not depend on the order in which Go ranges over its set of types.
pub resolve-perm : {ts us : List DataType} → Perm ts us → resolve ts ≡ resolve us
resolve-perm {ts} {us} p =
    ∥∥₁_elim p (DataType-set (resolve ts) (resolve us)) (λ q.
      resolve-joined ts ∙ ap or_null (joined-perm (drop_null-perm q)) ∙ sym (resolve-joined us))

-- Whatever order of the types of a column Array gives, DataType is one.
pub data_type-perm :
    (p : Property) (ts : List DataType) → Perm ts (array p.type) → resolve ts ≡ data_type p
unfolding data_type
data_type-perm p ts q = resolve-perm q
