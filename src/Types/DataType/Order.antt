-- ===== src/Types/DataType/Order.antt =====
-- types/type_schema.go and utils/typeutils/fields.go: the type that a set of observed types resolves
-- to does not depend on the order in which Go ranges over the set.
use mathlib.Core.List.{Permᴰ}
use olake.Base.{◌≡◌, refl, ◌∙◌, ap, Option, none, some, List, [], ◌∷◌, foldl}
use olake.Types.DataType.{DataType, get_common_ancestor_type, common_type, data_type_eq}
use olake.Types.DataType.Lattice.{lca_comm}
use olake.Types.DataType.Lattice.Associative.{lca_assoc}

swap_lem :
    (a x y : DataType)
    → get_common_ancestor_type (get_common_ancestor_type a x) y
      ≡ get_common_ancestor_type (get_common_ancestor_type a y) x
swap_lem a x y = cc (lca_assoc a x y, lca_assoc a y x, lca_comm x y)

pub common_type-perm :
    (a : DataType) {ts us : List DataType} → Permᴰ ts us → common_type a ts ≡ common_type a us
unfolding common_type
common_type-perm a Permᴰ.nil = refl
common_type-perm a (Permᴰ.cons {a = x} {b = y} {l₁ = ts} e p) =
    ap (λ z. foldl get_common_ancestor_type (get_common_ancestor_type a z) ts) e
    ∙ common_type-perm (get_common_ancestor_type a y) p
common_type-perm a (Permᴰ.swap {a = x} {b = y} {a' = u} {b' = v} {l = ts} e e') =
    ap (λ z. foldl get_common_ancestor_type z ts)
      (let q : get_common_ancestor_type (get_common_ancestor_type a x) y
            ≡ get_common_ancestor_type (get_common_ancestor_type a u) v =
          cc (swap_lem a x y, e, e') in
        q)
common_type-perm a (Permᴰ.trans p q) = common_type-perm a p ∙ common_type-perm a q

common_type_swap :
    (x y : DataType) (ts : List DataType) → common_type x (y ∷ ts) ≡ common_type y (x ∷ ts)
unfolding common_type
common_type_swap x y ts = ap (λ z. foldl get_common_ancestor_type z ts) (lca_comm x y)

-- The value of the loop on a slice, `none` on an empty one.
abbrev pub joined : List DataType → Option DataType
joined [] = none
joined (t ∷ ts) = some (common_type t ts)

pub joined-perm : {ts us : List DataType} → Permᴰ ts us → joined ts ≡ joined us
joined-perm Permᴰ.nil = refl
joined-perm (Permᴰ.cons {a = x} {b = y} {l₁ = ts} {l₂ = us} e p) =
    ap (λ t. some (common_type t ts)) e ∙ ap some (common_type-perm y p)
joined-perm (Permᴰ.swap {a = x} {b = y} {a' = u} {b' = v} {l = ts} e e') =
    ap some (first_swap x y u v ts e e')
  where
    first_swap :
        (x y u v : DataType) (ts : List DataType)
        → x ≡ v
        → y ≡ u
        → common_type x (y ∷ ts) ≡ common_type u (v ∷ ts)
    first_swap x y u v ts e e' = rw (e, e') (common_type_swap v u ts)
joined-perm (Permᴰ.trans p q) = joined-perm p ∙ joined-perm q
