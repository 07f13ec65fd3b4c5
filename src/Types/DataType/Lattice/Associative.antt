-- ===== src/Types/DataType/Lattice/Associative.antt =====
-- types/type_schema.go: the common ancestor of three types, in either grouping.
use olake.Base.{◌≡◌, refl, true, none, arith, ◌⊎◌, Option-cases, all, ◌==◌, inl, inr}
use olake.Types.DataType.{
  DataType, string, weight, get_common_ancestor_type, data_type_eq, DataType-beq_iff, data_type_beq,
}
use olake.Types.DataType.Lattice.{HasWeight, weighted, check_all, lca_comm}

assoc_table :
    all
      (λ a.
        all
          (λ b.
            all
              (λ c.
                get_common_ancestor_type (get_common_ancestor_type a b) c
                == get_common_ancestor_type a (get_common_ancestor_type b c))
              weighted)
          weighted)
      weighted
    ≡ true
unfolding get_common_ancestor_type data_type_beq
assoc_table = refl

-- A type outside the tree joins with any type to the root.
lca_unweighted :
    (a b : DataType) → (weight a ≡ none) ⊎ (weight b ≡ none) → get_common_ancestor_type a b ≡ string
unfolding get_common_ancestor_type
lca_unweighted a b (inl h) = ground arith
lca_unweighted a b (inr h) = ground arith

lca_string : (a : DataType) → get_common_ancestor_type a string ≡ string
unfolding get_common_ancestor_type
lca_string a = ground arith

lca_assoc_weighted :
    (a b c : DataType)
    → HasWeight a
    → HasWeight b
    → HasWeight c
    → get_common_ancestor_type (get_common_ancestor_type a b) c
      ≡ get_common_ancestor_type a (get_common_ancestor_type b c)
lca_assoc_weighted a b c ha hb hc = (DataType-beq_iff _ _).0 (
    check_all
      (λ z.
        get_common_ancestor_type (get_common_ancestor_type a b) z
        == get_common_ancestor_type a (get_common_ancestor_type b z))
      c
      (check_all
        (λ y.
          all
            (λ z.
              get_common_ancestor_type (get_common_ancestor_type a y) z
              == get_common_ancestor_type a (get_common_ancestor_type y z))
            weighted)
        b
        (check_all
          (λ x.
            all
              (λ y.
                all
                  (λ z.
                    get_common_ancestor_type (get_common_ancestor_type x y) z
                    == get_common_ancestor_type x (get_common_ancestor_type y z))
                  weighted)
              weighted)
          a assoc_table ha)
        hb)
      hc)

-- GetCommonAncestorType is associative on all types, also those outside the typecast tree.
pub lca_assoc :
    (a b c : DataType)
    → get_common_ancestor_type (get_common_ancestor_type a b) c
      ≡ get_common_ancestor_type a (get_common_ancestor_type b c)
lca_assoc a b c =
    split (Option-cases (weight a)) (Option-cases (weight b)) (Option-cases (weight c))
  where
    split :
        (weight a ≡ none) ⊎ HasWeight a
        → (weight b ≡ none) ⊎ HasWeight b
        → (weight c ≡ none) ⊎ HasWeight c
        → get_common_ancestor_type (get_common_ancestor_type a b) c
          ≡ get_common_ancestor_type a (get_common_ancestor_type b c)
    split (inl na) hb hc = cc (
      lca_unweighted a b (inl na),
      lca_comm string c,
      lca_string c,
      lca_unweighted a (get_common_ancestor_type b c) (inl na),
    )
    split (inr ha) (inl nb) hc = cc (
      lca_unweighted a b (inr nb),
      lca_comm string c,
      lca_string c,
      lca_unweighted b c (inl nb),
      lca_string a,
    )
    split (inr ha) (inr hb) (inl nc) = cc (
      lca_unweighted (get_common_ancestor_type a b) c (inr nc),
      lca_unweighted b c (inr nc),
      lca_string a,
    )
    split (inr ha) (inr hb) (inr hc) = lca_assoc_weighted a b c ha hb hc
