-- ===== src/Types/Property/Widening.antt =====
-- types/type_schema.go: DataType is the least common widening of the types that a column has.
use olake.Base.{
  ◌≡◌, ◌≢◌, refl, true, false, false≢true, List, [], ◌∷◌, arith, sym, ◌∙◌, subst, inl, inr, elem,
  All, Distinct, ◌==◌, Bool-cases, not, ◌&&◌,
}
use olake.Types.Set.{Hashing, array}
use olake.Types.Set.Invariant.{IsWf}
use olake.Types.Set.Elements.{array-Distinct}
use olake.Types.DataType.{
  DataType, null, get_common_ancestor_type, common_type, data_type_eq, DataType-beq_iff,
}
use olake.Types.DataType.Lattice.{Widens, HasWeight, lca_join, lca-HasWeight, Widens-trans}
use olake.Types.Property.{Property, is_null, drop_null, resolve, data_type}
use olake.Types.Property.Resolve.{drop_null_cons, resolve-common}

pub record IsJoin (t : DataType) (ts : List DataType) (j : DataType) : Type 0 where
  pub first : Widens t j
  pub rest : All (λ u. Widens u j) ts
  pub least : (c : DataType) → Widens t c → All (λ u. Widens u c) ts → Widens j c

All-Widens :
    {j c : DataType} (ts : List DataType)
    → Widens j c
    → All (λ u. Widens u j) ts
    → All (λ u. Widens u c) ts
All-Widens [] w a = tt
All-Widens (t ∷ ts) w a = (Widens-trans a.0 w, All-Widens ts w a.1)

pub common_type-IsJoin :
    (t : DataType) (ts : List DataType)
    → HasWeight t
    → All HasWeight ts
    → IsJoin t ts (common_type t ts)
unfolding common_type
common_type-IsJoin t [] h hs = record { first = Widens.same; rest = tt; least = λ c w a. w }
common_type-IsJoin t (u ∷ ts) h hs =
    let join = lca_join t u h hs.0 in
    let ih = common_type-IsJoin (get_common_ancestor_type t u) ts (lca-HasWeight t u h hs.0) hs.1 in
    record {
      first = Widens-trans join.0 ih.first;
      rest = (Widens-trans join.1 ih.first, ih.rest);
      least = λ c w a. ih.least c (join.2 c w a.0) a.1;
    }

-- What is left after the null is taken out, of a list without repetitions.
drop_null-elem :
    (ts : List DataType) (t : DataType)
    → Distinct ts
    → elem t (drop_null ts) ≡ (elem t ts && not (is_null t))
unfolding drop_null
drop_null-elem [] t d = refl
drop_null-elem (u ∷ ts) t d = rw drop_null_cons (elim (Bool-cases (is_null u)) [
  | inl h ↦ rw h (
      ground
        (arith, d.0, h, DataType-beq_iff u t, DataType-beq_iff u null, DataType-beq_iff t null))
  | inr h ↦
      rw h
        (ground (arith, h, drop_null-elem ts t d.1, DataType-beq_iff u t, DataType-beq_iff t null))
])

elem_of_All :
    (P : DataType → Type 0) (ts : List DataType)
    → ((t : DataType) → elem t ts ≡ true → P t)
    → All P ts
elem_of_All P [] f = tt
elem_of_All P (t ∷ ts) f =
    (f t (ground (arith, DataType-beq_iff t t)), elem_of_All P ts (λ u h. f u (ground arith)))

pub All_elem :
    (P : DataType → Type 0) (ts : List DataType) (t : DataType) → All P ts → elem t ts ≡ true → P t
All_elem P [] t a h = absurd (false≢true h)
All_elem P (u ∷ ts) t a h = elim (Bool-cases (u == t)) [
  | inl hit ↦ subst P ((DataType-beq_iff u t).0 hit) a.0
  | inr miss ↦ All_elem P ts t a.1 (rw miss at h)
]

is_null_ne : (t : DataType) → t ≢ null → is_null t ≡ false
is_null_ne t n = elim (Bool-cases (is_null t)) [
  | inl h ↦ absurd (n ((DataType-beq_iff t null).0 h))
  | inr h ↦ h
]

-- The types of a column but for null.
abbrev pub Seen : List DataType → DataType → Type 0
Seen ts t = (elem t ts ≡ true) × (t ≢ null)

module _ (ts : List DataType) (d : Distinct ts) where
  kept : (t : DataType) → Seen ts t → elem t (drop_null ts) ≡ true
  kept t (h, n) = drop_null-elem ts t d ∙ rw (h, is_null_ne t n) refl

  kept-Seen : (t : DataType) → elem t (drop_null ts) ≡ true → Seen ts t
  kept-Seen t h =
      let both : (elem t ts && not (is_null t)) ≡ true = sym (drop_null-elem ts t d) ∙ h in
      (ground arith, λ e. ground (arith, (DataType-beq_iff t null).1 e))

  -- The fold over what is left, at its first type and the others.
  resolve_least :
      (t : DataType) (us : List DataType)
      → drop_null ts ≡ t ∷ us
      → ((u : DataType) → Seen ts u → HasWeight u)
      → ((u : DataType) → Seen ts u → Widens u (resolve ts))
        × ((c : DataType) → ((u : DataType) → Seen ts u → Widens u c) → Widens (resolve ts) c)
  resolve_least t us e hw = (above, least)
    where
      hs : All HasWeight (t ∷ us)
      hs = rw e at (elem_of_All HasWeight (drop_null ts) (λ u h. hw u (kept-Seen u h)))

      join : IsJoin t us (resolve ts)
      join = rw (resolve-common ts t us e) (common_type-IsJoin t us hs.0 hs.1)

      above : (u : DataType) → Seen ts u → Widens u (resolve ts)
      above u s =
          All_elem (λ v. Widens v (resolve ts)) (t ∷ us) u (join.first, join.rest)
            (subst (λ vs. elem u vs ≡ true) e (kept u s))

      least : (c : DataType) → ((u : DataType) → Seen ts u → Widens u c) → Widens (resolve ts) c
      least c f =
          let below : All (λ v. Widens v c) (t ∷ us) =
            rw e at (elem_of_All (λ v. Widens v c) (drop_null ts) (λ u h. f u (kept-Seen u h))) in
          join.least c below.0 below.1

-- Where the types of a column other than null lie in the typecast tree, and there is one, DataType is
-- the least type to which all of them can be widened.
pub data_type-join :
    (H : Hashing DataType) (p : Property) (s : DataType)
    → IsWf H p.type
    → Seen (array p.type) s
    → ((u : DataType) → Seen (array p.type) u → HasWeight u)
    → ((u : DataType) → Seen (array p.type) u → Widens u (data_type p))
      × ((c : DataType)
          → ((u : DataType) → Seen (array p.type) u → Widens u c)
          → Widens (data_type p) c)
unfolding data_type
data_type-join H p s w seen hw = go (drop_null (array p.type)) refl
  where
    d : Distinct (array p.type)
    d = array-Distinct H p.type w

    go :
        (vs : List DataType)
        → drop_null (array p.type) ≡ vs
        → ((u : DataType) → Seen (array p.type) u → Widens u (data_type p))
          × ((c : DataType)
              → ((u : DataType) → Seen (array p.type) u → Widens u c)
              → Widens (data_type p) c)
    go [] e = absurd (false≢true (subst (λ vs. elem s vs ≡ true) e (kept (array p.type) d s seen)))
    go (t ∷ us) e = resolve_least (array p.type) d t us e hw
