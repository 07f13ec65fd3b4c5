-- ===== src/Types/DataType/Lattice.antt =====
-- types/type_schema.go: the common ancestor is a join in the order of the typecast tree.
pub mod Associative
use Prim.Native.Nat.{ℕ}
use olake.Base.{
  ◌≡◌, refl, Bool, true, false, not, ◌||◌, Option, none, some, List, [], ◌∷◌, arith, sym, ◌∙◌, ap,
  subst, false≢true, ◌⊎◌, Option-cases, elem, all, All, ◌==◌, Bool-cases, inl, inr,
}
use olake.Types.DataType.{
  DataType, int32, int64, float32, float64, string, bool, timestamp, timestamp_milli,
  timestamp_micro, timestamp_nano, other, weight, get_common_ancestor_type, data_type_eq,
  DataType-beq_iff, data_type_beq,
}

-- One edge of the typecast tree, from a type to the wider one above it.
pub data Edge : DataType → DataType → Type 0 where
  bool_int32 : Edge bool int32
  int32_int64 : Edge int32 int64
  int64_float64 : Edge int64 float64
  float32_float64 : Edge float32 float64
  float64_string : Edge float64 string
  timestamp_string : Edge timestamp_nano string
  micro_nano : Edge timestamp_micro timestamp_nano
  milli_micro : Edge timestamp_milli timestamp_micro
  second_milli : Edge timestamp timestamp_milli

-- `Widens a b`: every value of type `a` can be widened to type `b`.
pub data Widens (a : DataType) : DataType → Type 0 where
  same : Widens a a
  wider : {b c : DataType} → Widens a b → Edge b c → Widens a c

abbrev weighted : List DataType
weighted =
    bool ∷ int32 ∷ int64 ∷ float64 ∷ float32 ∷ string ∷ timestamp ∷ timestamp_milli
    ∷ timestamp_micro ∷ timestamp_nano ∷ []

-- A type of the tree, by its weight.
abbrev pub HasWeight : DataType → Type 0
HasWeight t = (w : ℕ) × (weight t ≡ some w)

check_all : (p : DataType → Bool) (t : DataType) → all p weighted ≡ true → HasWeight t → p t ≡ true
unfolding weight
check_all p (other s) h (w, e) = cc
check_all p _ h (w, e) = ground arith

abbrev ancestors : DataType → List DataType
ancestors bool = bool ∷ int32 ∷ int64 ∷ float64 ∷ string ∷ []
ancestors int32 = int32 ∷ int64 ∷ float64 ∷ string ∷ []
ancestors int64 = int64 ∷ float64 ∷ string ∷ []
ancestors float64 = float64 ∷ string ∷ []
ancestors float32 = float32 ∷ float64 ∷ string ∷ []
ancestors timestamp = timestamp ∷ timestamp_milli ∷ timestamp_micro ∷ timestamp_nano ∷ string ∷ []
ancestors timestamp_milli = timestamp_milli ∷ timestamp_micro ∷ timestamp_nano ∷ string ∷ []
ancestors timestamp_micro = timestamp_micro ∷ timestamp_nano ∷ string ∷ []
ancestors timestamp_nano = timestamp_nano ∷ string ∷ []
ancestors t = t ∷ []

elem_All :
    (P : DataType → Type 0) (ts : List DataType) (t : DataType) → All P ts → elem t ts ≡ true → P t
elem_All P [] t a h = absurd (false≢true h)
elem_All P (u ∷ ts) t a h = elim (Bool-cases (u == t)) [
  | inl hit ↦ subst P ((DataType-beq_iff u t).0 hit) a.0
  | inr miss ↦ elem_All P ts t a.1 (rw miss at h)
]

ruleset edges = (
  same, wider, bool_int32, int32_int64, int64_float64, float32_float64, float64_string,
  timestamp_string, micro_nano, milli_micro, second_milli,
)

ancestors-Widens : (t : DataType) → All (Widens t) (ancestors t)
ancestors-Widens (other s) = (same, tt)
ancestors-Widens _ = search edges

ancestors_self : (t : DataType) → elem t (ancestors t) ≡ true
ancestors_self (other s) = ground (arith, DataType-beq_iff (other s) (other s))
ancestors_self t = ground (arith, DataType-beq_iff t t)

ancestors_step :
    (t b c : DataType) → Edge b c → elem b (ancestors t) ≡ true → elem c (ancestors t) ≡ true
unfolding data_type_beq
ancestors_step t b c bool_int32 h = ground arith
ancestors_step t b c _ h = ground arith

Widens-ancestors : {t u : DataType} → Widens t u → elem u (ancestors t) ≡ true
Widens-ancestors {t} same = ancestors_self t
Widens-ancestors {t} (wider {b} {c} w e) = ancestors_step t b c e (Widens-ancestors w)

upper_table :
    all (λ a. all (λ b. elem (get_common_ancestor_type a b) (ancestors a)) weighted) weighted ≡ true
unfolding get_common_ancestor_type data_type_beq
upper_table = refl

least_table :
    all
      (λ a.
        all
          (λ b.
            all
              (λ c. not (elem c (ancestors b)) || elem c (ancestors (get_common_ancestor_type a b)))
              (ancestors a))
          weighted)
      weighted
    ≡ true
unfolding get_common_ancestor_type data_type_beq
least_table = refl

pub lca_comm : (a b : DataType) → get_common_ancestor_type a b ≡ get_common_ancestor_type b a
unfolding get_common_ancestor_type
lca_comm a b = ground arith

least_at :
    (b d : DataType) (cs : List DataType) (c : DataType)
    → all (λ c. not (elem c (ancestors b)) || elem c (ancestors d)) cs ≡ true
    → elem c cs ≡ true
    → elem c (ancestors b) ≡ true
    → elem c (ancestors d) ≡ true
least_at b d [] c t m h = absurd (false≢true m)
least_at b d (x ∷ cs) c t m h = elim (Bool-cases (x == c)) [
  | inl hit ↦ let e : x ≡ c = (DataType-beq_iff x c).0 hit in ground arith
  | inr miss ↦ least_at b d cs c (ground arith) (rw miss at m) h
]

lca_upper : (x y : DataType) → HasWeight x → HasWeight y → Widens x (get_common_ancestor_type x y)
lca_upper x y hx hy =
    elem_All (Widens x) (ancestors x) (get_common_ancestor_type x y) (ancestors-Widens x) (
      check_all (λ b. elem (get_common_ancestor_type x b) (ancestors x)) y
        (check_all (λ a. all (λ b. elem (get_common_ancestor_type a b) (ancestors a)) weighted) x
          upper_table hx)
        hy)

lca_least :
    (a b c : DataType)
    → HasWeight a
    → HasWeight b
    → Widens a c
    → Widens b c
    → Widens (get_common_ancestor_type a b) c
lca_least a b c ha hb wa wb =
    let d = get_common_ancestor_type a b in
    elem_All (Widens d) (ancestors d) c (ancestors-Widens d) (
      least_at b d (ancestors a) c
        (check_all
          (λ y.
            all
              (λ z. not (elem z (ancestors y)) || elem z (ancestors (get_common_ancestor_type a y)))
              (ancestors a))
          b
          (check_all
            (λ x.
              all
                (λ y.
                  all
                    (λ z.
                      not (elem z (ancestors y))
                      || elem z (ancestors (get_common_ancestor_type x y)))
                    (ancestors x))
                weighted)
            a least_table ha)
          hb)
        (Widens-ancestors wa) (Widens-ancestors wb))

-- On the types of the typecast tree GetCommonAncestorType is the least type to which both can be
-- widened: it is an upper bound of the two, and widens to every other upper bound.
pub lca_join :
    (a b : DataType)
    → HasWeight a
    → HasWeight b
    → Widens a (get_common_ancestor_type a b)
      × Widens b (get_common_ancestor_type a b)
      × ((c : DataType) → Widens a c → Widens b c → Widens (get_common_ancestor_type a b) c)
lca_join a b ha hb =
    (lca_upper a b ha hb, rw lca_comm (lca_upper b a hb ha), λ c wa wb. lca_least a b c ha hb wa wb)

pub Widens-trans : {a b c : DataType} → Widens a b → Widens b c → Widens a c
Widens-trans w same = w
Widens-trans w (wider v e) = wider (Widens-trans w v) e

has_weight : Option ℕ → Bool
has_weight none = false
has_weight (some w) = true

weight_table :
    all (λ a. all (λ b. has_weight (weight (get_common_ancestor_type a b))) weighted) weighted
    ≡ true
unfolding get_common_ancestor_type has_weight
weight_table = refl

pub lca-HasWeight :
    (a b : DataType) → HasWeight a → HasWeight b → HasWeight (get_common_ancestor_type a b)
unfolding has_weight
lca-HasWeight a b ha hb =
    let h =
      check_all (λ y. has_weight (weight (get_common_ancestor_type a y))) b
        (check_all (λ x. all (λ y. has_weight (weight (get_common_ancestor_type x y))) weighted) a
          weight_table ha)
        hb in
    elim (Option-cases (weight (get_common_ancestor_type a b))) [
      | inl e ↦ absurd (false≢true (sym (ap has_weight e) ∙ h))
      | inr s ↦ s
    ]
