-- ===== src/Typeutils/Fields/Widening.antt =====
-- utils/typeutils/fields.go: the types of fields only widen.
use olake.Base.{
  String, ◌≡◌, refl, sym, ap, subst, ◌∙◌, true, none, some, List, [], ◌∷◌, ◌++◌, ◌==◌, string_eq,
  elem, All, Bool-cases, inl, inr, eq_iff,
}
use olake.Base.Assoc.{lookup, insert, lookup-insert}
use olake.Types.DataType.{DataType, common_type, data_type_eq, get_common_ancestor_type}
use olake.Types.Property.Widening.{common_type-IsJoin, All_elem}
use mathlib.Core.Option.{some-injective, none-ne-some}
use olake.Types.DataType.Lattice.{Widens, HasWeight, lca_join, lca-HasWeight, Widens-trans}
use olake.Typeutils.Fields.{Field, Fields, new_field, common_of, get_type, settle, add_occurrence}

-- Types of the typecast tree alone have occurred, at least one, and the type is their common one.
pub record IsField (f : Field) : Type 0 where
  pub head : DataType
  pub tail : List DataType
  pub occurred : f.type_occurrence ≡ head ∷ tail
  pub head_weighted : HasWeight head
  pub tail_weighted : All HasWeight tail
  pub typed : get_type f ≡ common_type head tail

pub new_field-IsField : (t : DataType) → HasWeight t → IsField (new_field t)
unfolding new_field get_type common_type
new_field-IsField t h = record {
  head = t;
  tail = [];
  occurred = refl;
  head_weighted = h;
  tail_weighted = tt;
  typed = refl;
}

pub settle-IsField : (f : Field) → IsField f → IsField (settle f)
unfolding settle get_type
settle-IsField f h = record {
  head = h.head;
  tail = h.tail;
  occurred = h.occurred;
  head_weighted = h.head_weighted;
  tail_weighted = h.tail_weighted;
  typed = h.typed;
}

pub get_type-settle : (f : Field) → get_type (settle f) ≡ get_type f
unfolding settle get_type
get_type-settle f = refl

common_type-append :
    (t : DataType) (ts : List DataType) (u : DataType)
    → common_type t (ts ++ u ∷ []) ≡ get_common_ancestor_type (common_type t ts) u
unfolding common_type
common_type-append t [] u = refl
common_type-append t (v ∷ ts) u = common_type-append (get_common_ancestor_type t v) ts u

All-append :
    (ts : List DataType) (u : DataType)
    → All HasWeight ts
    → HasWeight u
    → All HasWeight (ts ++ u ∷ [])
All-append [] u a h = (h, tt)
All-append (t ∷ ts) u a h = (a.0, All-append ts u a.1 h)

common_type-HasWeight :
    (t : DataType) (ts : List DataType)
    → HasWeight t
    → All HasWeight ts
    → HasWeight (common_type t ts)
unfolding common_type
common_type-HasWeight t [] h a = h
common_type-HasWeight t (u ∷ ts) h a =
    common_type-HasWeight (get_common_ancestor_type t u) ts (lca-HasWeight t u h a.0) a.1

member_widens :
    (u t : DataType) (ts : List DataType)
    → HasWeight t
    → All HasWeight ts
    → elem u (t ∷ ts) ≡ true
    → Widens u (common_type t ts)
member_widens u t ts h a k =
    let join = common_type-IsJoin t ts h a in
    All_elem (λ v. Widens v (common_type t ts)) (t ∷ ts) u (join.first, join.rest) k

-- One more occurrence
pub record Takes (t : DataType) (f g : Field) : Type 0 where
  pub is_field : IsField g
  pub wider : Widens (get_type f) (get_type g)
  pub covers : Widens t (get_type g)

pub add_occurrence-Takes :
    (t : DataType) (f : Field) → HasWeight t → IsField f → Takes t f (add_occurrence t f)
unfolding add_occurrence get_type common_of
add_occurrence-Takes t f w h = elim (Bool-cases (elem t f.type_occurrence)) [
  | inl hit ↦ rw hit (record {
    is_field = h;
    wider = Widens.same;
    covers = subst (Widens t) (sym h.typed) (
        member_widens t h.head h.tail h.head_weighted h.tail_weighted
          (subst (λ ts. elem t ts ≡ true) h.occurred hit));
  })
  | inr miss ↦ rw miss (
      added (record f { data_type = none; type_occurrence = f.type_occurrence ++ t ∷ [] }) refl
        refl)
]
  where
    added :
        (g : Field)
        → g.data_type ≡ none
        → g.type_occurrence ≡ f.type_occurrence ++ t ∷ []
        → Takes t f g
    added g forgotten occ =
        let occurred : g.type_occurrence ≡ h.head ∷ (h.tail ++ t ∷ []) =
          occ ∙ ap (λ ts. ts ++ t ∷ []) h.occurred in
        let typed : get_type g ≡ common_type h.head (h.tail ++ t ∷ []) =
          rw forgotten (ap common_of occurred) in
        let joined = typed ∙ common_type-append h.head h.tail t in
        let join =
          lca_join (common_type h.head h.tail) t
            (common_type-HasWeight h.head h.tail h.head_weighted h.tail_weighted) w in
        record {
          is_field = record {
            head = h.head;
            tail = h.tail ++ t ∷ [];
            occurred = occurred;
            head_weighted = h.head_weighted;
            tail_weighted = All-append h.tail t h.tail_weighted w;
            typed = typed;
          };
          wider =
              subst (λ u. Widens u (get_type g)) (sym h.typed)
                (subst (Widens (common_type h.head h.tail)) (sym joined) join.0);
          covers = subst (Widens t) (sym joined) join.1;
        }

-- Fields of which every one is sound
abbrev pub AllFields : Fields → Type 0
AllFields fs = (k : String) (f : Field) → lookup k fs ≡ some f → IsField f

-- Every field is still there, with a type that its type widens to.
abbrev pub Grows : Fields → Fields → Type 0
Grows fs gs =
    (k : String) (f : Field)
    → lookup k fs ≡ some f
    → (g : Field) × (lookup k gs ≡ some g) × Widens (get_type f) (get_type g)

pub Grows-refl : (fs : Fields) → Grows fs fs
Grows-refl fs k f h = (f, h, Widens.same)

pub Grows-trans : (fs gs hs : Fields) → Grows fs gs → Grows gs hs → Grows fs hs
Grows-trans fs gs hs a b k f h =
    let (g, e, w) = a k f h in let (x, e', w') = b k g e in (x, e', Widens-trans w w')

pub insert-AllFields :
    (k : String) (f : Field) (fs : Fields) → IsField f → AllFields fs → AllFields (insert k f fs)
insert-AllFields k f fs h all j g e = elim (Bool-cases (k == j)) [
  | inl same ↦
      subst IsField (some-injective _ _ (sym (lookup-insert k j f fs ∙ rw same refl) ∙ e)) h
  | inr other ↦ all j g (sym (lookup-insert k j f fs ∙ rw other refl) ∙ e)
]

pub insert-Grows :
    (k : String) (f g : Field) (fs : Fields)
    → lookup k fs ≡ some f
    → Widens (get_type f) (get_type g)
    → Grows fs (insert k g fs)
insert-Grows k f g fs h w j x e = elim (Bool-cases (k == j)) [
  | inl same ↦ (
    g,
    lookup-insert k j g fs ∙ rw same refl,
    subst (λ y. Widens (get_type y) (get_type g))
        (some-injective _ _ (sym h ∙ ap (λ i. lookup i fs) ((eq_iff k j).0 same) ∙ e)) w,
  )
  | inr other ↦ (x, lookup-insert k j g fs ∙ rw other e, Widens.same)
]

pub insert_new-Grows :
    (k : String) (g : Field) (fs : Fields) → lookup k fs ≡ none → Grows fs (insert k g fs)
insert_new-Grows k g fs h j x e = elim (Bool-cases (k == j)) [
  | inl same ↦ absurd (none-ne-some x (sym h ∙ ap (λ i. lookup i fs) ((eq_iff k j).0 same) ∙ e))
  | inr other ↦ (x, lookup-insert k j g fs ∙ rw other e, Widens.same)
]
