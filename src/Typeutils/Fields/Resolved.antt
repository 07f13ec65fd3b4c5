-- ===== src/Typeutils/Fields/Resolved.antt =====
-- utils/typeutils/resolver.go: Resolve on two objects.
use olake.Base.{
  String, ◌≡◌, refl, ap, ◌∙◌, Bool, true, false, ◌||◌, none, some, [], ◌∷◌, arith, if◌then◌else◌,
  ◌==◌, string_eq, ==-refl, Bool-cases, inl, inr,
}
use olake.Base.Assoc.{lookup, insert}
use olake.Types.Set.{Hashing}
use olake.Types.DataType.{DataType, null, data_type_eq}
use olake.Types.Stream.{Stream, upsert_field}
use olake.Typeutils.Fields.{
  Field, is_missing, new_field, add_occurrence, add_occurrences, merge_field, merged_or_new, merge,
  new_fields, set_nullables, all_fields, is_nullable, upsert_all, resolve,
}

lookup_single : {V : Type 0} (c : String) (v : V) → lookup c ((c, v) ∷ []) ≡ some v
unfolding lookup
lookup_single c v = rw (==-refl c) refl

insert_single : {V : Type 0} (c : String) (v w : V) → insert c w ((c, v) ∷ []) ≡ (c, w) ∷ []
unfolding insert
insert_single c v w = rw (==-refl c) refl

merge_single :
    (c : String) (f g : Field) → merge ((c, f) ∷ []) ((c, g) ∷ []) ≡ (c, merge_field f g) ∷ []
unfolding merge merged_or_new
merge_single c f g =
    ap (λ o. insert c (merged_or_new o g) ((c, f) ∷ [])) (lookup_single c f)
    ∙ insert_single c f (merge_field f g)

set_nullables_single :
    (c : String) (t : DataType) (f : Field)
    → set_nullables ((c, t) ∷ []) ((c, f) ∷ []) ≡ (c, f) ∷ []
unfolding set_nullables
set_nullables_single c t f =
    ap (λ o. if is_missing o then (c, record f { is_null = true }) ∷ [] else (c, f) ∷ [])
      (lookup_single c t)

all_fields_single :
    (c : String) (t u : DataType)
    → all_fields (((c, t) ∷ []) ∷ ((c, u) ∷ []) ∷ []) []
      ≡ (c, merge_field (new_field t) (new_field u)) ∷ []
unfolding all_fields new_fields merge merged_or_new set_nullables lookup insert
all_fields_single c t u =
    ap (λ fs. merge fs ((c, new_field u) ∷ [])) (set_nullables_single c u (new_field t))
    ∙ merge_single c (new_field t) (new_field u)

or_false : (b : Bool) → (b || false) ≡ b
or_false b = ground arith

upsert_single :
    (HD : Hashing DataType) (s : Stream) (c : String) (t u : DataType)
    → upsert_all HD ((c, merge_field (new_field t) (new_field u)) ∷ []) s
      ≡ (if t == u then some (upsert_field HD s c t (t == null) false) else none)
unfolding upsert_all merge_field add_occurrences add_occurrence new_field is_nullable
upsert_single HD s c t u = elim (Bool-cases (t == u)) [
  | inl same ↦ rw same (ap (λ b. some (upsert_field HD s c t b false)) (or_false (t == null)))
  | inr differs ↦ rw differs refl
]

-- Two objects with one and the same column: where it has one type in both, Resolve writes the column once, nullable if that type
-- is null; where it has two types, Resolve reads a type that has been forgotten, and panics.
pub resolve_two :
    (HD : Hashing DataType) (s : Stream) (column : String) (t u : DataType)
    → resolve HD s (((column, t) ∷ []) ∷ ((column, u) ∷ []) ∷ [])
      ≡ (if t == u then some (upsert_field HD s column t (t == null) false) else none)
unfolding resolve
resolve_two HD s column t u =
    ap (λ fs. upsert_all HD fs s) (all_fields_single column t u) ∙ upsert_single HD s column t u
