-- ===== src/Typeutils/Fields/Steps.antt =====
-- utils/typeutils/fields.go: one key of a record in Process, and a merge.
use olake.Base.{
  String, ◌≡◌, refl, sym, ap, subst, ◌∙◌, Bool, false, not, ◌&&◌, ◌||◌, Option, none, some, List,
  [], ◌∷◌, ◌==◌, string_eq, All, arith, Bool-cases, Option-cases, inl, inr, ◌⊎◌, false≢true, eq_iff,
  ==-refl,
}
use olake.Base.Assoc.{lookup, insert, lookup-insert, insert-All}
use olake.Types.DataType.{DataType, null, data_type_eq, DataType-beq_iff, weight}
use olake.Types.DataType.Lattice.{Widens, HasWeight, Widens-trans}
use olake.Types.Property.Widening.{common_type-IsJoin}
use mathlib.Core.Option.{some-injective, none-ne-some}
use olake.Typeutils.Fields.{
  Field, Fields, new_field, get_type, settle, add_occurrence, add_occurrences, merge_field,
  merged_or_new, merge, Processed, changed_type, process_found, process_key,
}
use olake.Typeutils.Fields.Widening.{
  IsField, AllFields, Grows, new_field-IsField, settle-IsField, get_type-settle,
  add_occurrence-Takes, Grows-refl, Grows-trans, insert-AllFields, insert-Grows, insert_new-Grows,
}

-- A field with the occurrences of a list added
record TakesAll (ts : List DataType) (f g : Field) : Type 0 where
  is_field : IsField g
  wider : Widens (get_type f) (get_type g)
  pub covers : All (λ t. Widens t (get_type g)) ts

add_occurrences-TakesAll :
    (ts : List DataType) (f : Field)
    → All HasWeight ts
    → IsField f
    → TakesAll ts f (add_occurrences ts f)
unfolding add_occurrences
add_occurrences-TakesAll [] f a h = record { is_field = h; wider = Widens.same; covers = tt }
add_occurrences-TakesAll (t ∷ ts) f a h =
    let one = add_occurrence-Takes t f a.0 h in
    let rest = add_occurrences-TakesAll ts (add_occurrence t f) a.1 one.is_field in
    record {
      is_field = rest.is_field;
      wider = Widens-trans one.wider rest.wider;
      covers = (Widens-trans one.covers rest.wider, rest.covers);
    }

-- A field with another merged into it
record Merges (f g h : Field) : Type 0 where
  is_field : IsField h
  wider : Widens (get_type f) (get_type h)
  pub covers : Widens (get_type g) (get_type h)

merge_field-Merges : (f g : Field) → IsField f → IsField g → Merges f g (merge_field f g)
unfolding merge_field
merge_field-Merges f g hf hg =
    let takes =
      add_occurrences-TakesAll (hg.head ∷ hg.tail) f (hg.head_weighted, hg.tail_weighted) hf in
    let join = common_type-IsJoin hg.head hg.tail hg.head_weighted hg.tail_weighted in
    subst (λ ts. Merges f g (add_occurrences ts f)) (sym hg.occurred)
      (record {
        is_field = takes.is_field;
        wider = takes.wider;
        covers =
            subst (λ u. Widens u (get_type (add_occurrences (hg.head ∷ hg.tail) f))) (sym hg.typed)
              (join.least _ takes.covers.0 takes.covers.1);
      })

-- The entries of a map of fields that is written
abbrev pub AllEntries : Fields → Type 0
AllEntries = All λ e. IsField e.1

-- Every entry of the second map is covered in the result.
abbrev pub Covers : Fields → Fields → Type 0
Covers gs hs =
    (k : String) (g : Field)
    → lookup k gs ≡ some g
    → (h : Field) × (lookup k hs ≡ some h) × Widens (get_type g) (get_type h)

pub record Merged (fs gs hs : Fields) : Type 0 where
  pub all_fields : AllFields hs
  pub grows : Grows fs hs
  pub covers : Covers gs hs

lookup_inserted : (k : String) (g : Field) (fs : Fields) → lookup k (insert k g fs) ≡ some g
lookup_inserted k g fs = lookup-insert k k g fs ∙ rw (==-refl k) refl

insert_merged :
    (k : String) (g : Field) (fs : Fields)
    → AllFields fs
    → IsField g
    → AllFields (insert k (merged_or_new (lookup k fs) g) fs)
      × Grows fs (insert k (merged_or_new (lookup k fs) g) fs)
      × ((h : Field) × (lookup k (insert k (merged_or_new (lookup k fs) g) fs) ≡ some h)
          × Widens (get_type g) (get_type h))
unfolding merged_or_new
insert_merged k g fs all hg = elim (Option-cases (lookup k fs)) [
  | inl new ↦ rw new (
    insert-AllFields k g fs hg all,
    insert_new-Grows k g fs new,
    (g, lookup_inserted k g fs, Widens.same),
  )
  | inr (f, old) ↦
      let m = merge_field-Merges f g (all k f old) hg in
      rw old (
        insert-AllFields k (merge_field f g) fs m.is_field all,
        insert-Grows k f (merge_field f g) fs old m.wider,
        (merge_field f g, lookup_inserted k (merge_field f g) fs, m.covers),
      )
]

pub merge-Merged : (fs gs : Fields) → AllFields fs → AllEntries gs → Merged fs gs (merge fs gs)
unfolding merge lookup
merge-Merged fs [] all entries = record {
  all_fields = all;
  grows = Grows-refl fs;
  covers = λ k g e. absurd (none-ne-some _ e);
}
merge-Merged fs ((name, g) ∷ gs) all entries =
    let fs' = insert name (merged_or_new (lookup name fs) g) fs in
    let (all', grows, (h, e, w)) = insert_merged name g fs all entries.0 in
    let rest = merge-Merged fs' gs all' entries.1 in
    record {
      all_fields = rest.all_fields;
      grows = Grows-trans fs fs' (merge fs' gs) grows rest.grows;
      covers = λ k x found. elim (Bool-cases (name == k)) [
        | inl hit ↦
            let (y, e', w') = rest.grows name h e in
            (
              y,
              subst (λ i. lookup i (merge fs' gs) ≡ some y) ((eq_iff name k).0 hit) e',
              subst (λ z. Widens (get_type z) (get_type y)) (some-injective _ _ (rw hit at found))
                  (Widens-trans w w'),
            )
        | inr miss ↦ rest.covers k x (rw miss at found)
      ];
    }

abbrev pub type_of : Option Field → Option DataType
type_of none = none
type_of (some f) = some (get_type f)

abbrev pub type_at : String → Fields → Option DataType
type_at k fs = type_of (lookup k fs)

-- A type that a record has in a column is covered by a field, or will be by a mutation.
abbrev pub Noted : String → DataType → Processed → Type 0
Noted k t s =
    ((f : Field) × (lookup k s.fields ≡ some f) × Widens t (get_type f))
    ⊎ ((g : Field) × (lookup k s.mutations ≡ some g) × Widens t (get_type g))

abbrev pub flags : Processed → Bool
flags s = s.change_detected || s.type_change_detected

pub record Sound (s : Processed) : Type 0 where
  pub fields_sound : AllFields s.fields
  pub mutations_sound : AllEntries s.mutations

-- One key of the record
pub record Step (key : String) (t : DataType) (s s' : Processed) : Type 0 where
  pub sound : Sound s'
  pub grows : Grows s.fields s'.fields
  pub noted : Noted key t s'
  pub keeps_mutation :
      (k : String) → (key == k) ≡ false → lookup k s'.mutations ≡ lookup k s.mutations
  pub quiet :
      flags s' ≡ false
      → (flags s ≡ false)
        × (s'.mutations ≡ s.mutations)
        × ((k : String) → type_at k s'.fields ≡ type_at k s.fields)

type_at-insert :
    (key : String) (f g : Field) (fs : Fields)
    → lookup key fs ≡ some f
    → get_type g ≡ get_type f
    → (k : String) → type_at k (insert key g fs) ≡ type_at k fs
type_at-insert key f g fs old e k = elim (Bool-cases (key == k)) [
  | inl same ↦
      let there : lookup k fs ≡ some f =
        subst (λ i. lookup i fs ≡ some f) ((eq_iff key k).0 same) old in
      let here : lookup k (insert key g fs) ≡ some g = lookup-insert key k g fs ∙ rw same refl in
      ap type_of here ∙ ap some e ∙ ap type_of (sym there)
  | inr other ↦
      let here : lookup k (insert key g fs) ≡ lookup k fs =
        lookup-insert key k g fs ∙ rw other refl in
      ap type_of here
]

-- A field that is written back with a type that its type widens to, and covers the new one
kept-Step :
    (key : String) (t : DataType) (f g : Field) (s : Processed)
    → Sound s
    → lookup key s.fields ≡ some f
    → IsField g
    → get_type g ≡ get_type f
    → Widens t (get_type g)
    → Step key t s (record s { fields = insert key g s.fields })
kept-Step key t f g s h old hg same w = record {
  sound = record {
    fields_sound = insert-AllFields key g s.fields hg h.fields_sound;
    mutations_sound = h.mutations_sound;
  };
  grows = insert-Grows key f g s.fields old (subst (Widens (get_type f)) (sym same) Widens.same);
  noted = inl (g, lookup_inserted key g s.fields, w);
  keeps_mutation = λ k n. refl;
  quiet = λ q. (q, refl, type_at-insert key f g s.fields old same);
}

covers_new :
    (t : DataType) (f g : Field) → Merges f (new_field t) g → Widens t (get_type (settle g))
unfolding new_field get_type settle
covers_new t f g m = m.covers

changed_type-Step :
    (key : String) (t : DataType) (f g : Field) (s : Processed)
    → Sound s
    → HasWeight t
    → lookup key s.fields ≡ some f
    → Merges f (new_field t) g
    → Step key t s (changed_type key t (get_type f) g s)
unfolding changed_type
changed_type-Step key t f g s h w old m = elim (Bool-cases (get_type g == get_type f)) [
  | inl same ↦ rw same (
      kept-Step key t f (settle g) s h old (settle-IsField g m.is_field)
        (get_type-settle g ∙ (DataType-beq_iff (get_type g) (get_type f)).0 same)
        (covers_new t f g m))
  | inr differs ↦ rw differs (record {
    sound = record {
      fields_sound =
          insert-AllFields key (settle g) s.fields (settle-IsField g m.is_field) h.fields_sound;
      mutations_sound =
          insert-All (λ e. IsField e.1) key (new_field t) s.mutations (new_field-IsField t w)
            h.mutations_sound;
    };
    grows =
        insert-Grows key f (settle g) s.fields old
          (subst (Widens (get_type f)) (sym (get_type-settle g)) m.wider);
    noted = inl (settle g, lookup_inserted key (settle g) s.fields, covers_new t f g m);
    keeps_mutation = λ k n. lookup-insert key k (new_field t) s.mutations ∙ rw n refl;
    quiet = λ q. absurd (false≢true (sym q ∙ ground arith));
  })
]

weighted_not_null : (t : DataType) → HasWeight t → (t == null) ≡ false
unfolding weight
weighted_not_null t (w, e) = elim (Bool-cases (t == null)) [
  | inl hit ↦ absurd (none-ne-some w (ap weight (sym ((DataType-beq_iff t null).0 hit)) ∙ e))
  | inr miss ↦ miss
]

process_found-Step :
    (key : String) (t : DataType) (f : Field) (s : Processed)
    → Sound s
    → HasWeight t
    → lookup key s.fields ≡ some f
    → Step key t s (process_found key t f s)
unfolding process_found
process_found-Step key t f s h w old =
    let hf = h.fields_sound key f old in
    let m =
      merge_field-Merges (settle f) (new_field t) (settle-IsField f hf) (new_field-IsField t w) in
    elim (Bool-cases (not (t == null) && not (get_type f == t))) [
      | inl new ↦ rw new (
          changed_type-Step key t f (merge_field (settle f) (new_field t)) s h w old
            (from_settled f _ _ m))
      | inr known ↦
          let same : get_type f ≡ t =
            (DataType-beq_iff (get_type f) t).0 (ground (arith, weighted_not_null t w)) in
          rw known (
            kept-Step key t f (settle f) s h old (settle-IsField f hf) (get_type-settle f) (
              subst (Widens t) (sym (get_type-settle f)) (subst (Widens t) (sym same) Widens.same)))
    ]
  where
    from_settled : (f g h : Field) → Merges (settle f) g h → Merges f g h
    from_settled f g h m = record {
      is_field = m.is_field;
      wider = subst (λ u. Widens u (get_type h)) (get_type-settle f) m.wider;
      covers = m.covers;
    }

self_covers : (t : DataType) → Widens t (get_type (new_field t))
unfolding new_field get_type
self_covers t = Widens.same

pub process_key-Step :
    (key : String) (t : DataType) (s : Processed)
    → Sound s
    → HasWeight t
    → Step key t s (process_key key t (lookup key s.fields) s)
unfolding process_key
process_key-Step key t s h w = elim (Option-cases (lookup key s.fields)) [
  | inr (f, old) ↦ rw old (process_found-Step key t f s h w old)
  | inl new ↦ rw new (record {
    sound = record {
      fields_sound = h.fields_sound;
      mutations_sound =
          insert-All (λ e. IsField e.1) key (new_field t) s.mutations (new_field-IsField t w)
            h.mutations_sound;
    };
    grows = Grows-refl s.fields;
    noted = inr (new_field t, lookup_inserted key (new_field t) s.mutations, self_covers t);
    keeps_mutation = λ k n. lookup-insert key k (new_field t) s.mutations ∙ rw n refl;
    quiet = λ q. absurd (false≢true (sym q ∙ ground arith));
  })
]
