-- ===== src/Typeutils/Fields/Processing.antt =====
-- utils/typeutils/fields.go: Process on a record.
use olake.Base.{
  String, ◌≡◌, refl, ap, ◌∙◌, true, false, some, [], ◌∷◌, ◌==◌, string_eq, elem, All, Distinct,
  arith, inl, inr, ◌⊎◌, Bool-cases,
}
use olake.Base.Assoc.{keys, lookup}
use olake.Types.DataType.{DataType}
use olake.Types.DataType.Lattice.{Widens, HasWeight, Widens-trans}
use olake.Typeutils.Fields.{
  Field, Record, Fields, get_type, merge, Processed, process_key, process_loop, finish, process,
}
use olake.Typeutils.Fields.Widening.{AllFields, Grows, Grows-refl, Grows-trans}
use olake.Typeutils.Fields.Steps.{
  Merged, merge-Merged, type_at, Noted, flags, Sound, Step, process_key-Step,
}

record Ran (r : Record) (s s' : Processed) : Type 0 where
  sound : Sound s'
  grows : Grows s.fields s'.fields
  noted : All (λ e. Noted e.0 e.1 s') r
  keeps : (k : String) (t : DataType) → elem k (keys r) ≡ false → Noted k t s → Noted k t s'
  quiet :
      flags s' ≡ false
      → (flags s ≡ false)
        × (s'.mutations ≡ s.mutations)
        × ((k : String) → type_at k s'.fields ≡ type_at k s.fields)

keeps-Noted :
    (key : String) (t : DataType) (s s' : Processed)
    → Step key t s s'
    → (k : String) (u : DataType) → (key == k) ≡ false
    → Noted k u s
    → Noted k u s'
keeps-Noted key t s s' st k u n (inl (f, e, w)) =
    let (g, e', w') = st.grows k f e in inl (g, e', Widens-trans w w')
keeps-Noted key t s s' st k u n (inr (g, e, w)) = inr (g, st.keeps_mutation k n ∙ e, w)

process_loop-Ran :
    (r : Record) (s : Processed)
    → Sound s
    → Distinct (keys r)
    → All (λ e. HasWeight e.1) r
    → Ran r s (process_loop r s)
unfolding process_loop
process_loop-Ran [] s h d w = record {
  sound = h;
  grows = Grows-refl s.fields;
  noted = tt;
  keeps = λ k t n x. x;
  quiet = λ q. (q, refl, λ k. refl);
}
process_loop-Ran ((key, t) ∷ r) s h d w =
    let s1 = process_key key t (lookup key s.fields) s in
    let one = process_key-Step key t s h w.0 in
    let rest = process_loop-Ran r s1 one.sound d.1 w.1 in
    record {
      sound = rest.sound;
      grows = Grows-trans s.fields s1.fields (process_loop r s1).fields one.grows rest.grows;
      noted = (rest.keeps key t d.0 one.noted, rest.noted);
      keeps = λ k u n x.
          rest.keeps k u (ground arith) (keeps-Noted key t s s1 one k u (ground arith) x);
      quiet = λ q.
          let (q1, m1, t1) = rest.quiet q in
          let (q0, m0, t0) = one.quiet q1 in (q0, m1 ∙ m0, λ k. t1 k ∙ t0 k);
    }

-- Where every field is sound, and the record has each column once, with types of the typecast tree: after Process every
-- field is still there and sound, its type is one that the old type widens to, and so is the type of each column in the record.
-- Process reports a change or a change of types, or every column has the type that it had.
pub process_lem :
    (fs : Fields) (r : Record)
    → AllFields fs
    → Distinct (keys r)
    → All (λ e. HasWeight e.1) r
    → AllFields (process fs r).fields
      × Grows fs (process fs r).fields
      × All
          (λ e. (f : Field) × (lookup e.0 (process fs r).fields ≡ some f) × Widens e.1 (get_type f))
          r
      × ((flags (process fs r) ≡ true)
          ⊎ ((k : String) → type_at k (process fs r).fields ≡ type_at k fs))
unfolding process finish merge
process_lem fs r all d w =
    let start : Processed = record {
      fields = fs;
      mutations = [];
      change_detected = false;
      type_change_detected = false;
    } in
    let ran = process_loop-Ran r start (record { fields_sound = all; mutations_sound = tt }) d w in
    let s = process_loop r start in
    let merged =
      merge-Merged s.fields s.mutations ran.sound.fields_sound ran.sound.mutations_sound in
    (
      merged.all_fields,
      Grows-trans fs s.fields (merge s.fields s.mutations) ran.grows merged.grows,
      all_covered r s merged ran.noted,
      elim (Bool-cases (flags s)) [
        | inl changed ↦ inl changed
        | inr q ↦
            let (_, unchanged, same) = ran.quiet q in
            inr (λ k. ap (λ g. type_at k (merge s.fields g)) unchanged ∙ same k)
      ],
    )
  where
    covered :
        (s : Processed)
        → Merged s.fields s.mutations (merge s.fields s.mutations)
        → (k : String) (t : DataType) → Noted k t s
        → (f : Field) × (lookup k (merge s.fields s.mutations) ≡ some f) × Widens t (get_type f)
    covered s m k t (inl (f, e, w)) = let (g, e', w') = m.grows k f e in (g, e', Widens-trans w w')
    covered s m k t (inr (g, e, w)) = let (h, e', w') = m.covers k g e in (h, e', Widens-trans w w')

    all_covered :
        (r : Record) (s : Processed)
        → Merged s.fields s.mutations (merge s.fields s.mutations)
        → All (λ e. Noted e.0 e.1 s) r
        → All
            (λ e.
              (f : Field) × (lookup e.0 (merge s.fields s.mutations) ≡ some f)
              × Widens e.1 (get_type f))
            r
    all_covered [] s m a = tt
    all_covered ((k, t) ∷ r) s m a = (covered s m k t a.0, all_covered r s m a.1)
