-- ===== src/Types/Catalog/Columns.antt =====
-- types/catalog.go: the columns that stay selected across discoveries.
use olake.Base.{
  String, ◌≡◌, refl, ap, ◌∙◌, Bool, false, not, Option, none, some, List, [], ◌∷◌, ◌&&◌, ◌||◌,
  arith, string_eq, is_nil, elem, eq_iff, Distinct,
}
use olake.Base.Assoc.{lookup, keys, lookup_absent}
use olake.Types.Set.{exists, new_set, Hashing, hash_with}
use olake.Types.Property.{Property}
use olake.Types.TypeSchema.{column_names}
use olake.Types.Stream.{Stream}
use olake.Types.Configured.{SelectedColumns}
use olake.Types.Set.Plain.{exists-new_set}
use olake.Types.Catalog.{keep_columns, merge_columns}

abbrev pub passes : (String → Property → Bool) → String → Option Property → Bool
passes keep c none = false
passes keep c (some p) = keep c p

passes-ext :
    (keep keep' : String → Property → Bool)
    → ((c : String) (p : Property) → keep c p ≡ keep' c p)
    → (c : String) (o : Option Property) → passes keep c o ≡ passes keep' c o
passes-ext keep keep' e c none = refl
passes-ext keep keep' e c (some p) = e c p

elem-keep_columns :
    (keep : String → Property → Bool) (ps : List (String × Property)) (c : String)
    → Distinct (keys ps)
    → elem c (keep_columns keep ps) ≡ passes keep c (lookup c ps)
unfolding keep_columns lookup
elem-keep_columns keep [] c d = refl
elem-keep_columns keep ((k, p) ∷ ps) c d = ground (
  arith,
  eq_iff k c,
  elem-keep_columns keep ps c d.1,
  lookup_absent k ps d.0,
  λ (q : k ≡ c). ap (λ j. lookup j ps) q,
  λ (q : k ≡ c). ap (λ j. keep j p) q,
)

module _ (HS : Hashing String)
    (inj : (a b : String) → hash_with HS none a ≡ hash_with HS none b → a ≡ b) where
  -- Where the hash of names is injective, a column of the new schema stays selected after a merge
  -- with a nonempty selection exactly when OLake adds it, or it was selected, or it is new and new
  -- columns are synced; a column that is not in the new schema is not selected.
  pub merge_columns-elem :
      (sel : SelectedColumns) (old new : Stream) (c : String)
      → is_nil sel.columns ≡ false
      → Distinct (column_names new.schema)
      → elem c (merge_columns HS (some sel) old new).columns
        ≡ passes
            (λ col prop.
              prop.olake_column
              || elem col sel.columns
              || (sel.sync_new_columns && not (elem col (column_names old.schema))))
            c
            (lookup c new.schema.properties)
  unfolding merge_columns
  merge_columns-elem sel old new c h d = rw h (
      elem-keep_columns _ new.schema.properties c d
      ∙ passes-ext
          (λ col prop.
            prop.olake_column
            || exists HS (new_set HS sel.columns) col
            || (sel.sync_new_columns && not (exists HS (new_set HS (column_names old.schema)) col)))
          (λ col prop.
            prop.olake_column
            || elem col sel.columns
            || (sel.sync_new_columns && not (elem col (column_names old.schema))))
          (λ col prop. ground (
            arith,
            exists-new_set HS inj sel.columns col,
            exists-new_set HS inj (column_names old.schema) col,
          ))
          c (lookup c new.schema.properties))
