-- ===== src/Tests/Occurrences.antt =====
-- utils/typeutils/fields.go and resolver.go.
use olake.Base.{
  String, ◌≡◌, refl, true, false, none, some, [], ◌∷◌, All, ◌⊎◌, if◌then◌else◌, ◌==◌, string_eq,
}
use olake.Base.Assoc.{lookup, insert}
use olake.Types.DataType.{null, int32, int64, float64, string, weight, data_type_eq}
use olake.Types.DataType.Lattice.{Widens}
use olake.Types.Stream.{upsert_field}
use olake.Typeutils.Fields.{Field, Record, Fields, new_field, get_type, process, resolve}
use olake.Typeutils.Fields.Widening.{AllFields, Grows, new_field-IsField, insert-AllFields}
use olake.Typeutils.Fields.Steps.{type_at, flags}
use olake.Typeutils.Fields.Processing.{process_lem}
use olake.Typeutils.Fields.Resolved.{resolve_two}
use mathlib.Core.Option.{none-ne-some}
use olake.Tests.Columns.{type_hashing}
use olake.Tests.States.{table}

abbrev columns : Fields
columns = insert "id" (new_field int32) []

columns-AllFields : AllFields columns
unfolding weight lookup
columns-AllFields =
    insert-AllFields "id" (new_field int32) [] (new_field-IsField int32 (1, refl))
      (λ k f e. absurd (none-ne-some f e))

abbrev row : Record
row = ("id", float64) ∷ ("name", string) ∷ []

process_lem_example :
    AllFields (process columns row).fields
    × Grows columns (process columns row).fields
    × All
        (λ e.
          (f : Field) × (lookup e.0 (process columns row).fields ≡ some f)
          × Widens e.1 (get_type f))
        row
    × ((flags (process columns row) ≡ true)
        ⊎ ((k : String) → type_at k (process columns row).fields ≡ type_at k columns))
unfolding weight
process_lem_example =
    process_lem columns row columns-AllFields (refl, (refl, tt)) ((3, refl), ((5, refl), tt))

resolve_two_example :
    resolve type_hashing (table "events") ((("n", int64) ∷ []) ∷ (("n", string) ∷ []) ∷ []) ≡ (
      if int64 == string
      then some (upsert_field type_hashing (table "events") "n" int64 (int64 == null) false)
      else none)
resolve_two_example = resolve_two type_hashing (table "events") "n" int64 string
