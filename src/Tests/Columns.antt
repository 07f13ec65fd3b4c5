-- ===== src/Tests/Columns.antt =====
-- types/data_types.go, types/type_schema.go and the columns of types/stream_configured.go.
use olake.Base.{
  String, ◌≡◌, refl, ap, true, false, none, some, [], ◌∷◌, ◌==◌, string_eq, Perm, false≢true,
}
use olake.Base.Assoc.{lookup, insert}
use olake.Utils.Text.{empty_text}
use olake.Types.Set.{Hashing, new_set, insert_all, insert_one, exists, empty, array, hash_with}
use olake.Types.Set.Invariant.{IsWf, new_set-IsWf}
use olake.Types.DataType.{
  DataType, null, int32, float32, get_common_ancestor_type, weight, data_type_eq, data_type_beq,
}
use olake.Types.DataType.Lattice.{Widens, HasWeight, lca_join}
use olake.Types.DataType.Names.{to_iceberg_name}
use olake.Types.Property.{Property, data_type}
use olake.Types.Property.Widening.{Seen, data_type-join}
use olake.Types.TypeSchema.{TypeSchema, get_property, add_types, has_destination_column_name}
use olake.Types.TypeSchema.Columns.{
  add_types-Widens, has_destination_column_name_unsettled, with_columns,
}

abbrev pub type_hashing : Hashing DataType
type_hashing = record {
  hashable = none;
  identifiable = none;
  structure_hash = λ t. some (to_iceberg_name t);
  zero_value = null;
}

lca_join_example :
    Widens int32 (get_common_ancestor_type int32 float32)
    × Widens float32 (get_common_ancestor_type int32 float32)
    × ((c : DataType)
        → Widens int32 c
        → Widens float32 c
        → Widens (get_common_ancestor_type int32 float32) c)
unfolding weight
lca_join_example = lca_join int32 float32 (1, refl) (4, refl)

abbrev counted : Property
counted = record {
  type = new_set type_hashing (int32 ∷ null ∷ []);
  destination_column_name = "n";
  olake_column = false;
}

counted-IsWf : IsWf type_hashing counted.type
counted-IsWf = new_set-IsWf type_hashing (int32 ∷ null ∷ [])

counted-HasWeight : (u : DataType) → Seen (array counted.type) u → HasWeight u
unfolding new_set insert_all insert_one exists empty hash_with insert data_type_beq to_iceberg_name
    weight
counted-HasWeight int32 h = (1, refl)
counted-HasWeight null h = absurd (h.1 refl)
counted-HasWeight _ h = absurd (false≢true h.0)

data_type-join_example :
    ((u : DataType) → Seen (array counted.type) u → Widens u (data_type counted))
    × ((c : DataType)
        → ((u : DataType) → Seen (array counted.type) u → Widens u c)
        → Widens (data_type counted) c)
unfolding new_set insert_all insert_one exists empty hash_with insert data_type_beq to_iceberg_name
data_type-join_example =
    data_type-join type_hashing counted int32 counted-IsWf
      (refl, λ e. false≢true (ap (λ t. t == null) e)) counted-HasWeight

abbrev counted_columns : TypeSchema
counted_columns = with_columns (("n", counted) ∷ [])

widened-HasWeight :
    (u : DataType)
    → Seen (array (insert_all type_hashing counted.type (float32 ∷ []))) u
    → HasWeight u
unfolding new_set insert_all insert_one exists empty hash_with insert data_type_beq to_iceberg_name
    weight
widened-HasWeight int32 h = (1, refl)
widened-HasWeight float32 h = (4, refl)
widened-HasWeight null h = absurd (h.1 refl)
widened-HasWeight _ h = absurd (false≢true h.0)

add_types-Widens_example :
    (q : Property) × (get_property
        (add_types type_hashing counted_columns "n" false (float32 ∷ []))
        "n"
      ≡ some q)
    × Widens (data_type counted) (data_type q)
    × (q.destination_column_name ≡ "n")
    × (q.olake_column ≡ false)
unfolding new_set insert_all insert_one exists empty hash_with insert data_type_beq to_iceberg_name
    get_property lookup
add_types-Widens_example =
    add_types-Widens type_hashing counted_columns "n" false (float32 ∷ []) counted int32 refl
      counted-IsWf (refl, λ e. false≢true (ap (λ t. t == null) e)) widened-HasWeight

abbrev unnamed : Property
unnamed = record counted { destination_column_name = "" }

has_destination_column_name_unsettled_example :
    Perm {A = String × Property}
      (("a", counted) ∷ ("b", unnamed) ∷ [])
      (("b", unnamed) ∷ ("a", counted) ∷ [])
    × (has_destination_column_name (with_columns (("a", counted) ∷ ("b", unnamed) ∷ [])) ≡ false)
    × (has_destination_column_name (with_columns (("b", unnamed) ∷ ("a", counted) ∷ [])) ≡ true)
has_destination_column_name_unsettled_example =
    has_destination_column_name_unsettled [] "a" "b" counted unnamed
      (λ e. false≢true (ap (λ s. s == empty_text) e)) refl
