-- ===== src/Tests/Catalogs.antt =====
-- types/catalog.go.
use olake.Base.{String, ◌≡◌, refl, true, false, some, List, [], ◌∷◌, map, if◌then◌else◌, string_eq}
use olake.Base.Assoc.{lookup, insert}
use olake.Utils.Arrays.{array_contains}
use olake.Utils.Text.{stream_identifier}
use olake.Types.Set.{empty}
use olake.Types.Property.{Property}
use olake.Types.UpdateType.{deletion_vector, equality, readable_by_all, lookup_engine}
use olake.Types.TypeSchema.Columns.{with_columns}
use olake.Types.Stream.{Stream}
use olake.Types.Configured.{StreamMetadata, SelectedColumns, stream_id}
use olake.Types.Catalog.{Catalog, zero_metadata, merge_update_type, create_stream_map}
use olake.Types.Catalog.UpdateTypes.{is_usable, merge_update_type_lem, merge_update_type-again}
use olake.Types.Catalog.Merge.{merge_catalogs}
use olake.Types.Catalog.Merge.Kept.{AllIn, merge_catalogs-Kept}
use olake.Types.Catalog.Delta.{or_equality}
use olake.Tests.Sets.{text_hashing}
use olake.Tests.States.{table, orders}

abbrev vectors : StreamMetadata String
vectors = record zero_metadata { stream_name = "orders"; update_type = deletion_vector }

merge_update_type_lem_example : (merge_update_type vectors ("hive" ∷ [])).update_type ≡ (
    if is_usable ("hive" ∷ []) (or_equality deletion_vector)
    then or_equality deletion_vector
    else "")
merge_update_type_lem_example = merge_update_type_lem vectors ("hive" ∷ []) refl

merge_update_type-again_example :
    (merge_update_type (merge_update_type vectors ("hive" ∷ [])) ("hive" ∷ [])).update_type ≡ (
      if is_usable ("hive" ∷ []) (or_equality deletion_vector)
      then or_equality deletion_vector
      else equality)
unfolding readable_by_all lookup_engine array_contains
merge_update_type-again_example = merge_update_type-again vectors ("hive" ∷ []) refl refl

abbrev typed : Property
typed = record { type = empty; destination_column_name = ""; olake_column = false }

abbrev old_table : Stream
old_table = record (table "orders") { schema = with_columns (("id", typed) ∷ ("note", typed) ∷ []) }

abbrev new_table : Stream
new_table = record (table "orders") { schema = with_columns (("id", typed) ∷ ("city", typed) ∷ []) }

abbrev only_id : SelectedColumns
only_id = record { columns = "id" ∷ []; sync_new_columns = true }

abbrev selection : List (String × List (StreamMetadata String))
selection = ("shop", vectors ∷ []) ∷ []

abbrev one_stream : Catalog String
one_stream = record { selected_streams = some selection; streams = orders ∷ [] }

merge_catalogs-Kept_example :
    (c : Catalog String) × (merge_catalogs text_hashing (some one_stream) one_stream ("hive" ∷ [])
      ≡ some c)
    × (map stream_id c.streams ≡ map stream_id one_stream.streams)
    × (out : List (String × List (StreamMetadata String))) × (c.selected_streams ≡ some out)
    × AllIn text_hashing (create_stream_map one_stream.streams) out
unfolding create_stream_map lookup insert stream_identifier
merge_catalogs-Kept_example =
    merge_catalogs-Kept text_hashing one_stream one_stream ("hive" ∷ []) selection refl
      (((orders, refl), tt), tt)
