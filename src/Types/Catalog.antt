-- ===== src/Types/Catalog.antt =====
-- types/catalog.go: the catalog that discovery writes, its merge with the one that the user edited,
-- and the streams whose settings changed. A selected stream is a StreamMetadata under its
-- namespace. `V` is the type of the values in a filter.
pub mod UpdateTypes
pub mod Columns
pub mod Merge
pub mod Delta
use olake.Base.{
  ℕ, String, ◌≡◌, Bool, true, false, not, Option, none, some, List, [], ◌∷◌, ◌++◌, ◌&&◌, ◌||◌,
  if◌then◌else◌, ◌==◌, string_eq, is_nil, elem, map, all, length, nat_eq,
}
use olake.Base.Assoc.{lookup, insert}
use olake.Utils.Text.{split, dotted, empty_text}
use olake.Utils.Reformat.{reformat}
use olake.Utils.Arrays.{array_contains}
use olake.Types.Set.{Set, Hashing, new_set, exists}
use olake.Types.Property.{Property}
use olake.Types.TypeSchema.{column_names}
use olake.Types.UpdateType.{
  UpdateType, equality, position, deletion_vector, available_update_types, preferred_update_type,
}
use olake.Types.UpdateType.{QueryEngine}
use olake.Types.Stream.{Stream, DefaultStreamProperties, incremental, id_of}
use olake.Types.Configured.{
  ConfiguredStream, StreamMetadata, SelectedColumns, FilterConfig, stream_id,
}
use Prim.Native.String.{◌++◌ as append}

-- `none` for the selected streams is a nil map.
pub record Catalog (V : Type 0) : Type 0 where
  pub selected_streams : Option (List (String × List (StreamMetadata V)))
  pub streams : List (ConfiguredStream V)

abbrev pub zero_metadata : {V : Type 0} → StreamMetadata V
zero_metadata = record {
  chunk_column = "";
  partition_regex = "";
  stream_name = "";
  append_mode = false;
  normalization = false;
  update_type = "";
  use_source_column_names = false;
  filter = "";
  filter_config = none;
  selected_columns = none;
  dedup_keys = [];
}

-- constants.RelationalDrivers and constants.DefaultAppendModeDrivers
abbrev pub relational_drivers : List String
relational_drivers = "postgres" ∷ "mysql" ∷ "oracle" ∷ "db2" ∷ "mssql" ∷ []

abbrev pub default_append_mode_drivers : List String
default_append_mode_drivers = "s3" ∷ "kafka" ∷ []

-- IsDriverRelational and IsDriverAppendOnly
unfoldable pub is_driver_relational : String → Bool
unfolding array_contains
is_driver_relational driver = elim (array_contains relational_drivers (λ src. src == driver)) [
  | none ↦ false
  | some i ↦ true
]

unfoldable pub is_driver_append_only : String → Bool
unfolding array_contains
is_driver_append_only driver =
    elim (array_contains default_append_mode_drivers (λ src. src == driver)) [
      | none ↦ false
      | some i ↦ true
    ]

-- `m[k] = append(m[k], v)`
pub append_to : {A : Type 0} → String → A → List (String × List A) → List (String × List A)
append_to k v m = insert k (elim (lookup k m) [ none ↦ v ∷ [] | some vs ↦ vs ++ v ∷ [] ]) m

-- The default delete format that discovery advertises
unfoldable pub default_update_type : String → List UpdateType → UpdateType
default_update_type driver available =
    if driver == "kafka" && elem position available
    then position
    else preferred_update_type available

with_default : UpdateType → DefaultStreamProperties → DefaultStreamProperties
with_default u p = record p { update_type = u }

with_available : List UpdateType → UpdateType → Stream → Stream
with_available available u s = record s {
  available_update_types = available;
  default_stream_properties = elim s.default_stream_properties [
    | none ↦ none
    | some p ↦ some (with_default u p)
  ];
}

module _ {V : Type 0} where
  metadata_for : String → UpdateType → Stream → StreamMetadata V
  metadata_for driver u s = record zero_metadata {
    stream_name = s.name;
    append_mode = is_driver_append_only driver;
    normalization = is_driver_relational driver;
    update_type = u;
    selected_columns = some (record { columns = column_names s.schema; sync_new_columns = true });
  }

  wrap_loop :
      String
      → List UpdateType
      → UpdateType
      → List Stream
      → List (String × List (StreamMetadata V))
      → List (ConfiguredStream V)
      → Catalog V
  wrap_loop driver available u [] sel out = record { selected_streams = some sel; streams = out }
  wrap_loop driver available u (s ∷ ss) sel out =
      wrap_loop driver available u ss (append_to s.namespace (metadata_for driver u s) sel) (
        out
        ++ record { stream_metadata = zero_metadata; stream = with_available available u s } ∷ [])

  -- GetWrappedCatalog
  unfoldable pub get_wrapped_catalog : List Stream → String → List QueryEngine → Catalog V
  unfolding wrap_loop metadata_for append_to with_available with_default
  get_wrapped_catalog streams driver engines =
      let available = available_update_types engines in
      wrap_loop driver available (default_update_type driver available) streams [] []

  -- mergeUpdateType
  unfoldable pub merge_update_type : StreamMetadata V → List QueryEngine → StreamMetadata V
  merge_update_type metadata engines =
      let chosen = if metadata.update_type == empty_text then equality else metadata.update_type in
      if is_nil engines || elem chosen (available_update_types engines)
      then record metadata { update_type = chosen }
      else record metadata { update_type = "" }

-- The columns that the new schema, in the order of its range, hands to the selection
pub keep_columns : (String → Property → Bool) → List (String × Property) → List String
keep_columns keep [] = []
keep_columns keep ((col, prop) ∷ ps) =
    let rest = keep_columns keep ps in if keep col prop then col ∷ rest else rest

module _ (HS : Hashing String) where
  pub merge_columns : Option SelectedColumns → Stream → Stream → SelectedColumns
  unfolding keep_columns
  merge_columns none old new = record { columns = column_names new.schema; sync_new_columns = true }
  merge_columns (some sel) old new = record {
    columns =
        if is_nil sel.columns
        then column_names new.schema
        else keep_columns
            (λ col prop.
              prop.olake_column
              || exists HS (new_set HS sel.columns) col
              || (sel.sync_new_columns
                  && not (exists HS (new_set HS (column_names old.schema)) col)))
            new.schema.properties;
    sync_new_columns = sel.sync_new_columns;
  }

module _ {V : Type 0} (HS : Hashing String) where
  -- MergeSelectedColumns
  unfoldable pub merge_selected_columns : StreamMetadata V → Stream → Stream → StreamMetadata V
  unfolding merge_columns
  merge_selected_columns metadata old new = record metadata {
    selected_columns = some (merge_columns HS metadata.selected_columns old new);
  }

module _ {V : Type 0} where
  map_loop :
      List (ConfiguredStream V)
      → List (String × ConfiguredStream V)
      → List (String × ConfiguredStream V)
  map_loop [] m = m
  map_loop (s ∷ ss) m = map_loop ss (insert (stream_id s) s m)

  -- createStreamMap: of two streams with one ID the later stays.
  unfoldable pub create_stream_map : List (ConfiguredStream V) → List (String × ConfiguredStream V)
  unfolding map_loop
  create_stream_map ss = map_loop ss []
