-- ===== src/Types/TypeSchema.antt =====
-- types/type_schema.go: the columns of a stream, a concurrent map that each operation locks or reads
-- once. `H` is the hashing of the data types in a Property.
pub mod Columns
use olake.Base.{
  ℕ, String, ◌≡◌, Bool, true, false, not, Option, none, some, List, [], ◌∷◌, ◌++◌, ◌&&◌, ◌||◌,
  if◌then◌else◌, ◌==◌, string_eq,
}
use olake.Base.Assoc.{lookup, insert, delete, keys}
use olake.Utils.Text.{empty_text}
use olake.Utils.Reformat.{reformat}
use olake.Types.Set.{Set, Hashing, insert_all, new_set, exists}
use olake.Types.DataType.{DataType, null, timestamp, string, timestamp_micro}
use olake.Types.DataType.Names.{to_iceberg_name}
use olake.Types.Property.{Property, data_type, nullable}

pub record TypeSchema : Type 0 where
  pub properties : List (String × Property)

-- NewTypeSchema
abbrev pub new_type_schema : TypeSchema
new_type_schema = record { properties = [] }

-- ColumnNames, in one of the orders in which Go may range over the map
abbrev pub column_names : TypeSchema → List String
column_names t = keys t.properties

-- GetProperty
unfoldable pub get_property : TypeSchema → String → Option Property
get_property t column = lookup column t.properties

pub last_named : Bool → List (String × Property) → Bool
last_named found [] = found
last_named found ((k, p) ∷ ps) = last_named (not (p.destination_column_name == empty_text)) ps

-- HasDestinationColumnName: each column that is visited overwrites the answer.
unfoldable pub has_destination_column_name : TypeSchema → Bool
unfolding last_named
has_destination_column_name t = last_named false t.properties

-- GetType; `none` is the error on a missing column
unfoldable pub get_type : TypeSchema → String → Option DataType
get_type t column =
    let name = if has_destination_column_name t then column else reformat column in
    elim (lookup name t.properties) [ none ↦ none | some p ↦ some (data_type p) ]

module _ (H : Hashing DataType) where
  pub add_to : Option Property → String → Bool → List DataType → Property
  add_to none column is_olake_column types = record {
    type = new_set H types;
    destination_column_name = reformat column;
    olake_column = is_olake_column;
  }
  add_to (some p) column is_olake_column types = record p { type = insert_all H p.type types }

  -- AddTypes: a column that is there keeps all but its types.
  unfoldable pub add_types : TypeSchema → String → Bool → List DataType → TypeSchema
  unfolding add_to
  add_types t column is_olake_column types = record t {
    properties =
        insert column (add_to (lookup column t.properties) column is_olake_column types)
          t.properties;
  }

  keep_null : Option Property → Property → Property
  keep_null none value = value
  keep_null (some stored) value =
      if nullable stored then record value { type = insert_all H value.type (null ∷ []) } else value

  override_loop : List (String × Property) → List (String × Property) → List (String × Property)
  override_loop [] ps = ps
  override_loop ((key, value) ∷ fields) ps =
      override_loop fields (insert key (keep_null (lookup key ps) value) (delete key ps))

  -- Override
  unfoldable pub override : TypeSchema → List (String × Property) → TypeSchema
  unfolding override_loop keep_null
  override t fields = record t { properties = override_loop fields t.properties }

pub record IcebergField : Type 0 where
  pub ice_type : String
  pub key : String

-- What ToIceberg asks of its stream: the output name of a column, and whether it is selected.
pub record Naming : Type 0 where
  pub resolve_column_name : String → String
  pub is_selected : String → Bool

skips : Naming → Bool → (String → Bool) → String → Property → Bool
skips stream default_columns included column p =
    not p.olake_column
    && (not (stream.is_selected (stream.resolve_column_name column))
        || (default_columns && not (included column)))

iceberg_fields : Naming → Bool → (String → Bool) → List (String × Property) → List IcebergField
iceberg_fields stream default_columns included [] = []
iceberg_fields stream default_columns included ((column, p) ∷ ps) =
    let rest = iceberg_fields stream default_columns included ps in
    if skips stream default_columns included column p
    then rest
    else record {
      ice_type = to_iceberg_name (data_type p);
      key = stream.resolve_column_name column;
    }
      ∷ rest

-- ToIceberg
unfoldable pub to_iceberg :
    Hashing String → TypeSchema → Bool → Naming → List String → List IcebergField
unfolding iceberg_fields skips
to_iceberg HS t default_columns stream include_columns =
    iceberg_fields stream default_columns (exists HS (new_set HS include_columns)) t.properties
    ++ (if default_columns then record { ice_type = "string"; key = "data" } ∷ [] else [])
