-- ===== src/Types/Stream.antt =====
-- types/stream.go and types/sync_mode.go: a stream as discovery describes it. `HS` hashes texts and
-- `HD` data types.
use olake.Base.{String, Bool, Option, none, some, List, [], ◌∷◌, if◌then◌else◌, ◌==◌, string_eq}
use olake.Base.Assoc.{insert}
use olake.Utils.Text.{stream_identifier, empty_text}
use olake.Utils.Reformat.{reformat}
use olake.Types.Set.{Set, Hashing, insert_all, empty}
use olake.Types.DataType.{DataType, null}
use olake.Types.TypeSchema.{TypeSchema, new_type_schema, add_types}
use olake.Types.UpdateType.{UpdateType}
use Prim.Native.String.{◌++◌ as append}

abbrev pub SyncMode : Type 0
SyncMode = String

abbrev pub full_refresh : SyncMode
full_refresh = "full_refresh"

abbrev pub incremental : SyncMode
incremental = "incremental"

abbrev pub cdc : SyncMode
cdc = "cdc"

abbrev pub strict_cdc : SyncMode
strict_cdc = "strict_cdc"

-- StreamID
pub record StreamId : Type 0 where
  pub namespace : String
  pub name : String

unfoldable pub stream_id_text : StreamId → String
stream_id_text s = stream_identifier s.name s.namespace

pub record DefaultStreamProperties : Type 0 where
  pub normalization : Bool
  pub append_mode : Bool
  pub update_type : UpdateType

pub record Stream : Type 0 where
  pub name : String
  pub namespace : String
  pub schema : TypeSchema
  pub supported_sync_modes : Set SyncMode
  pub available_update_types : List UpdateType
  pub source_defined_primary_key : Set String
  pub available_cursor_fields : Set String
  pub additional_properties : String
  pub cursor_field : String
  pub sync_mode : SyncMode
  pub destination_database : String
  pub destination_table : String
  pub default_stream_properties : Option DefaultStreamProperties

-- Stream.ID
abbrev pub id_of : Stream → String
id_of s = stream_identifier s.name s.namespace

first_parts : String → Option String → String
first_parts prefix none = if prefix == empty_text then "" else reformat prefix
first_parts prefix (some db) =
    if db == empty_text
    then (if prefix == empty_text then "" else reformat prefix)
    else if prefix == empty_text
    then reformat db
    else append (reformat prefix) (append "_" (reformat db))

-- GenerateDestinationDetails of utils/utils.go, at the configured prefix
unfoldable pub generate_destination_details :
    String → String → String → Option String → String × String
unfolding first_parts
generate_destination_details prefix namespace name source_database =
    let db = first_parts prefix source_database in
    (
      if namespace == empty_text then db else append db (append ":" (reformat namespace)),
      reformat name,
    )

-- NewStream
unfoldable pub new_stream : String → String → String → Option String → Stream
unfolding generate_destination_details empty
new_stream prefix name namespace source_database =
    let (db, table) = generate_destination_details prefix namespace name source_database in
    record {
      name = name;
      namespace = namespace;
      schema = new_type_schema;
      supported_sync_modes = empty;
      available_update_types = [];
      source_defined_primary_key = empty;
      available_cursor_fields = empty;
      additional_properties = "";
      cursor_field = "";
      sync_mode = "";
      destination_database = db;
      destination_table = table;
      default_stream_properties = none;
    }

module _ (HS : Hashing String) where
  -- WithSyncMode, WithPrimaryKey, WithCursorField: one Insert for each argument
  unfoldable pub with_sync_mode : Stream → List SyncMode → Stream
  with_sync_mode s modes = record s {
    supported_sync_modes = insert_all HS s.supported_sync_modes modes;
  }

  unfoldable pub with_primary_key : Stream → List String → Stream
  with_primary_key s ks = record s {
    source_defined_primary_key = insert_all HS s.source_defined_primary_key ks;
  }

  unfoldable pub with_cursor_field : Stream → List String → Stream
  with_cursor_field s columns = record s {
    available_cursor_fields = insert_all HS s.available_cursor_fields columns;
  }

-- UpsertField
unfoldable pub upsert_field : Hashing DataType → Stream → String → DataType → Bool → Bool → Stream
upsert_field HD s column typ nullable is_olake_column = record s {
  schema =
      add_types HD s.schema column is_olake_column (if nullable then typ ∷ null ∷ [] else typ ∷ []);
}

map_streams : List Stream → List (String × Stream) → List (String × Stream)
map_streams [] m = m
map_streams (s ∷ ss) m = map_streams ss (insert (id_of s) s m)

-- StreamsToMap
unfoldable pub streams_to_map : List Stream → List (String × Stream)
unfolding map_streams
streams_to_map ss = map_streams ss []
