-- ===== src/Types/Configured.antt =====
-- types/stream_configured.go and the metadata of types/catalog.go: a stream with the user's settings.
pub mod Columns
use olake.Base.{
  ℕ, String, ◌≡◌, Bool, true, false, not, Option, none, some, List, [], ◌∷◌, ◌&&◌, ◌||◌,
  if◌then◌else◌, ◌==◌, string_eq, is_nil,
}
use olake.Base.Assoc.{delete, keys}
use olake.Utils.Text.{split, empty_text}
use olake.Utils.Reformat.{reformat}
use olake.Types.Set.{
  Set, Hashing, new_set, exists, insert_one, empty, array, proper_subset_of, difference,
}
use olake.Types.TypeSchema.{column_names}
use olake.Types.UpdateType.{
  UpdateType, equality, position, validate_against, Verdict, valid, invalid, unreadable,
}
use olake.Types.Stream.{Stream, SyncMode, incremental, id_of}

pub record FilterCondition (V : Type 0) : Type 0 where
  pub column : String
  pub operator : String
  pub value : V

pub record FilterConfig (V : Type 0) : Type 0 where
  pub logical_operator : String
  pub conditions : List (FilterCondition V)

pub record SelectedColumns : Type 0 where
  pub columns : List String
  pub sync_new_columns : Bool

-- StreamMetadata; `V` is the type of the values in a filter.
pub record StreamMetadata (V : Type 0) : Type 0 where
  pub chunk_column : String
  pub partition_regex : String
  pub stream_name : String
  pub append_mode : Bool
  pub normalization : Bool
  pub update_type : UpdateType
  pub use_source_column_names : Bool
  pub filter : String
  pub filter_config : Option (FilterConfig V)
  pub selected_columns : Option SelectedColumns
  pub dedup_keys : List String

pub record ConfiguredStream (V : Type 0) : Type 0 where
  pub stream_metadata : StreamMetadata V
  pub stream : Stream

pub data ValidationError : Type 0 where
  invalid_sync_mode invalid_cursor invalid_secondary_cursor primary_keys_differ : ValidationError

pub data UpdateTypeError : Type 0 where
  fine update_mode_not_set invalid_update_mode unreadable_update_mode : UpdateTypeError

cursor_of : List String → String × String
cursor_of [] = ("", "")
cursor_of (primary ∷ []) = (primary, "")
cursor_of (primary ∷ secondary ∷ rest) = (primary, secondary)

report : Verdict → UpdateTypeError
report valid = fine
report invalid = invalid_update_mode
report unreadable = unreadable_update_mode

module _ {V : Type 0} where
  abbrev pub stream_id : ConfiguredStream V → String
  stream_id s = id_of s.stream

  -- ResolveColumnName
  unfoldable pub resolve_column_name : ConfiguredStream V → String → String
  resolve_column_name s key =
      if s.stream_metadata.use_source_column_names then key else reformat key

  -- Cursor: the primary and the secondary cursor field
  unfoldable pub cursor : ConfiguredStream V → String × String
  unfolding cursor_of
  cursor s = cursor_of (split ":" s.stream.cursor_field)

  -- GetDestinationDatabase
  unfoldable pub get_destination_database : ConfiguredStream V → Option String → String
  get_destination_database s iceberg_db =
      if not (s.stream.destination_database == empty_text)
      then reformat s.stream.destination_database
      else elim iceberg_db [
        | none ↦ s.stream.namespace
        | some db ↦ if db == empty_text then s.stream.namespace else db
      ]

  -- GetDestinationTable
  unfoldable pub get_destination_table : ConfiguredStream V → String
  get_destination_table s =
      if s.stream.destination_table == empty_text then s.stream.name else s.stream.destination_table

  -- ResolveUpsertOp
  unfoldable pub resolve_upsert_op : ConfiguredStream V → Bool
  resolve_upsert_op s =
      not s.stream_metadata.append_mode && not (is_nil s.stream_metadata.dedup_keys)

  -- GetUpdateType
  unfoldable pub get_update_type : ConfiguredStream V → UpdateType
  unfolding resolve_upsert_op
  get_update_type s =
      if resolve_upsert_op s
      then position
      else if s.stream_metadata.update_type == empty_text
      then equality
      else s.stream_metadata.update_type

  -- ValidateUpdateType
  unfoldable pub validate_update_type : ConfiguredStream V → UpdateTypeError
  unfolding get_update_type report
  validate_update_type s =
      if s.stream_metadata.append_mode
      then fine
      else if s.stream_metadata.update_type == empty_text
          && not (is_nil s.stream.available_update_types)
      then update_mode_not_set
      else report (validate_against (get_update_type s) s.stream.available_update_types)

module _ (HS : Hashing String) where
  pub unselected_loop : Set String → List String → Set String → Set String
  unselected_loop selected [] acc = acc
  unselected_loop selected (c ∷ cs) acc =
      unselected_loop selected cs (if exists HS selected c then acc else insert_one HS acc c)

  pub reformat_loop : (String → String) → List String → Set String → Set String
  reformat_loop resolve [] acc = acc
  reformat_loop resolve (c ∷ cs) acc = reformat_loop resolve cs (insert_one HS acc (resolve c))

  pub keep_selected :
      {D : Type 0} → Set String → List String → List (String × D) → List (String × D)
  keep_selected selected [] m = m
  keep_selected selected (c ∷ cs) m =
      keep_selected selected cs (if not (exists HS selected c) then delete c m else m)

pub delete_all : {D : Type 0} → List String → List (String × D) → List (String × D)
delete_all [] m = m
delete_all (c ∷ cs) m = delete_all cs (delete c m)

module _ {V : Type 0} (HS : Hashing String) where
  -- GetUnSelectedColumnsSet
  unfoldable pub get_unselected_columns_set : ConfiguredStream V → List String → Set String
  unfolding unselected_loop
  get_unselected_columns_set s columns =
      if is_nil columns
      then empty
      else unselected_loop HS (new_set HS columns) (column_names s.stream.schema) empty

  pub reformat_columns : ConfiguredStream V → Set String → Set String
  reformat_columns s columns = reformat_loop HS (resolve_column_name s) (array columns) empty

  pub is_selected_by : ConfiguredStream V → Option SelectedColumns → String → Bool
  unfolding reformat_columns reformat_loop resolve_column_name
  is_selected_by s none col = true
  is_selected_by s (some cfg) col =
      if is_nil cfg.columns
      then true
      else if cfg.sync_new_columns
      then not (exists HS (reformat_columns s (get_unselected_columns_set s cfg.columns)) col)
      else exists HS (reformat_columns s (new_set HS cfg.columns)) col

  -- IsSelectedColumn
  unfoldable pub is_selected_column : ConfiguredStream V → String → Bool
  unfolding is_selected_by
  is_selected_column s col = is_selected_by s s.stream_metadata.selected_columns col

  module _ {D : Type 0} where
    pub retain_by :
        ConfiguredStream V → Option SelectedColumns → List (String × D) → List (String × D)
    unfolding delete_all keep_selected
    retain_by s none record_data = record_data
    retain_by s (some cfg) record_data =
        if is_nil cfg.columns
        then record_data
        else if cfg.sync_new_columns
        then delete_all (array (get_unselected_columns_set s cfg.columns)) record_data
        else keep_selected HS (new_set HS cfg.columns) (keys record_data) record_data

    -- RetainSelectedColumns
    unfoldable pub retain_selected_columns :
        ConfiguredStream V → List (String × D) → List (String × D)
    unfolding retain_by
    retain_selected_columns s record_data =
        retain_by s s.stream_metadata.selected_columns record_data

  -- Validate, against the stream that discovery found
  unfoldable pub validate_stream : ConfiguredStream V → Stream → Option ValidationError
  unfolding cursor
  validate_stream s source =
      let (primary, secondary) = cursor s in
      if not (exists HS source.supported_sync_modes s.stream.sync_mode)
      then some invalid_sync_mode
      else if s.stream.sync_mode == incremental
          && not (exists HS source.available_cursor_fields primary)
      then some invalid_cursor
      else if s.stream.sync_mode == incremental
          && not (secondary == empty_text)
          && not (exists HS source.available_cursor_fields secondary)
      then some invalid_secondary_cursor
      else if proper_subset_of source.source_defined_primary_key s.stream.source_defined_primary_key
      then some primary_keys_differ
      else none
