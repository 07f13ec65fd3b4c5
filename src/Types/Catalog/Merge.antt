-- ===== src/Types/Catalog/Merge.antt =====
-- types/catalog.go: mergeCatalogs, the user's catalog carried over to a new discovery.
pub mod Kept
use olake.Base.{
  ℕ, String, ◌≡◌, Bool, true, false, not, Option, none, some, List, [], ◌∷◌, ◌++◌, ◌&&◌, ◌||◌,
  if◌then◌else◌, ◌==◌, string_eq, nat_eq, is_nil, elem, map, all, length,
}
use olake.Base.Assoc.{lookup, insert}
use olake.Utils.Text.{split, dotted, empty_text}
use olake.Utils.Reformat.{reformat}
use olake.Types.Set.{Hashing}
use olake.Types.UpdateType.{UpdateType, equality, position, deletion_vector, QueryEngine}
use olake.Types.Stream.{Stream, incremental}
use olake.Types.Configured.{ConfiguredStream, StreamMetadata, FilterConfig, stream_id}
use olake.Types.Catalog.{
  Catalog, append_to, merge_update_type, merge_selected_columns, create_stream_map, zero_metadata,
}
use Prim.Native.String.{◌++◌ as append}

abbrev first_part : List String → String
first_part [] = ""
first_part (p ∷ ps) = p

abbrev db_parts : {V : Type 0} → ConfiguredStream V → List String
db_parts s = split ":" s.stream.destination_database

-- getDestDBPrefix
unfoldable pub get_dest_db_prefix : {V : Type 0} → List (ConfiguredStream V) → Bool × String
get_dest_db_prefix [] = (false, "")
get_dest_db_prefix (s ∷ ss) =
    if all (λ t. first_part (db_parts t) == first_part (db_parts s)) (s ∷ ss)
    then (length (db_parts s) == 1, first_part (db_parts s))
    else (false, "")

abbrev first_database : {V : Type 0} → List (ConfiguredStream V) → String
first_database [] = ""
first_database (s ∷ ss) = s.stream.destination_database

module _ {V : Type 0} (HS : Hashing String) where
  pub merge_list :
      List (String × ConfiguredStream V)
      → List (String × ConfiguredStream V)
      → List QueryEngine
      → String
      → List (StreamMetadata V)
      → List (String × List (StreamMetadata V))
      → Option (List (String × List (StreamMetadata V)))
  unfolding append_to
  merge_list olds news engines ns [] acc = some acc
  merge_list olds news engines ns (m ∷ ms) acc = elim (lookup (dotted ns m.stream_name) news) [
    | none ↦ merge_list olds news engines ns ms acc
    | some new ↦ elim (lookup (dotted ns m.stream_name) olds) [
      | none ↦ none
      | some old ↦ merge_list olds news engines ns ms (
          append_to ns
            (merge_update_type (merge_selected_columns HS m old.stream new.stream) engines) acc)
    ]
  ]

  pub merge_selected :
      List (String × ConfiguredStream V)
      → List (String × ConfiguredStream V)
      → List QueryEngine
      → List (String × List (StreamMetadata V))
      → List (String × List (StreamMetadata V))
      → Option (List (String × List (StreamMetadata V)))
  unfolding merge_list
  merge_selected olds news engines [] acc = some acc
  merge_selected olds news engines ((ns, ms) ∷ rest) acc =
      elim (merge_list olds news engines ns ms acc) [
        | none ↦ none
        | some acc' ↦ merge_selected olds news engines rest acc'
      ]

-- What a stream that was in the old catalog keeps
pub keep_settings : Stream → Stream → Stream
keep_settings old new = record new {
  sync_mode = old.sync_mode;
  cursor_field = if old.cursor_field == empty_text then new.cursor_field else old.cursor_field;
  destination_database = old.destination_database;
  destination_table = old.destination_table;
  source_defined_primary_key = old.source_defined_primary_key;
}

-- The destination of a stream that was not
pub place_new : Bool × String → String → Stream → Stream
place_new (true, prefix) db new = record new { destination_database = db }
place_new (false, prefix) db new =
    if prefix == empty_text
    then new
    else record new { destination_database = append prefix (append ":" (reformat new.namespace)) }

module _ {V : Type 0} where
  pub merge_stream :
      List (String × ConfiguredStream V)
      → Bool × String
      → String
      → ConfiguredStream V
      → ConfiguredStream V
  unfolding keep_settings place_new
  merge_stream olds prefix db s = record s {
    stream = elim (lookup (stream_id s) olds) [
      | none ↦ place_new prefix db s.stream
      | some old ↦ keep_settings old.stream s.stream
    ];
  }

  pub merged_with :
      List (ConfiguredStream V)
      → List (ConfiguredStream V)
      → Option (List (String × List (StreamMetadata V)))
      → Catalog V
  unfolding merge_stream create_stream_map get_dest_db_prefix
  merged_with olds news sel = record {
    selected_streams = sel;
    streams =
        map (merge_stream (create_stream_map olds) (get_dest_db_prefix olds) (first_database olds))
          news;
  }

  -- mergeCatalogs; `none` is the panic on a selected stream that the old catalog does not list
  unfoldable pub merge_catalogs :
      Hashing String → Option (Catalog V) → Catalog V → List QueryEngine → Option (Catalog V)
  unfolding merged_with merge_selected
  merge_catalogs HS none new engines = some new
  merge_catalogs HS (some old) new engines = elim old.selected_streams [
    | none ↦ some (merged_with old.streams new.streams new.selected_streams)
    | some sel ↦
        elim (merge_selected HS (create_stream_map old.streams) (create_stream_map new.streams)
          engines sel []) [
            | none ↦ none
            | some merged ↦ some (merged_with old.streams new.streams (some merged))
          ]
  ]
