-- ===== src/Types/Catalog/Delta.antt =====
-- types/catalog.go: GetStreamsDelta, the streams whose settings differ between two catalogs.
pub mod Same
use olake.Base.{
  ℕ, String, ◌≡◌, Bool, true, false, not, Option, none, some, List, [], ◌∷◌, ◌++◌, ◌&&◌, ◌||◌,
  if◌then◌else◌, ◌==◌, string_eq, nat_eq, is_nil, elem, map, all, length,
}
use olake.Base.Assoc.{lookup, insert}
use olake.Utils.Text.{split, dotted, empty_text}
use olake.Utils.Reformat.{reformat}
use olake.Types.Set.{Hashing}
use olake.Types.UpdateType.{UpdateType, equality, position, deletion_vector, QueryEngine}
use olake.Types.Stream.{Stream, incremental}
use olake.Types.Configured.{ConfiguredStream, StreamMetadata, FilterConfig, stream_id}
use olake.Types.Catalog.{
  Catalog, append_to, merge_update_type, merge_selected_columns, create_stream_map, zero_metadata,
}
use Prim.Native.String.{◌++◌ as append}

-- The comparisons that `reflect.DeepEqual` makes
pub record DeepEqual (V : Type 0) : Type 0 where
  pub same_filter : Option (FilterConfig V) → Option (FilterConfig V) → Bool
  pub same_keys : List String → List String → Bool

abbrev pub or_equality : UpdateType → UpdateType
or_equality u = if u == empty_text then equality else u

-- dvDelta
unfoldable pub dv_delta : UpdateType → UpdateType → Bool
dv_delta old new =
    (or_equality old == deletion_vector && not (or_equality new == deletion_vector))
    || (or_equality old == position && or_equality new == deletion_vector)

abbrev pub bool_beq : Bool → Bool → Bool
bool_beq true true = true
bool_beq false false = true
bool_beq a b = false

module _ {V : Type 0} (E : DeepEqual V) where
  -- isDifferent
  unfoldable pub is_different : StreamMetadata V → StreamMetadata V → Stream → Stream → Bool
  unfolding dv_delta
  is_different old_metadata new_metadata old new =
      not (bool_beq old_metadata.normalization new_metadata.normalization)
      || not (old_metadata.partition_regex == new_metadata.partition_regex)
      || not (old_metadata.filter == new_metadata.filter)
      || not (bool_beq old_metadata.use_source_column_names new_metadata.use_source_column_names)
      || not (E.same_filter old_metadata.filter_config new_metadata.filter_config)
      || not (bool_beq old_metadata.append_mode new_metadata.append_mode)
      || not (E.same_keys old_metadata.dedup_keys new_metadata.dedup_keys)
      || not (old.sync_mode == new.sync_mode)
      || not (old.destination_database == new.destination_database)
      || not (old.destination_table == new.destination_table)
      || (new.sync_mode == incremental && not (old.cursor_field == new.cursor_field))
      || dv_delta old_metadata.update_type new_metadata.update_type

module _ {V : Type 0} where
  pub selected_under :
      String
      → List (StreamMetadata V)
      → List (String × StreamMetadata V)
      → List (String × StreamMetadata V)
  selected_under ns [] m = m
  selected_under ns (x ∷ xs) m = selected_under ns xs (insert (dotted ns x.stream_name) x m)

  -- oldSelectedMap
  pub selected_map :
      List (String × List (StreamMetadata V))
      → List (String × StreamMetadata V)
      → List (String × StreamMetadata V)
  unfolding selected_under
  selected_map [] m = m
  selected_map ((ns, ms) ∷ rest) m = selected_map rest (selected_under ns ms m)

-- `range` over the selected streams of a catalog, where a nil map has none
abbrev pub all_selected : {V : Type 0} → Catalog V → List (String × List (StreamMetadata V))
all_selected c = elim c.selected_streams [ none ↦ [] | some sel ↦ sel ]

pub data Delta (V : Type 0) : Type 0 where
  delta : List (ConfiguredStream V) → List (String × List (StreamMetadata V)) → Delta V

-- A stream with the settings of the new catalog at the destination of the old one
pub delta_stream : {V : Type 0} → Stream → Stream → ConfiguredStream V
delta_stream old new = record {
  stream_metadata = zero_metadata;
  stream = record new {
    destination_database = old.destination_database;
    destination_table = old.destination_table;
  };
}

module _ {V : Type 0} where
  pub add_delta : String → StreamMetadata V → ConfiguredStream V → Delta V → Delta V
  unfolding append_to
  add_delta ns m s (delta streams sel) = delta (streams ++ s ∷ []) (append_to ns m sel)

module _ {V : Type 0} (E : DeepEqual V) where
  pub compare_one :
      String
      → StreamMetadata V
      → ConfiguredStream V
      → Option (StreamMetadata V)
      → Option (ConfiguredStream V)
      → Delta V
      → Delta V
  unfolding add_delta delta_stream
  compare_one ns m new none old acc = add_delta ns m new acc
  compare_one ns m new (some old_m) none acc = add_delta ns m new acc
  compare_one ns m new (some old_m) (some old) acc =
      if is_different E old_m m old.stream new.stream
      then add_delta ns m (delta_stream old.stream new.stream) acc
      else acc

  module _ (old_streams new_streams : List (String × ConfiguredStream V))
      (old_selected : List (String × StreamMetadata V)) where
    pub delta_one : String → StreamMetadata V → Delta V → Delta V
    unfolding compare_one
    delta_one ns m acc = elim (lookup (dotted ns m.stream_name) new_streams) [
      | none ↦ acc
      | some new ↦
          compare_one ns m new (lookup (dotted ns m.stream_name) old_selected)
            (lookup (dotted ns m.stream_name) old_streams) acc
    ]

    pub delta_list : String → List (StreamMetadata V) → Delta V → Delta V
    delta_list ns [] acc = acc
    delta_list ns (m ∷ ms) acc = delta_list ns ms (delta_one ns m acc)

    pub delta_loop : List (String × List (StreamMetadata V)) → Delta V → Delta V
    delta_loop [] acc = acc
    delta_loop ((ns, ms) ∷ rest) acc = delta_loop rest (delta_list ns ms acc)

  -- GetStreamsDelta
  unfoldable pub get_streams_delta : Catalog V → Catalog V → Delta V
  unfolding delta_loop delta_list delta_one create_stream_map selected_map
  get_streams_delta old new =
      delta_loop (create_stream_map old.streams) (create_stream_map new.streams)
        (selected_map (all_selected old) []) (all_selected new) (delta [] [])
