-- ===== src/Destination/Parquet/Metadata.antt =====
-- types/metadata_state.go: MetadataState, and how destination/parquet/parquet_2pc.go merges one into
-- another. `B` are the bodies of objects, `V` what Go keeps behind `any`, and Json what encoding/json does.
use olake.Base.{
  String, Bool, true, Option, none, some, List, [], ◌∷◌, ◌++◌, if◌then◌else◌, elem, string_eq,
}
use olake.Base.Assoc.{insert}

pub record MetadataState (V : Type 0) : Type 0 where
  pub id : Option V
  pub state : Option V
  pub full_refresh_committed_ids : List String
  pub dedup_inserts : Option Bool

-- `&types.MetadataState{}`
abbrev pub no_metadata : {V : Type 0} → MetadataState V
no_metadata = record {
  id = none;
  state = none;
  full_refresh_committed_ids = [];
  dedup_inserts = none;
}

-- `json_object` is jsonObject: the text of a JSON object, read.
pub record Json (B V : Type 0) : Type 0 where
  pub marshal_metadata : MetadataState V → B
  pub unmarshal_metadata : B → Option (MetadataState V)
  pub marshal_backfill_finish : String → B
  pub unmarshal_backfill_finish : B → Option String
  -- parseFinishState, with an inner `none` for an empty state
  pub parse_finish_state : B → Option (Option (MetadataState V))
  pub json_object : V → Option (List (String × V))
  pub marshal_object : List (String × V) → Option V

state_of : {V : Type 0} → V → Option V → Option (MetadataState V)
state_of thread_id none = none
state_of thread_id (some text) = some (record {
  id = some thread_id;
  state = some text;
  full_refresh_committed_ids = [];
  dedup_inserts = none;
})

-- SetMetadataState: a text as it is, anything else as the JSON text that it has
unfoldable pub set_metadata_state :
    {V : Type 0}
    → (as_string : V → Option V) → (marshal : V → Option V) → V
    → V
    → Option (MetadataState V)
unfolding state_of
set_metadata_state as_string marshal value thread_id = elim (as_string value) [
  | some text ↦ state_of thread_id (some text)
  | none ↦ state_of thread_id (marshal value)
]

-- SetDedupInserts
unfoldable pub set_dedup_inserts :
    {V : Type 0} → Option (MetadataState V) → Option Bool → Option (MetadataState V)
set_dedup_inserts none dedup = none
set_dedup_inserts (some ms) none = some ms
set_dedup_inserts (some ms) (some b) = some (record ms { dedup_inserts = some b })

abbrev pub or_else : {A : Type 0} → Option A → Option A → Option A
or_else none o = o
or_else (some a) o = some a

module _ {V : Type 0} where
  -- The loop of mergeState over the keys of the next object
  copy_entries : List (String × V) → List (String × V) → List (String × V)
  copy_entries [] current = current
  copy_entries ((k, v) ∷ next) current = copy_entries next (insert k v current)

module _ {B V : Type 0} (J : Json B V) where
  merge_objects : V → Option (List (String × V)) → Option (List (String × V)) → Option V
  unfolding copy_entries
  merge_objects next none n = some next
  merge_objects next (some c) none = some next
  merge_objects next (some c) (some n) = J.marshal_object (copy_entries n c)

  object_of : Option V → Option (List (String × V))
  object_of none = none
  object_of (some v) = J.json_object v

  -- mergeState; an inner `none` is nil
  unfoldable pub merge_state : Option V → V → Option V
  unfolding merge_objects object_of
  merge_state current next = merge_objects next (object_of current) (J.json_object next)

  merged_state : Option V → Option V → Option (Option V)
  unfolding merge_state
  merged_state current none = some current
  merged_state current (some next) = elim (merge_state current next) [
    | none ↦ none
    | some v ↦ some (some v)
  ]

  -- mergeStreamMetadataState
  unfoldable pub merge_stream_metadata_state :
      MetadataState V → MetadataState V → Option (MetadataState V)
  unfolding merged_state
  merge_stream_metadata_state current next = elim (merged_state current.state next.state) [
    | none ↦ none
    | some st ↦ some (record current {
      id = or_else next.id current.id;
      state = st;
      dedup_inserts = or_else next.dedup_inserts current.dedup_inserts;
    })
  ]

-- The change of commitBackfillMetadata
unfoldable pub with_committed_id : {V : Type 0} → String → MetadataState V → MetadataState V
with_committed_id thread_id st = record st {
  full_refresh_committed_ids =
      if elem thread_id st.full_refresh_committed_ids
      then st.full_refresh_committed_ids
      else st.full_refresh_committed_ids ++ thread_id ∷ [];
  dedup_inserts = some true;
}
