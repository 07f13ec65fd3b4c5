-- ===== src/Types/State.antt =====
-- types/state.go: what a sync remembers, by stream. Each operation holds the lock of the state from
-- its first read to its last write, so it is one step; LogState, the write of the state file at the
-- end of a step, is not modelled. `C` is the type of chunks, `HC` their hashing, `V` the other
-- values that Go keeps behind `any`, and `J` what JSON makes of them.
pub mod Reads
pub mod Chunks
pub mod Files
use olake.Base.{
  ℕ, String, ◌≡◌, Bool, true, false, not, Option, none, some, List, [], ◌∷◌, ◌++◌, ◌&&◌, ◌||◌,
  if◌then◌else◌, ◌==◌, string_eq, nat_eq, is_nil, filterb,
}
use olake.Base.Assoc.{lookup, insert, delete}
use olake.Utils.Text.{empty_text}
use olake.Utils.Arrays.{array_contains, get_elem?, modify}
use olake.Types.Set.{Set, Hashing, new_set, insert_all, exists, remove, len}
use olake.Types.Stream.{full_refresh}
use olake.Types.Configured.{ConfiguredStream, cursor, stream_id}

abbrev pub StateType : Type 0
StateType = String

abbrev pub global_type : StateType
global_type = "GLOBAL"

abbrev pub stream_type : StateType
stream_type = "STREAM"

abbrev pub chunks_key : String
chunks_key = "chunks"

-- Chunk
pub record Chunk (V : Type 0) : Type 0 where
  pub lower : V
  pub upper : V

-- The values under the keys of a stream's state: a set of chunks, or anything else.
pub data StateValue (C V : Type 0) : Type 0 where
  chunks : Set C → StateValue C V
  plain : V → StateValue C V

-- The value that Go calls nil
pub record Json (V : Type 0) : Type 0 where
  pub nil : V

pub record GlobalState (V : Type 0) : Type 0 where
  pub state : V
  pub streams : Option (Set String)

pub record StreamState (C V : Type 0) : Type 0 where
  pub holds_value : Bool
  pub stream : String
  pub namespace : String
  pub sync_mode : String
  pub state : List (String × StateValue C V)

pub record State (C V : Type 0) : Type 0 where
  pub type : StateType
  pub version : ℕ
  pub global : Option (GlobalState V)
  pub streams : List (StreamState C V)

module _ {C V F : Type 0} where
  unfoldable pub init_stream_state : ConfiguredStream F → StreamState C V
  init_stream_state s = record {
    holds_value = false;
    stream = s.stream.name;
    namespace = s.stream.namespace;
    sync_mode = "";
    state = [];
  }

  -- The test that finds the state of a stream
  abbrev pub is_for : ConfiguredStream F → StreamState C V → Bool
  is_for s e = e.namespace == s.stream.namespace && e.stream == s.stream.name

module _ {C V : Type 0} where
  unfoldable pub is_zero : State C V → Bool
  is_zero s = elim s.global [ none ↦ is_nil s.streams | some g ↦ false ]

  unfoldable pub reset_streams : State C V → State C V
  reset_streams s = record s { streams = [] }

  unfoldable pub as_set : Option (StateValue C V) → Option (Set C)
  as_set none = none
  as_set (some (plain v)) = none
  as_set (some (chunks c)) = some c

  pub delete_at : String → StreamState C V → StreamState C V
  delete_at key e = record e { state = delete key e.state }

  pub store_at : String → StateValue C V → StreamState C V → StreamState C V
  store_at key value e = record e { holds_value = true; state = insert key value e.state }

  pub store_entry :
      Option ℕ
      → String
      → StateValue C V
      → StreamState C V
      → List (StreamState C V)
      → List (StreamState C V)
  store_entry none key value fresh ss = ss ++ store_at key value fresh ∷ []
  store_entry (some i) key value fresh ss = modify i (store_at key value) ss

unfoldable pub in_streams : Hashing String → String → Option (Set String) → Bool
in_streams HS id none = false
in_streams HS id (some ss) = exists HS ss id

unfoldable pub in_global : {V : Type 0} → Hashing String → String → Option (GlobalState V) → Bool
in_global HS id none = false
in_global HS id (some g) = in_streams HS id g.streams

module _ {C V F : Type 0} where
  -- ResetCursor
  unfoldable pub reset_cursor : State C V → ConfiguredStream F → State C V
  unfolding delete_at
  reset_cursor s stream =
      let (primary, secondary) = cursor stream in
      elim (array_contains s.streams (is_for stream)) [
        | none ↦ s
        | some i ↦ record s {
          streams = modify i (λ e. delete_at secondary (delete_at primary e)) s.streams;
        }
      ]

  -- The second half of SetCursor and of SetChunks
  unfoldable pub store : State C V → ConfiguredStream F → String → StateValue C V → State C V
  unfolding store_entry store_at init_stream_state
  store s stream key value = record s {
    streams =
        store_entry (array_contains s.streams (is_for stream)) key value (init_stream_state stream)
          s.streams;
  }

  -- The load of a key in the first half of the same
  unfoldable pub load : State C V → ConfiguredStream F → String → Option (StateValue C V)
  load s stream key = elim (array_contains s.streams (is_for stream)) [
    | none ↦ none
    | some i ↦ elim (get_elem? s.streams i) [ none ↦ none | some e ↦ lookup key e.state ]
  ]

  -- GetCursor
  unfoldable pub get_cursor : Json V → State C V → ConfiguredStream F → String → StateValue C V
  get_cursor J s stream key =
      if key == empty_text
      then plain J.nil
      else elim (load s stream key) [ none ↦ plain J.nil | some v ↦ v ]

  -- SetCursor
  unfoldable pub set_cursor : State C V → ConfiguredStream F → String → StateValue C V → State C V
  set_cursor s stream key value = if key == empty_text then s else store s stream key value

  -- GetChunks
  unfoldable pub get_chunks : State C V → ConfiguredStream F → Option (Set C)
  unfolding as_set
  get_chunks s stream = as_set (load s stream chunks_key)

  -- SetChunks
  unfoldable pub set_chunks : State C V → ConfiguredStream F → Set C → State C V
  set_chunks s stream c =
      if stream.stream.sync_mode == full_refresh then s else store s stream chunks_key (chunks c)

  -- HasCompletedBackfill
  unfoldable pub has_completed_backfill : Hashing String → State C V → ConfiguredStream F → Bool
  unfolding in_global in_streams
  has_completed_backfill HS s stream =
      if s.type == global_type
      then in_global HS (stream_id stream) s.global
      else elim (get_chunks s stream) [ none ↦ false | some c ↦ len c == 0 ]

-- RemoveChunk: the state with the count of the chunks that are left, `none` for -1. A value under
-- the key that is no set leaves a nil pointer, on which Remove panics.
pub data Removal (C V : Type 0) : Type 0 where
  panics : Removal C V
  removed : State C V → Option ℕ → Removal C V

pub replace_chunks : {C V : Type 0} → Set C → StreamState C V → StreamState C V
replace_chunks c e = record e { state = insert chunks_key (chunks c) (delete chunks_key e.state) }

module _ {C V F : Type 0} (HC : Hashing C) where
  unfoldable pub remove_chunk : State C V → ConfiguredStream F → C → Removal C V
  unfolding replace_chunks
  remove_chunk s stream chunk = elim (array_contains s.streams (is_for stream)) [
    | none ↦ removed s none
    | some i ↦ elim (load s stream chunks_key) [
      | none ↦ removed s none
      | some (plain v) ↦ panics
      | some (chunks c) ↦
          removed (record s { streams = modify i (replace_chunks (remove HC c chunk)) s.streams })
            (some (len (remove HC c chunk)))
    ]
  ]

pub merged_streams : Hashing String → Option (Set String) → List String → Option (Set String)
merged_streams HS none streams = some (new_set HS streams)
merged_streams HS (some ss) streams = some (insert_all HS ss streams)

pub merged_global :
    {V : Type 0}
    → Hashing String
    → Option (GlobalState V)
    → V
    → Option V
    → List String
    → GlobalState V
merged_global HS none nil state streams = record {
  state = elim state [ none ↦ nil | some v ↦ v ];
  streams = some (new_set HS streams);
}
merged_global HS (some g) nil state streams = record {
  state = elim state [ none ↦ g.state | some v ↦ v ];
  streams = if is_nil streams then g.streams else merged_streams HS g.streams streams;
}

-- SetGlobal; `none` for the state is the nil of Go, which `nil` is as a value
unfoldable pub set_global :
    {C V : Type 0} → Hashing String → State C V → (nil : V) → Option V → List String → State C V
unfolding merged_global merged_streams
set_global HS s nil state streams = record s {
  global = some (merged_global HS s.global nil state streams);
}

-- State.MarshalJSON: the streams that hold a value, unless the state is zero
unfoldable pub populated : {C V : Type 0} → State C V → State C V
unfolding is_zero
populated s = if is_zero s then s else record s { streams = filterb (λ e. e.holds_value) s.streams }
