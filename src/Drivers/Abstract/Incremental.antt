-- ===== src/Drivers/Abstract/Incremental.antt =====
-- drivers/abstract/incremental.go: the cursors of a stream, from the state to the last record. What the driver
-- answers for FetchMaxCursorValues is an argument. A column of a record that is missing is nil.
pub mod Greatest
pub mod Start
pub mod Thread
use olake.Base.{
  ℕ, String, Bool, true, false, not, Option, none, some, List, [], ◌∷◌, ◌&&◌, ◌||◌, if◌then◌else◌,
  ◌>>=◌, ◌==◌, string_eq, nat_eq,
}
use olake.Base.Assoc.{lookup}
use olake.Utils.Text.{empty_text}
use olake.Typeutils.Compare.{Value, nil, time, object_id, other, Platform, compare, ℤ}
use olake.Typeutils.Filter.{is_gt}
use olake.Types.DataType.{DataType}
use olake.Types.Set.{Hashing, len}
use olake.Types.Configured.{ConfiguredStream, cursor}
use olake.Types.State.{
  State, StateValue, plain, Json, get_cursor, set_cursor, reset_cursor, get_chunks,
  has_completed_backfill,
}

abbrev pub column : {F : Type 0} → String → List (String × Value F) → Value F
column key row = elim (lookup key row) [ none ↦ nil | some v ↦ v ]

module _ {F : Type 0} (P : Platform F) where
  pub greater : Value F → Value F → Option (Value F)
  greater new old = elim (compare P new old) [
    | none ↦ none
    | some o ↦ some (if is_gt o then new else old)
  ]

  -- getMaxIncrementCursorFromData; `none` is a panic of Compare
  unfoldable pub max_increment_cursor :
      String → String → Value F × Value F → List (String × Value F) → Option (Value F × Value F)
  unfolding greater
  max_increment_cursor primary secondary (p, s) row = do
    p' ← greater (column primary row) p
    if secondary == empty_text
        then some (p', nil)
        else do s' ← greater (column secondary row) s; some (p', s')

  -- The records that StreamIncrementalChanges hands over
  unfoldable pub read_changes :
      String
      → String
      → Value F × Value F
      → List (List (String × Value F))
      → Option (Value F × Value F)
  unfolding max_increment_cursor
  read_changes primary secondary c [] = some c
  read_changes primary secondary c (r ∷ rs) = do
    c' ← max_increment_cursor primary secondary c r
    read_changes primary secondary c' rs

-- FormatCursorValue; `formatted` is the Format of time at the layout of the driver
unfoldable pub format_cursor_value : {F : Type 0} → (ℤ → String) → Value F → Value F
format_cursor_value formatted (time t) = other (formatted t)
format_cursor_value formatted (object_id h) = other h
format_cursor_value formatted v = v

module _ {F : Type 0} (type_of : String → Option DataType)
    (reformat_value : DataType → Value F → Option (Value F)) where
  -- ReformatCursorValue, with GetType of the stream's schema; `none` is an error
  pub reformat_cursor_value : String → Value F → Option (Value F)
  reformat_cursor_value field v =
      if field == empty_text
      then some v
      else elim (type_of field) [ none ↦ none | some t ↦ reformat_value t v ]

  -- getIncrementCursorFromState, of the values that GetCursor gives for the two cursors
  unfoldable pub increment_cursor_from_state :
      String → String → Value F × Value F → Option (Value F × Value F)
  unfolding reformat_cursor_value
  increment_cursor_from_state primary secondary (p, q) = do
    p' ← reformat_cursor_value primary p
    q' ← reformat_cursor_value secondary q
    some (p', q')

-- What Incremental does with a stream: its backfill is over, or goes on or begins in a state
pub data Course (C V : Type 0) : Type 0 where
  skips_backfill : Course C V
  backfills : State C V → Course C V

module _ {C F V : Type 0} where
  unfoldable pub no_chunks_left : State C V → ConfiguredStream F → Bool
  no_chunks_left s stream = elim (get_chunks s stream) [ none ↦ true | some c ↦ len c == 0 ]

module _ {C F G : Type 0} (formatted : ℤ → String) where
  -- The cursors that are set before a backfill; a secondary cursor that is there is set to its own greatest value.
  pub set_first_cursors :
      State C (Value G) → ConfiguredStream F → Value G → Value G → State C (Value G)
  unfolding format_cursor_value
  set_first_cursors s stream p q =
      let (primary, secondary) = cursor stream in
      let s' =
        set_cursor (reset_cursor s stream) stream primary
          (plain (format_cursor_value formatted p)) in
      if secondary == empty_text
      then s'
      else set_cursor s' stream secondary (plain (format_cursor_value formatted q))

module _ {C F V : Type 0} (J : Json V) (is_null : StateValue C V → Bool) where
  -- The condition on which the backfill is skipped
  unfoldable pub has_cursors : Hashing String → State C V → ConfiguredStream F → Bool
  has_cursors HS s stream =
      let (primary, secondary) = cursor stream in
      has_completed_backfill HS s stream
      && not (is_null (get_cursor J s stream primary))
      && (secondary == empty_text || not (is_null (get_cursor J s stream secondary)))

module _ {C F G : Type 0} (formatted : ℤ → String) (J : Json (Value G))
    (is_null : StateValue C (Value G) → Bool) where
  unfoldable pub prepare :
      Hashing String
      → State C (Value G)
      → ConfiguredStream F
      → Option (Value G × Value G)
      → Option (Course C (Value G))
  unfolding has_cursors no_chunks_left set_first_cursors
  prepare HS s stream fetched =
      if has_cursors J is_null HS s stream
      then some skips_backfill
      else if no_chunks_left s stream
      then elim fetched [
        | none ↦ none
        | some (p, q) ↦ some (backfills (set_first_cursors formatted s stream p q))
      ]
      else some (backfills s)
