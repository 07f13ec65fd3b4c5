-- ===== src/Drivers/Abstract/Cdc.antt =====
-- drivers/abstract/cdc.go and waitForBackfillCompletion of abstract.go: when the readers of the change log begin. What
-- comes on the channel of backfills and what the contexts do is a list of events, in the order in which the
-- select sees them; the answers of the driver are arguments. A reader is named by its index. The chunks in
-- the state, which the workers of the backfills change meanwhile, are left as they are.
pub mod Waits
use olake.Base.{
  ℕ, zero, suc, String, ◌≡◌, Bool, true, false, not, Option, none, some, List, [], ◌∷◌, ◌++◌, ◌&&◌,
  ◌||◌, if◌then◌else◌, ◌==◌, string_eq, length, all,
}
use olake.Utils.Arrays.{array_contains}
use olake.Types.Set.{Hashing}
use olake.Types.Stream.{SyncMode, strict_cdc}
use olake.Types.Configured.{ConfiguredStream, stream_id, resolve_upsert_op}
use olake.Types.State.{State, has_completed_backfill, set_global}

pub data Event : Type 0 where
  backfilled : String → Event
  context_done group_failed channel_closed : Event

pub data Wait (S : Type 0) : Type 0 where
  blocks : S → Wait S
  fails : Event → S → Wait S
  process_fails : S → Wait S
  completes : S → Wait S

pub processed : {S : Type 0} → S × Bool → (S → Wait S) → Wait S
processed (s, true) next = next s
processed (s, false) next = process_fails s

-- waitForBackfillCompletion, with the number of streams that are still to come
unfoldable pub wait_for_backfill_completion :
    {S : Type 0} → (String → S → S × Bool) → ℕ → List Event → S → Wait S
unfolding processed
wait_for_backfill_completion process zero events s = completes s
wait_for_backfill_completion process (suc n) [] s = blocks s
wait_for_backfill_completion process (suc n) (backfilled id ∷ events) s =
    processed (process id s) (λ s'. wait_for_backfill_completion process n events s')
wait_for_backfill_completion process (suc n) (context_done ∷ events) s = fails context_done s
wait_for_backfill_completion process (suc n) (group_failed ∷ events) s = fails group_failed s
wait_for_backfill_completion process (suc n) (channel_closed ∷ events) s = fails channel_closed s

-- ChangeStreamConfig and MaxConnections
pub record Config : Type 0 where
  pub is_sequential_mode : Bool
  pub is_parallel_mode : Bool
  pub is_concurrent_mode : Bool
  pub max_connections : ℕ

pub record Run (C V : Type 0) : Type 0 where
  pub state : State C V
  -- the indices that streamChanges is queued with; -1 is `none`
  pub started : List (Option ℕ)

abbrev pub indices : ℕ → List (Option ℕ)
indices zero = []
indices (suc n) = indices n ++ some n ∷ []

pub data Outcome (R : Type 0) : Type 0 where
  waits : R → Outcome R
  -- with or without an error; that of the connection group is reported elsewhere
  returns_error : R → Outcome R
  returns : R → Outcome R

pub start_rest : {C V : Type 0} → Config → Run C V → Run C V
start_rest c r =
    if c.is_parallel_mode
    then record r { started = r.started ++ indices c.max_connections }
    else if c.is_sequential_mode
    then record r { started = r.started ++ some 0 ∷ [] }
    else r

pub after_wait : {C V : Type 0} → Config → Wait (Run C V) → Outcome (Run C V)
unfolding start_rest
after_wait c (blocks r) = waits r
after_wait c (fails group_failed r) = returns r
after_wait c (fails e r) = returns_error r
after_wait c (process_fails r) = returns_error r
after_wait c (completes r) = returns (start_rest c r)

module _ {C V F : Type 0} (HS : Hashing String) (nil : V) where
  -- The streams whose backfill is skipped, which signal at once
  unfoldable pub is_skipped : State C V → ConfiguredStream F → Bool
  is_skipped s stream = has_completed_backfill HS s stream || stream.stream.sync_mode == strict_cdc

  -- processStream of RunChangeStream
  pub start_stream : Config → List (ConfiguredStream F) → String → Run C V → Run C V × Bool
  start_stream c streams id r =
      if c.is_concurrent_mode
      then (
        record r { started = r.started ++ array_contains streams (λ s. stream_id s == id) ∷ [] },
        true,
      )
      else (record r { state = set_global HS r.state nil none (id ∷ []) }, true)

  -- RunChangeStream: whether PreCDC succeeds, whether the backfill of a stream is queued without an error, and the events
  unfoldable pub run_change_stream :
      Config
      → Bool
      → (ConfiguredStream F → Bool)
      → List (ConfiguredStream F)
      → List Event
      → Run C V
      → Outcome (Run C V)
  unfolding after_wait start_stream is_skipped
  run_change_stream c pre_cdc queued streams events r =
      if pre_cdc && all (λ s. is_skipped r.state s || queued s) streams
      then after_wait c
          (wait_for_backfill_completion (start_stream c streams) (length streams) events r)
      else returns_error r

-- mapChangeKindToOperationType
unfoldable pub map_change_kind_to_operation_type :
    {F : Type 0} → String → Bool → ConfiguredStream F → String
map_change_kind_to_operation_type kind dedup_inserts stream =
    if kind == "delete"
    then "d"
    else if resolve_upsert_op stream
    then "u"
    else if kind == "update"
    then "u"
    else if dedup_inserts
    then "i"
    else "c"

-- The value of dedupInserts for a stream, from what NewWriter returns for it
unfoldable pub dedup_inserts_of : Option (Option Bool) → Bool
dedup_inserts_of none = true
dedup_inserts_of (some none) = true
dedup_inserts_of (some (some b)) = b
