-- ===== src/Drivers/Abstract/Backfill.antt =====
-- drivers/abstract/backfill.go: the workers of a backfill. One attempt at a chunk opens a writer, reads the
-- chunk unless the destination has committed its thread already, closes the writer and takes
-- the chunk out of the state. What fails in it is up to the environment. The destination commits the rows
-- of a thread and the thread's id in one step, as two-phase commit does.
pub mod Once
pub mod Retries
pub mod Whole
use olake.Base.{
  ℕ, zero, suc, String, Bool, true, false, not, Option, none, some, List, [], ◌∷◌, ◌++◌,
  if◌then◌else◌, ◌==◌, string_eq, nat_eq, elem,
}
use olake.Types.Set.{Hashing, Set, len, array}
use olake.Types.Configured.{ConfiguredStream, stream_id}
use olake.Types.State.{State, panics, removed, remove_chunk, get_chunks, set_chunks}

-- What fails in an attempt: no writer is made, a read or a push fails, or Close returns an error
-- without a commit or after it, or the context of the group is cancelled, before the writer commits or after it
pub data Trouble : Type 0 where
  no_writer read_fails close_fails close_answer_lost cancelled_early cancelled_late nothing_fails :
      Trouble

-- How the work of an attempt ends once its writer is closed: with an error, under a context that is done, or well
pub data Ending : Type 0 where
  with_error context_done well : Ending

pub record Site (C V : Type 0) : Type 0 where
  pub state : State C V
  -- of the destination: FullRefreshCommittedIDs, and the threads whose rows are in the table
  pub committed : List String
  pub table : List String
  -- what the workers sent on backfilledStreams
  pub backfilled : List String

pub data Attempt (C V : Type 0) : Type 0 where
  attempt_panics : Attempt C V
  attempt_fails : Site C V → Attempt C V
  -- the context of the group is done, and the retries with it
  attempt_stops : Site C V → Attempt C V
  attempt_succeeds : Site C V → Attempt C V

module _ {C V : Type 0} where
  abbrev pub commit : String → Site C V → Site C V
  commit thread s = record s {
    committed = s.committed ++ thread ∷ [];
    table = s.table ++ thread ∷ [];
  }

  -- The end of ChunkIterator and of the writer's Close
  pub load_rows : Trouble → String → Site C V → Site C V × Ending
  load_rows no_writer thread s = (s, with_error)
  load_rows read_fails thread s = (s, with_error)
  load_rows close_fails thread s = (s, with_error)
  load_rows close_answer_lost thread s = (commit thread s, with_error)
  load_rows cancelled_early thread s = (s, context_done)
  load_rows cancelled_late thread s = (commit thread s, context_done)
  load_rows nothing_fails thread s = (commit thread s, well)

  -- With a thread that is committed nothing is read, and the writer is closed with no rows.
  pub skip_rows : Trouble → Site C V → Site C V × Ending
  skip_rows no_writer s = (s, with_error)
  skip_rows read_fails s = (s, well)
  skip_rows close_fails s = (s, with_error)
  skip_rows close_answer_lost s = (s, with_error)
  skip_rows cancelled_early s = (s, context_done)
  skip_rows cancelled_late s = (s, context_done)
  skip_rows nothing_fails s = (s, well)

  pub try_again : (Site C V → Attempt C V) → Attempt C V → Attempt C V
  try_again again attempt_panics = attempt_panics
  try_again again (attempt_fails s) = again s
  try_again again (attempt_stops s) = attempt_stops s
  try_again again (attempt_succeeds s) = attempt_succeeds s

module _ {C V F : Type 0} (HC : Hashing C) where
  pub signal : ConfiguredStream F → Option ℕ → Site C V → Site C V
  signal stream none s = s
  signal stream (some left) s =
      if left == 0 then record s { backfilled = s.backfilled ++ stream_id stream ∷ [] } else s

  -- The deferred RemoveChunk, once the writer is closed, unless the context is done: an error has cancelled it,
  -- or the group has
  pub finish_chunk : ConfiguredStream F → C → Site C V × Ending → Attempt C V
  unfolding signal
  finish_chunk stream chunk (s, with_error) = attempt_fails s
  finish_chunk stream chunk (s, context_done) = attempt_stops s
  finish_chunk stream chunk (s, well) = elim (remove_chunk HC s.state stream chunk) [
    | panics ↦ attempt_panics
    | removed st left ↦ attempt_succeeds (signal stream left (record s { state = st }))
  ]

  -- chunkProcessor
  unfoldable pub chunk_processor :
      ConfiguredStream F → C → String → Trouble → Site C V → Attempt C V
  unfolding load_rows skip_rows finish_chunk
  chunk_processor stream chunk thread trouble s =
      if elem thread s.committed
      then finish_chunk stream chunk (skip_rows trouble s)
      else finish_chunk stream chunk (load_rows trouble thread s)

  -- The retries of one chunk, with the trouble of each attempt: as many as there are
  unfoldable pub with_retries :
      ConfiguredStream F → C → String → List Trouble → Site C V → Attempt C V
  unfolding chunk_processor try_again
  with_retries stream chunk thread [] s = attempt_fails s
  with_retries stream chunk thread (t ∷ ts) s =
      try_again (λ s'. with_retries stream chunk thread ts s')
        (chunk_processor stream chunk thread t s)

module _ {C V F : Type 0} where
  -- The first part of Backfill: the chunks that are stored, or those that the driver makes
  unfoldable pub chunks_to_do : State C V → ConfiguredStream F → Set C → State C V × Set C
  chunks_to_do s stream fresh = elim (get_chunks s stream) [
    | none ↦ (set_chunks s stream fresh, fresh)
    | some c ↦ if len c == 0 then (set_chunks s stream fresh, fresh) else (s, c)
  ]

-- A chunk with its thread, and the trouble of the attempts at it
pub record Job (C : Type 0) : Type 0 where
  pub chunk : C
  pub thread : String
  pub troubles : List Trouble

abbrev pub succeeded_site : {C V : Type 0} → Attempt C V → Option (Site C V)
succeeded_site attempt_panics = none
succeeded_site (attempt_fails s) = none
succeeded_site (attempt_stops s) = none
succeeded_site (attempt_succeeds s) = some s

module _ {C V F : Type 0} (HC : Hashing C) where
  -- The jobs of a backfill that ConcurrentInGroupWithRetry runs, in the order in which they end
  unfoldable pub run_jobs : ConfiguredStream F → List (Job C) → Site C V → Option (Site C V)
  run_jobs stream [] s = some s
  run_jobs stream (j ∷ js) s =
      elim (succeeded_site (with_retries HC stream j.chunk j.thread j.troubles s)) [
        | none ↦ none
        | some s' ↦ run_jobs stream js s'
      ]
