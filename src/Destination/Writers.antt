-- ===== src/Destination/Writers.antt =====
-- destination/writers.go: a writer thread, which buffers records, flushes batches in the background and
-- counts into the statistics of its pool. The destination is a Writer over a state `W`; records are `R`,
-- schemas `S`, the schemas of batches `T` and final metadata `D`. Counters are the 64 bits of an int64.
-- The group of a thread runs one flush at a time: one is queued at most, and to queue another waits
-- for it. A panic in a flush is an error like any other.
pub mod Life
pub mod Counters
pub mod Committed
pub mod Delivery
use olake.Base.{
  ℕ, ◌+◌, ◌-◌, ◌%◌, Bool, true, false, not, ◌||◌, ◌&&◌, Option, none, some, List, [], ◌∷◌, ◌++◌,
  if◌then◌else◌, leb, ltb, length, is_nil,
}

abbrev pub word : ℕ
word = 18446744073709551616

abbrev pub add64 : ℕ → ℕ → ℕ
add64 a b = (a + b) % word

abbrev pub sub64 : ℕ → ℕ → ℕ
sub64 a b = (a + word - b % word) % word

-- constants.MaxDestinationBatchBytes
abbrev pub max_destination_batch_bytes : ℕ
max_destination_batch_bytes = 1073741824

pub record Writer (R S T D W : Type 0) : Type 0 where
  pub flatten_and_clean_data : W → List R → W × Option (Bool × List R × T)
  pub evolve_schema : W → Option S → T → W × Option (Option S)
  pub write : W → List R → W × Bool
  -- with whether the context is cancelled
  pub close_writer : W → Bool → D → W × Bool

pub record Stats : Type 0 where
  pub total_records_to_sync : ℕ
  pub read_count : ℕ
  pub records_filtered : ℕ
  pub thread_count : ℕ
  pub bytes_read : ℕ

pub record WriterThread (R W : Type 0) : Type 0 where
  pub buffer : List R
  pub batch_size : ℕ
  pub records_pushed : ℕ
  pub records_filtered : ℕ
  pub bytes_pushed : ℕ
  pub buffer_bytes : ℕ
  pub writer : W
  -- of the group: the flush that it holds, and whether one has failed
  pub queued : List (List R)
  pub failed : Bool

-- A thread with what it shares with others
pub record Sync (R S W : Type 0) : Type 0 where
  pub stats : Stats
  pub schema : Option S
  pub thread : WriterThread R W

module _ {R S W : Type 0} where
  abbrev pub set_writer : W → Sync R S W → Sync R S W
  set_writer w s = record s { thread = record (s.thread) { writer = w } }

  abbrev pub fail : Sync R S W → Sync R S W
  fail s = record s { thread = record (s.thread) { failed = true } }

  abbrev pub count_filtered : ℕ → Sync R S W → Sync R S W
  count_filtered n s = record s {
    stats = record (s.stats) { records_filtered = add64 s.stats.records_filtered n };
    thread = record (s.thread) { records_filtered = add64 s.thread.records_filtered n };
  }

  -- rollbackStats
  unfoldable pub rollback_stats : Sync R S W → Sync R S W
  rollback_stats s = record s {
    stats = record (s.stats) {
      read_count = sub64 s.stats.read_count s.thread.records_pushed;
      records_filtered = sub64 s.stats.records_filtered s.thread.records_filtered;
      bytes_read = sub64 s.stats.bytes_read s.thread.bytes_pushed;
    };
  }

  abbrev pub buffered : Sync R S W → R → ℕ → Sync R S W
  buffered s r source_bytes = record s {
    stats = record (s.stats) {
      read_count = add64 s.stats.read_count 1;
      bytes_read = add64 s.stats.bytes_read source_bytes;
    };
    thread = record (s.thread) {
      records_pushed = add64 s.thread.records_pushed 1;
      bytes_pushed = add64 s.thread.bytes_pushed source_bytes;
      buffer = s.thread.buffer ++ r ∷ [];
      buffer_bytes = add64 s.thread.buffer_bytes source_bytes;
    };
  }

  abbrev pub emptied : Sync R S W → Sync R S W
  emptied s = record s { thread = record (s.thread) { buffer = []; buffer_bytes = 0 } }

  pub closed_aborted : Sync R S W → W × Bool → Sync R S W × Bool
  closed_aborted s (w, ok) = (set_writer w s, ok)

  abbrev pub leave : Sync R S W → Sync R S W
  leave s = record s { stats = record (s.stats) { thread_count = sub64 s.stats.thread_count 1 } }

module _ {R W : Type 0} where
  -- `len(buffer) >= batchSize || bufferBytes >= MaxDestinationBatchBytes`, on int64
  abbrev pub is_full : WriterThread R W → Bool
  is_full t =
      leb t.batch_size (length t.buffer)
      || (ltb t.buffer_bytes 9223372036854775808 && leb max_destination_batch_bytes t.buffer_bytes)

module _ {R S T D W : Type 0} (Wr : Writer R S T D W) where
  pub written : Sync R S W → W × Bool → Sync R S W
  written s (w, true) = set_writer w s
  written s (w, false) = fail (set_writer w s)

  pub evolved : List R → Sync R S W → W × Option (Option S) → Sync R S W
  unfolding written
  evolved rest s (w, none) = fail (set_writer w s)
  evolved rest s (w, some none) = written s (Wr.write w rest)
  evolved rest s (w, some (some schema)) =
      written (record s { schema = some schema }) (Wr.write w rest)

  pub flattened : List R → Sync R S W → W × Option (Bool × List R × T) → Sync R S W
  unfolding evolved
  flattened buf s (w, none) = fail (set_writer w s)
  flattened buf s (w, some (evolution, rest, t)) =
      let counted = count_filtered (sub64 (length buf) (length rest)) s in
      if evolution
      then evolved rest counted (Wr.evolve_schema w s.schema t)
      else written counted (Wr.write w rest)

  unfoldable pub flush : Sync R S W → List R → Sync R S W
  unfolding flattened
  flush s buf =
      if is_nil buf then s else flattened buf s (Wr.flatten_and_clean_data s.thread.writer buf)

  pub run_all : Sync R S W → List (List R) → Sync R S W
  unfolding flush
  run_all s [] = s
  run_all s (buf ∷ bufs) = run_all (flush s buf) bufs

  -- The flushes that the group holds come to their end.
  unfoldable pub run_queued : Sync R S W → Sync R S W
  unfolding run_all
  run_queued s = run_all (record s { thread = record (s.thread) { queued = [] } }) s.thread.queued

  -- group.Add of a flush
  unfoldable pub add_flush : Sync R S W → List R → Sync R S W
  unfolding run_queued
  add_flush s buf =
      let free = run_queued s in record free { thread = record (free.thread) { queued = buf ∷ [] } }

  pub flush_if_full : Sync R S W → Sync R S W
  unfolding add_flush
  flush_if_full s = if is_full s.thread then add_flush (emptied s) s.thread.buffer else s

  -- Push, with whether it returns no error
  unfoldable pub push : Bool → Sync R S W → R → ℕ → Sync R S W × Bool
  unfolding flush_if_full
  push context_done s r source_bytes =
      if context_done
      then (s, false)
      else if s.thread.failed
      then (run_queued s, false)
      else (flush_if_full (buffered s r source_bytes), true)

  pub closed : Sync R S W → W × Bool → Sync R S W × Bool
  closed s (w, ok) =
      let committed = ok && not s.thread.failed in
      (leave (set_writer w (if committed then s else rollback_stats s)), committed)

  -- Close, with whether it returns no error
  unfoldable pub close : Bool → Sync R S W → D → Sync R S W × Bool
  unfolding closed closed_aborted rollback_stats add_flush run_queued
  close context_done s d =
      let aborted = rollback_stats (run_queued s) in
      let flushed = run_queued (add_flush s s.thread.buffer) in
      if context_done
      then closed_aborted aborted (Wr.close_writer aborted.thread.writer true d)
      else closed flushed (Wr.close_writer flushed.thread.writer flushed.thread.failed d)
