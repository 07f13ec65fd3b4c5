-- ===== src/Tests/Threads.antt =====
-- Writer threads: destination/writers.go.
use olake.Base.{
  ℕ, ◌≡◌, refl, arith, true, false, not, none, some, List, [], ◌∷◌, ◌++◌, filterb, ◌==◌, nat_eq,
  ◌&&◌, if◌then◌else◌, length,
}
use olake.Destination.Writers.{Writer, Stats, WriterThread, Sync, close, push, run_queued, flush}
use olake.Destination.Writers.Life.{
  Event, pushes, flushes_end, others_count, live, step, total_bytes,
}
use olake.Destination.Writers.Counters.{Settled}
use olake.Destination.Writers.Committed.{IsNew, begin, counters_settle}
use olake.Destination.Writers.Delivery.{Watched, watch, note_batch, pass_on, note_write}
use olake.Destination.Writers.Delivery.Once.{close_delivers}

-- A table of numbers that leaves out the zeros
abbrev table : Writer ℕ ℕ ℕ ℕ (List ℕ)
table = record {
  flatten_and_clean_data = λ w buf. (w, some (false, filterb (λ x. not (x == 0)) buf, 0));
  evolve_schema = λ w schema t. (w, some none);
  write = λ w rest. (w ++ rest, true);
  close_writer = λ w done d. (w, not done);
}

abbrev counters : Stats
counters = record {
  total_records_to_sync = 9;
  read_count = 4;
  records_filtered = 1;
  thread_count = 2;
  bytes_read = 100;
}

abbrev thread : {W : Type 0} → W → WriterThread ℕ W
thread w = record {
  buffer = [];
  batch_size = 2;
  records_pushed = 0;
  records_filtered = 0;
  bytes_pushed = 0;
  buffer_bytes = 0;
  writer = w;
  queued = [];
  failed = false;
}

abbrev start : {W : Type 0} → W → Sync ℕ ℕ W
start w = record { stats = counters; schema = none; thread = thread w }

abbrev unwatched : Watched ℕ (List ℕ)
unwatched = record { inner = []; batch = []; cleaned = []; log = []; due = []; sent = [] }

abbrev events : List (Event ℕ)
events =
    pushes false 7 10
    ∷ pushes false 0 10
    ∷ others_count counters
    ∷ flushes_end
    ∷ pushes true 5 10
    ∷ pushes false 8 10
    ∷ []

thread-IsNew : {W : Type 0} (w : W) → IsNew (thread w)
thread-IsNew w = record {
  nothing_pushed = refl;
  nothing_filtered = refl;
  no_bytes = refl;
  no_buffer = refl;
  nothing_queued = refl;
  not_failed = refl;
}

counters_settle_example :
    Settled table
      (live table (begin (start [])) events).others
      (length (live table (begin (start [])) events).accepted)
      (total_bytes (live table (begin (start [])) events).accepted)
      (not false && (close table false (live table (begin (start [])) events).sync 0).1)
      (if false then 0 else 1)
      (close table false (live table (begin (start [])) events).sync 0).0
counters_settle_example =
    counters_settle table (start []) events false 0 (thread-IsNew []) (omega arith)

abbrev closed_thread : Sync ℕ ℕ (Watched ℕ (List ℕ))
closed_thread =
    (close (watch table) false (live (watch table) (begin (start unwatched)) events).sync 0).0

close_delivers_example :
    (closed_thread.thread.writer.log ≡ 7 ∷ 0 ∷ 8 ∷ [])
    × (closed_thread.thread.writer.sent ≡ closed_thread.thread.writer.due)
unfolding close live step push watch run_queued flush note_batch pass_on note_write
close_delivers_example =
    close_delivers table (start unwatched) events 0 (thread-IsNew unwatched) refl refl refl
