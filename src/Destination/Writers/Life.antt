-- ===== src/Destination/Writers/Life.antt =====
-- destination/writers.go: the life of a writer thread, as a list of what happens, with a record of the
-- pushes that returned no error and of what the others counted.
use olake.Base.{ℕ, Bool, List, [], ◌∷◌, ◌++◌, if◌then◌else◌, ◌+◌}
use olake.Destination.Writers.{add64, Writer, Stats, Sync, push, run_queued}

-- What happens in the life of a thread: a Push, the end of a flush, or counts of other threads
pub data Event (R : Type 0) : Type 0 where
  pushes : Bool → R → ℕ → Event R
  flushes_end : Event R
  others_count : Stats → Event R

pub record Life (R S W : Type 0) : Type 0 where
  pub sync : Sync R S W
  pub accepted : List (R × ℕ)
  -- the counters without this thread
  pub others : Stats

abbrev pub add_stats : Stats → Stats → Stats
add_stats a b = record {
  total_records_to_sync = add64 a.total_records_to_sync b.total_records_to_sync;
  read_count = add64 a.read_count b.read_count;
  records_filtered = add64 a.records_filtered b.records_filtered;
  thread_count = add64 a.thread_count b.thread_count;
  bytes_read = add64 a.bytes_read b.bytes_read;
}

module _ {R S W : Type 0} where
  abbrev pub accept : R → ℕ → Life R S W → Sync R S W × Bool → Life R S W
  accept r n l (s, ok) = record l {
    sync = s;
    accepted = if ok then l.accepted ++ (r, n) ∷ [] else l.accepted;
  }

module _ {R : Type 0} where
  abbrev pub total_bytes : List (R × ℕ) → ℕ
  total_bytes [] = 0
  total_bytes ((r, n) ∷ rest) = n + total_bytes rest

  abbrev pub records : List (R × ℕ) → List R
  records [] = []
  records ((r, n) ∷ rest) = r ∷ records rest

module _ {R S T D W : Type 0} (Wr : Writer R S T D W) where
  unfoldable pub step : Life R S W → Event R → Life R S W
  step l (pushes context_done r n) = accept r n l (push Wr context_done l.sync r n)
  step l flushes_end = record l { sync = run_queued Wr l.sync }
  step l (others_count d) = record l {
    sync = record (l.sync) { stats = add_stats l.sync.stats d };
    others = add_stats l.others d;
  }

  unfoldable pub live : Life R S W → List (Event R) → Life R S W
  live l [] = l
  live l (e ∷ es) = live (step l e) es
