-- ===== src/Destination/Writers/Counters.antt =====
-- destination/writers.go: the counters of a pool count what is committed, whatever the other threads do.
use olake.Base.{
  ℕ, ◌+◌, ◌%◌, ◌≡◌, Bool, true, false, not, Option, none, some, List, [], ◌∷◌, arith, if◌then◌else◌,
  length, Bool-cases, inl, inr, ◌&&◌,
}
use olake.Destination.Writers.{
  word, sub64, Writer, Stats, Sync, count_filtered, rollback_stats, written, evolved, flattened,
  flush, run_all, run_queued, add_flush, is_full, emptied, flush_if_full, closed, closed_aborted,
  close,
}

-- The thread's part of the counters: what it counted itself, of what it shares
pub record Counted {R S W : Type 0} (o : Stats) (n b : ℕ) (s : Sync R S W) : Type 0 where
  pub reads : s.stats.read_count ≡ (o.read_count + n) % word
  pub pushed : s.thread.records_pushed ≡ n % word
  pub bytes : s.stats.bytes_read ≡ (o.bytes_read + b) % word
  pub bytes_pushed : s.thread.bytes_pushed ≡ b % word
  pub filtered : s.stats.records_filtered ≡ (o.records_filtered + s.thread.records_filtered) % word
  pub threads : s.stats.thread_count ≡ o.thread_count % word

module _ {R S T D W : Type 0} (Wr : Writer R S T D W) (o : Stats) (n b : ℕ) where
  written-Counted :
      (s : Sync R S W) (r : W × Bool) → Counted o n b s → Counted o n b (written Wr s r)
  unfolding written
  written-Counted s (w, true) c = ground arith
  written-Counted s (w, false) c = ground arith

  evolved-Counted :
      (rest : List R) (s : Sync R S W) (r : W × Option (Option S))
      → Counted o n b s
      → Counted o n b (evolved Wr rest s r)
  unfolding evolved
  evolved-Counted rest s (w, none) c = ground arith
  evolved-Counted rest s (w, some none) c = written-Counted s (Wr.write w rest) c
  evolved-Counted rest s (w, some (some schema)) c =
      written-Counted (record s { schema = some schema }) (Wr.write w rest) (ground arith)

  count_filtered-Counted :
      (k : ℕ) (s : Sync R S W) → Counted o n b s → Counted o n b (count_filtered k s)
  count_filtered-Counted k s c = ground arith

  flattened-Counted :
      (buf : List R) (s : Sync R S W) (r : W × Option (Bool × List R × T))
      → Counted o n b s
      → Counted o n b (flattened Wr buf s r)
  unfolding flattened
  flattened-Counted buf s (w, none) c = ground arith
  flattened-Counted buf s (w, some (true, rest, t)) c =
      let k = sub64 (length buf) (length rest) in
      evolved-Counted rest (count_filtered k s) (Wr.evolve_schema w s.schema t)
        (count_filtered-Counted k s c)
  flattened-Counted buf s (w, some (false, rest, t)) c =
      let k = sub64 (length buf) (length rest) in
      written-Counted (count_filtered k s) (Wr.write w rest) (count_filtered-Counted k s c)

  flush-Counted : (buf : List R) (s : Sync R S W) → Counted o n b s → Counted o n b (flush Wr s buf)
  unfolding flush
  flush-Counted [] s c = c
  flush-Counted (x ∷ buf) s c =
      flattened-Counted (x ∷ buf) s (Wr.flatten_and_clean_data s.thread.writer (x ∷ buf)) c

  run_all-Counted :
      (bufs : List (List R)) (s : Sync R S W) → Counted o n b s → Counted o n b (run_all Wr s bufs)
  unfolding run_all
  run_all-Counted [] s c = c
  run_all-Counted (buf ∷ bufs) s c = run_all-Counted bufs (flush Wr s buf) (flush-Counted buf s c)

  pub run_queued-Counted : (s : Sync R S W) → Counted o n b s → Counted o n b (run_queued Wr s)
  unfolding run_queued
  run_queued-Counted s c =
      run_all-Counted s.thread.queued (record s { thread = record (s.thread) { queued = [] } })
        (ground arith)

  add_flush-Counted :
      (s : Sync R S W) (buf : List R) → Counted o n b s → Counted o n b (add_flush Wr s buf)
  unfolding add_flush
  add_flush-Counted s buf c = let free = run_queued-Counted s c in ground arith

  pub flush_if_full-Counted :
      (s : Sync R S W) → Counted o n b s → Counted o n b (flush_if_full Wr s)
  unfolding flush_if_full
  flush_if_full-Counted s c = elim (Bool-cases (is_full s.thread)) [
    | inl full ↦ rw full (add_flush-Counted (emptied s) s.thread.buffer (ground arith))
    | inr room ↦ rw room c
  ]

  -- A rollback takes out what the thread put in.
  rollback_lem :
      (s : Sync R S W)
      → Counted o n b s
      → ((rollback_stats s).stats.read_count ≡ o.read_count % word)
        × ((rollback_stats s).stats.bytes_read ≡ o.bytes_read % word)
        × ((rollback_stats s).stats.records_filtered ≡ o.records_filtered % word)
        × ((rollback_stats s).stats.thread_count ≡ o.thread_count % word)
  unfolding rollback_stats
  rollback_lem s c = (ground arith, ground arith, ground arith, ground arith)

  -- What the counters are after a Close that commits or not, `left` threads having left
  pub record Settled (committed : Bool) (left : ℕ) (s : Sync R S W) : Type 0 where
    pub reads : s.stats.read_count ≡ (o.read_count + (if committed then n else 0)) % word
    pub bytes : s.stats.bytes_read ≡ (o.bytes_read + (if committed then b else 0)) % word
    pub filtered :
        s.stats.records_filtered
        ≡ (o.records_filtered + (if committed then s.thread.records_filtered else 0)) % word
    pub threads : (s.stats.thread_count + left) % word ≡ o.thread_count % word

  closed-Settled :
      (s : Sync R S W) (r : W × Bool)
      → Counted o n b s
      → Settled (closed Wr s r).1 1 (closed Wr s r).0
  unfolding closed rollback_stats
  closed-Settled s (w, ok) c = elim (Bool-cases (ok && not s.thread.failed)) [
    | inl h ↦ rw h (ground arith)
    | inr h ↦ rw h (ground arith)
  ]

  aborted-Settled :
      (s : Sync R S W) (r : W × Bool)
      → Counted o n b s
      → Settled false 0 (closed_aborted (rollback_stats s) r).0
  unfolding closed_aborted rollback_stats
  aborted-Settled s (w, ok) c = ground arith

  pub close-Settled :
      (context_done : Bool) (s : Sync R S W) (d : D)
      → Counted o n b s
      → Settled
          (not context_done && (close Wr context_done s d).1)
          (if context_done then 0 else 1)
          (close Wr context_done s d).0
  unfolding close
  close-Settled true s d c =
      let q = run_queued Wr s in
      aborted-Settled q (Wr.close_writer q.thread.writer true d) (run_queued-Counted s c)
  close-Settled false s d c =
      let q = run_queued Wr (add_flush Wr s s.thread.buffer) in
      closed-Settled q (Wr.close_writer q.thread.writer q.thread.failed d) (
        run_queued-Counted (add_flush Wr s s.thread.buffer) (add_flush-Counted s s.thread.buffer c))
