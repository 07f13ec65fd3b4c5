-- ===== src/Destination/Writers/Committed.antt =====
-- destination/writers.go: over the whole life of a thread, beside others that count as well.
use olake.Base.{
  ℕ, ◌+◌, ◌<◌, ◌≡◌, sym, subst, Bool, true, false, not, ◌&&◌, List, [], ◌∷◌, ◌++◌, arith,
  if◌then◌else◌, length, length-append, if-elim,
}
use olake.Destination.Writers.{
  word, Writer, Stats, WriterThread, Sync, run_queued, buffered, flush_if_full, push, close,
}
use olake.Destination.Writers.Life.{
  Life, Event, pushes, flushes_end, others_count, accept, total_bytes, step, live,
}
use olake.Destination.Writers.Counters.{
  Counted, Settled, close-Settled, flush_if_full-Counted, run_queued-Counted,
}

-- A thread as NewWriter makes it
pub record IsNew {R W : Type 0} (t : WriterThread R W) : Type 0 where
  pub nothing_pushed : t.records_pushed ≡ 0
  pub nothing_filtered : t.records_filtered ≡ 0
  pub no_bytes : t.bytes_pushed ≡ 0
  pub no_buffer : t.buffer ≡ []
  pub nothing_queued : t.queued ≡ []
  pub not_failed : t.failed ≡ false

-- The counters are int64.
pub record IsInt64 (s : Stats) : Type 0 where
  pub reads : s.read_count < word
  pub filtered : s.records_filtered < word
  pub threads : s.thread_count < word
  pub bytes : s.bytes_read < word

abbrev pub begin : {R S W : Type 0} → Sync R S W → Life R S W
begin s = record { sync = s; accepted = []; others = s.stats }

total_bytes-snoc :
    {R : Type 0} (xs : List (R × ℕ)) (r : R) (n : ℕ)
    → total_bytes (xs ++ (r, n) ∷ []) ≡ total_bytes xs + n
total_bytes-snoc [] r n = omega arith
total_bytes-snoc ((x, m) ∷ xs) r n = omega (arith, total_bytes-snoc xs r n)

module _ {R S T D W : Type 0} (Wr : Writer R S T D W) where
  abbrev Kept : Life R S W → Type 0
  Kept l = Counted l.others (length l.accepted) (total_bytes l.accepted) l.sync

  buffered-Counted :
      (o : Stats) (n b k : ℕ) (s : Sync R S W) (r : R)
      → Counted o n b s
      → Counted o (n + 1) (b + k) (buffered s r k)
  buffered-Counted o n b k s r c = ground arith

  accepted-Kept :
      (l : Life R S W) (r : R) (k : ℕ)
      → Kept l
      → Kept (accept r k l (flush_if_full Wr (buffered l.sync r k), true))
  accepted-Kept l r k c =
      subst
        (λ m.
          Counted l.others m (total_bytes (l.accepted ++ (r, k) ∷ []))
            (flush_if_full Wr (buffered l.sync r k)))
        (sym (length-append l.accepted ((r, k) ∷ [])))
        (subst
          (λ m. Counted l.others (length l.accepted + 1) m (flush_if_full Wr (buffered l.sync r k)))
          (sym (total_bytes-snoc l.accepted r k))
          (flush_if_full-Counted Wr l.others (length l.accepted + 1) (total_bytes l.accepted + k)
            (buffered l.sync r k)
            (buffered-Counted l.others (length l.accepted) (total_bytes l.accepted) k l.sync r c)))

  push-Kept :
      (l : Life R S W) (done : Bool) (r : R) (k : ℕ)
      → Kept l
      → Kept (accept r k l (push Wr done l.sync r k))
  unfolding push
  push-Kept l true r k c = c
  push-Kept l false r k c =
      if-elim (λ x. Kept (accept r k l x)) l.sync.thread.failed (run_queued Wr l.sync, false)
        (flush_if_full Wr (buffered l.sync r k), true)
        (λ bad.
          run_queued-Counted Wr l.others (length l.accepted) (total_bytes l.accepted) l.sync c)
        (λ good. accepted-Kept l r k c)

  step-Kept : (l : Life R S W) (e : Event R) → Kept l → Kept (step Wr l e)
  unfolding step
  step-Kept l (pushes done r k) c = push-Kept l done r k c
  step-Kept l flushes_end c =
      run_queued-Counted Wr l.others (length l.accepted) (total_bytes l.accepted) l.sync c
  step-Kept l (others_count d) c = ground arith

  live-Kept : (l : Life R S W) (es : List (Event R)) → Kept l → Kept (live Wr l es)
  unfolding live
  live-Kept l [] c = c
  live-Kept l (e ∷ es) c = live-Kept (step Wr l e) es (step-Kept l e c)

  begin-Kept : (s : Sync R S W) → IsNew s.thread → IsInt64 s.stats → Kept (begin s)
  begin-Kept s fresh small = ground arith

  -- Of a new thread with 64-bit counters, after any pushes, ends of flushes and counts of other threads, and a Close:
  -- the pool's counts of records read, of bytes read and of records filtered are what the others counted, and
  -- with it this thread's accepted records, their bytes and its filtered records exactly if Close ran on a live
  -- context and returned no error. The thread count falls by one if the context is live, and else not at all.
  pub counters_settle :
      (s : Sync R S W) (es : List (Event R)) (context_done : Bool) (d : D)
      → IsNew s.thread
      → IsInt64 s.stats
      → Settled Wr
          (live Wr (begin s) es).others
          (length (live Wr (begin s) es).accepted)
          (total_bytes (live Wr (begin s) es).accepted)
          (not context_done && (close Wr context_done (live Wr (begin s) es).sync d).1)
          (if context_done then 0 else 1)
          (close Wr context_done (live Wr (begin s) es).sync d).0
  counters_settle s es context_done d fresh small =
      let l = live Wr (begin s) es in
      close-Settled Wr l.others (length l.accepted) (total_bytes l.accepted) context_done l.sync d
        (live-Kept (begin s) es (begin-Kept s fresh small))
