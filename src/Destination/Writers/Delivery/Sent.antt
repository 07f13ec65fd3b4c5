-- ===== src/Destination/Writers/Delivery/Sent.antt =====
-- destination/writers.go: Write is called with what flattening gave.
use olake.Base.{ℕ, ◌≡◌, Bool, true, false, List, [], ◌∷◌, if-elim}
use olake.Destination.Writers.{
  Writer, Sync, run_queued, add_flush, is_full, buffered, emptied, flush_if_full, push, closed,
}
use olake.Destination.Writers.Life.{
  Life, Event, pushes, flushes_end, others_count, accept, step, live,
}
use olake.Destination.Writers.Delivery.{Watched, watch, run_all-Flushed, pass_on}

module _ {R S T D W : Type 0} (Wr : Writer R S T D W) where
  abbrev pub AllSent : Sync R S (Watched R W) → Type 0
  AllSent s = s.thread.writer.sent ≡ s.thread.writer.due

  pub run_queued-AllSent :
      (s : Sync R S (Watched R W)) → AllSent s → AllSent (run_queued (watch Wr) s)
  unfolding run_queued
  run_queued-AllSent s h =
      (run_all-Flushed Wr s.thread.queued
          (record s { thread = record (s.thread) { queued = [] } })).all_sent
        h

  pub add_flush-AllSent :
      (s : Sync R S (Watched R W)) (buf : List R) → AllSent s → AllSent (add_flush (watch Wr) s buf)
  unfolding add_flush
  add_flush-AllSent s buf h = run_queued-AllSent s h

  flush_if_full-AllSent :
      (s : Sync R S (Watched R W)) → AllSent s → AllSent (flush_if_full (watch Wr) s)
  unfolding flush_if_full
  flush_if_full-AllSent s h =
      if-elim AllSent (is_full s.thread) (add_flush (watch Wr) (emptied s) s.thread.buffer) s
        (λ full. add_flush-AllSent (emptied s) s.thread.buffer h) (λ room. h)

  push-AllSent :
      (l : Life R S (Watched R W)) (done : Bool) (r : R) (n : ℕ)
      → AllSent l.sync
      → AllSent (accept r n l (push (watch Wr) done l.sync r n)).sync
  unfolding push
  push-AllSent l true r n h = h
  push-AllSent l false r n h =
      if-elim (λ x. AllSent (accept r n l x).sync) l.sync.thread.failed
        (run_queued (watch Wr) l.sync, false) (flush_if_full (watch Wr) (buffered l.sync r n), true)
        (λ bad. run_queued-AllSent l.sync h) (λ good. flush_if_full-AllSent (buffered l.sync r n) h)

  step-AllSent :
      (l : Life R S (Watched R W)) (e : Event R)
      → AllSent l.sync
      → AllSent (step (watch Wr) l e).sync
  unfolding step
  step-AllSent l (pushes done r n) h = push-AllSent l done r n h
  step-AllSent l flushes_end h = run_queued-AllSent l.sync h
  step-AllSent l (others_count d) h = h

  pub live-AllSent :
      (l : Life R S (Watched R W)) (es : List (Event R))
      → AllSent l.sync
      → AllSent (live (watch Wr) l es).sync
  unfolding live
  live-AllSent l [] h = h
  live-AllSent l (e ∷ es) h = live-AllSent (step (watch Wr) l e) es (step-AllSent l e h)

  pub closed-AllSent :
      (s : Sync R S (Watched R W)) (r : W × Bool)
      → AllSent s
      → AllSent (closed (watch Wr) s (pass_on s.thread.writer r)).0
  unfolding closed pass_on
  closed-AllSent s (w, ok) h = h
