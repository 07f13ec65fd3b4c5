-- ===== src/Destination/Writers/Delivery/Once.antt =====
-- destination/writers.go: a Close without an error has written all that was accepted.
use olake.Base.{
  ℕ, ◌≡◌, refl, sym, ap, ◌∙◌, Bool, true, false, List, [], ◌∷◌, ◌++◌, arith, if-elim, append_assoc,
  append_nil,
}
use olake.Destination.Writers.{
  Writer, Sync, run_queued, add_flush, is_full, buffered, emptied, flush_if_full, push, closed,
  close,
}
use olake.Destination.Writers.Life.{
  Life, Event, pushes, flushes_end, others_count, accept, records, step, live,
}
use olake.Destination.Writers.Committed.{IsNew, begin}
use olake.Destination.Writers.Delivery.Sent.{
  run_queued-AllSent, add_flush-AllSent, live-AllSent, closed-AllSent,
}
use olake.Destination.Writers.Delivery.{Watched, watch, concat, run_all-Flushed, pass_on}

records-snoc :
    {R : Type 0} (xs : List (R × ℕ)) (r : R) (n : ℕ)
    → records (xs ++ (r, n) ∷ []) ≡ records xs ++ r ∷ []
records-snoc [] r n = refl
records-snoc ((x, m) ∷ xs) r n = ap (◌∷◌ x) (records-snoc xs r n)

module _ {R S T D W : Type 0} (Wr : Writer R S T D W) where
  -- The log, what is queued and what is buffered are what was accepted, unless a flush has failed.
  abbrev Holds : List R → Sync R S (Watched R W) → Type 0
  Holds a s =
      s.thread.failed ≡ false
      → s.thread.writer.log ++ (concat s.thread.queued ++ s.thread.buffer) ≡ a

  queued-run : (s : Sync R S (Watched R W)) → (run_queued (watch Wr) s).thread.queued ≡ []
  unfolding run_queued
  queued-run s =
      (run_all-Flushed Wr s.thread.queued
        (record s { thread = record (s.thread) { queued = [] } })).queued_same

  buffer-run :
      (s : Sync R S (Watched R W)) → (run_queued (watch Wr) s).thread.buffer ≡ s.thread.buffer
  unfolding run_queued
  buffer-run s =
      (run_all-Flushed Wr s.thread.queued
        (record s { thread = record (s.thread) { queued = [] } })).buffer_same

  failed-run :
      (s : Sync R S (Watched R W))
      → (run_queued (watch Wr) s).thread.failed ≡ false
      → s.thread.failed ≡ false
  unfolding run_queued
  failed-run s =
      (run_all-Flushed Wr s.thread.queued
        (record s { thread = record (s.thread) { queued = [] } })).sound

  log-run :
      (s : Sync R S (Watched R W))
      → (run_queued (watch Wr) s).thread.failed ≡ false
      → (run_queued (watch Wr) s).thread.writer.log ≡ s.thread.writer.log ++ concat s.thread.queued
  unfolding run_queued
  log-run s =
      (run_all-Flushed Wr s.thread.queued
        (record s { thread = record (s.thread) { queued = [] } })).logged

  run_queued-Holds :
      (a : List R) (s : Sync R S (Watched R W)) → Holds a s → Holds a (run_queued (watch Wr) s)
  run_queued-Holds a s h f =
      let q = run_queued (watch Wr) s in
      ap (λ l. l ++ (concat q.thread.queued ++ q.thread.buffer)) (log-run s f)
      ∙ ap (λ l. (s.thread.writer.log ++ concat s.thread.queued) ++ (concat l ++ q.thread.buffer))
          (queued-run s)
      ∙ ap (λ l. (s.thread.writer.log ++ concat s.thread.queued) ++ l) (buffer-run s)
      ∙ append_assoc s.thread.writer.log (concat s.thread.queued) s.thread.buffer
      ∙ h (failed-run s f)

  -- Of a flush that is queued once the buffer is taken
  add_flush-Holds :
      (a : List R) (s : Sync R S (Watched R W))
      → Holds a s
      → Holds a (add_flush (watch Wr) (emptied s) s.thread.buffer)
  unfolding add_flush
  add_flush-Holds a s h f =
      let e = emptied s in
      let q = run_queued (watch Wr) e in
      ap (λ l. l ++ ((s.thread.buffer ++ []) ++ q.thread.buffer)) (log-run e f)
      ∙ ap (λ l. (s.thread.writer.log ++ concat s.thread.queued) ++ ((s.thread.buffer ++ []) ++ l))
          (buffer-run e)
      ∙ ap (λ l. (s.thread.writer.log ++ concat s.thread.queued) ++ l)
          (append_nil (s.thread.buffer ++ []) ∙ append_nil s.thread.buffer)
      ∙ append_assoc s.thread.writer.log (concat s.thread.queued) s.thread.buffer
      ∙ h (failed-run e f)

  flush_if_full-Holds :
      (a : List R) (s : Sync R S (Watched R W)) → Holds a s → Holds a (flush_if_full (watch Wr) s)
  unfolding flush_if_full
  flush_if_full-Holds a s h =
      if-elim (Holds a) (is_full s.thread) (add_flush (watch Wr) (emptied s) s.thread.buffer) s
        (λ full. add_flush-Holds a s h) (λ room. h)

  buffered-Holds :
      (xs : List (R × ℕ)) (s : Sync R S (Watched R W)) (r : R) (n : ℕ)
      → Holds (records xs) s
      → Holds (records (xs ++ (r, n) ∷ [])) (buffered s r n)
  buffered-Holds xs s r n h f =
      ap (λ l. s.thread.writer.log ++ l)
        (sym (append_assoc (concat s.thread.queued) s.thread.buffer (r ∷ [])))
      ∙ sym (append_assoc s.thread.writer.log (concat s.thread.queued ++ s.thread.buffer) (r ∷ []))
      ∙ ap (λ l. l ++ r ∷ []) (h f)
      ∙ sym (records-snoc xs r n)

  abbrev Delivers : Life R S (Watched R W) → Type 0
  Delivers l = Holds (records l.accepted) l.sync

  push-Delivers :
      (l : Life R S (Watched R W)) (done : Bool) (r : R) (n : ℕ)
      → Delivers l
      → Delivers (accept r n l (push (watch Wr) done l.sync r n))
  unfolding push
  push-Delivers l true r n h = h
  push-Delivers l false r n h =
      if-elim (λ x. Delivers (accept r n l x)) l.sync.thread.failed
        (run_queued (watch Wr) l.sync, false) (flush_if_full (watch Wr) (buffered l.sync r n), true)
        (λ bad. run_queued-Holds (records l.accepted) l.sync h)
        (λ good.
          flush_if_full-Holds (records (l.accepted ++ (r, n) ∷ [])) (buffered l.sync r n)
            (buffered-Holds l.accepted l.sync r n h))

  step-Delivers :
      (l : Life R S (Watched R W)) (e : Event R) → Delivers l → Delivers (step (watch Wr) l e)
  unfolding step
  step-Delivers l (pushes done r n) h = push-Delivers l done r n h
  step-Delivers l flushes_end h = run_queued-Holds (records l.accepted) l.sync h
  step-Delivers l (others_count d) h = h

  live-Delivers :
      (l : Life R S (Watched R W)) (es : List (Event R))
      → Delivers l
      → Delivers (live (watch Wr) l es)
  unfolding live
  live-Delivers l [] h = h
  live-Delivers l (e ∷ es) h = live-Delivers (step (watch Wr) l e) es (step-Delivers l e h)

  -- After the last flush
  log-last :
      (a : List R) (s : Sync R S (Watched R W))
      → Holds a s
      → (run_queued (watch Wr) (add_flush (watch Wr) s s.thread.buffer)).thread.failed ≡ false
      → (run_queued (watch Wr) (add_flush (watch Wr) s s.thread.buffer)).thread.writer.log ≡ a
  unfolding add_flush
  log-last a s h f =
      let q = run_queued (watch Wr) s in
      let t = record q { thread = record (q.thread) { queued = s.thread.buffer ∷ [] } } in
      log-run t f
      ∙ ap (λ l. l ++ (s.thread.buffer ++ [])) (log-run s (failed-run t f))
      ∙ ap (λ l. (s.thread.writer.log ++ concat s.thread.queued) ++ l) (append_nil s.thread.buffer)
      ∙ append_assoc s.thread.writer.log (concat s.thread.queued) s.thread.buffer
      ∙ h (failed-run s (failed-run t f))

  begun :
      (s : Sync R S (Watched R W))
      → IsNew s.thread
      → s.thread.writer.log ≡ []
      → s.thread.writer.log ++ (concat s.thread.queued ++ s.thread.buffer) ≡ []
  begun s fresh unlogged = rw (unlogged, fresh.nothing_queued, fresh.no_buffer) refl

  log-closed :
      (s : Sync R S (Watched R W)) (a : List R) (r : W × Bool)
      → (s.thread.failed ≡ false → s.thread.writer.log ≡ a)
      → (closed (watch Wr) s (pass_on s.thread.writer r)).1 ≡ true
      → (closed (watch Wr) s (pass_on s.thread.writer r)).0.thread.writer.log ≡ a
  unfolding closed pass_on
  log-closed s a (w, ok) h c = h (ground arith)

  -- A new thread, whatever its destination does: after any pushes, ends of flushes and counts of other threads, if
  -- Close on a live context returns no error, then the batches whose write succeeded were made of exactly the records
  -- whose Push returned no error, each as often as it was pushed and in the order of the pushes, and the records that
  -- Write was called with for these batches are those that FlattenAndCleanData gave of them, in its order.
  pub close_delivers :
      (s : Sync R S (Watched R W)) (es : List (Event R)) (d : D)
      → IsNew s.thread
      → s.thread.writer.log ≡ []
      → s.thread.writer.sent ≡ s.thread.writer.due
      → (close (watch Wr) false (live (watch Wr) (begin s) es).sync d).1 ≡ true
      → ((close (watch Wr) false (live (watch Wr) (begin s) es).sync d).0.thread.writer.log
          ≡ records (live (watch Wr) (begin s) es).accepted)
        × ((close (watch Wr) false (live (watch Wr) (begin s) es).sync d).0.thread.writer.sent
            ≡ (close (watch Wr) false (live (watch Wr) (begin s) es).sync d).0.thread.writer.due)
  unfolding close watch
  close_delivers s es d fresh unlogged unsent c =
      let l = live (watch Wr) (begin s) es in
      let q = run_queued (watch Wr) (add_flush (watch Wr) l.sync l.sync.thread.buffer) in
      (
        log-closed q (records l.accepted) (Wr.close_writer q.thread.writer.inner q.thread.failed d)
            (log-last (records l.accepted) l.sync
              (live-Delivers (begin s) es (λ f. begun s fresh unlogged)))
            c,
        closed-AllSent Wr q (Wr.close_writer q.thread.writer.inner q.thread.failed d) (
            run_queued-AllSent Wr (add_flush (watch Wr) l.sync l.sync.thread.buffer) (
              add_flush-AllSent Wr l.sync l.sync.thread.buffer
                (live-AllSent Wr (begin s) es unsent))),
      )
