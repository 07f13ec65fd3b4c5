-- ===== src/Destination/Writers/Delivery.antt =====
-- destination/writers.go: what a thread accepts reaches the destination, once and in order. A destination
-- is watched by one that does the same and logs, of each batch that it has written, the records that were to be flattened,
-- those that flattening gave, and those that Write was called with.
use olake.Base.{
  ℕ, ◌+◌, ◌≡◌, refl, sym, ap, ap₂, ◌∙◌, subst, Bool, true, false, not, ◌&&◌, Option, none, some,
  List, [], ◌∷◌, ◌++◌, arith, if◌then◌else◌, append_assoc, append_nil, length, Bool-cases, inl, inr,
  is_nil,
}
use olake.Destination.Writers.{
  sub64, Writer, Stats, WriterThread, Sync, set_writer, fail, count_filtered, written, evolved,
  flattened, flush, run_all, run_queued, add_flush, is_full, buffered, emptied, flush_if_full, push,
  closed, closed_aborted, leave, close, rollback_stats,
}
pub mod Sent
pub mod Once

pub record Watched (R W : Type 0) : Type 0 where
  pub inner : W
  pub batch : List R
  pub cleaned : List R
  pub log : List R
  pub due : List R
  pub sent : List R

module _ {R W : Type 0} where
  unfoldable pub note_batch :
      {T : Type 0}
      → Watched R W
      → List R
      → W × Option (Bool × List R × T)
      → Watched R W × Option (Bool × List R × T)
  note_batch l buf (w, none) = (record l { inner = w; batch = buf; cleaned = [] }, none)
  note_batch l buf (w, some (evolution, rest, t)) =
      (record l { inner = w; batch = buf; cleaned = rest }, some (evolution, rest, t))

  unfoldable pub pass_on : {A : Type 0} → Watched R W → W × A → Watched R W × A
  pass_on l (w, o) = (record l { inner = w }, o)

  unfoldable pub note_write : Watched R W → List R → W × Bool → Watched R W × Bool
  note_write l rest (w, true) = (
    record l { inner = w; log = l.log ++ l.batch; due = l.due ++ l.cleaned; sent = l.sent ++ rest },
    true,
  )
  note_write l rest (w, false) = (record l { inner = w }, false)

module _ {R S T D W : Type 0} where
  unfoldable pub watch : Writer R S T D W → Writer R S T D (Watched R W)
  watch Wr = record {
    flatten_and_clean_data = λ l buf. note_batch l buf (Wr.flatten_and_clean_data l.inner buf);
    evolve_schema = λ l schema t. pass_on l (Wr.evolve_schema l.inner schema t);
    write = λ l rest. note_write l rest (Wr.write l.inner rest);
    close_writer = λ l done d. pass_on l (Wr.close_writer l.inner done d);
  }

abbrev pub concat : {R : Type 0} → List (List R) → List R
concat [] = []
concat (b ∷ bs) = b ++ concat bs

-- What a flush of `buf` does to the thread
pub record Flushed {R S W : Type 0} (buf : List R) (s t : Sync R S (Watched R W)) : Type 0 where
  pub queued_same : t.thread.queued ≡ s.thread.queued
  pub buffer_same : t.thread.buffer ≡ s.thread.buffer
  pub sound : t.thread.failed ≡ false → s.thread.failed ≡ false
  pub logged : t.thread.failed ≡ false → t.thread.writer.log ≡ s.thread.writer.log ++ buf
  pub all_sent :
      s.thread.writer.sent ≡ s.thread.writer.due → t.thread.writer.sent ≡ t.thread.writer.due

module _ {R S T D W : Type 0} (Wr : Writer R S T D W) where
  -- Before a write, the batch is noted.
  record Noted (buf rest : List R) (s t : Sync R S (Watched R W)) (l : Watched R W) : Type 0 where
    pub queued_same : t.thread.queued ≡ s.thread.queued
    pub buffer_same : t.thread.buffer ≡ s.thread.buffer
    pub failed_same : t.thread.failed ≡ s.thread.failed
    pub log_same : l.log ≡ s.thread.writer.log
    pub batch_noted : l.batch ≡ buf
    pub cleaned_noted : l.cleaned ≡ rest
    pub due_same : l.due ≡ s.thread.writer.due
    pub sent_same : l.sent ≡ s.thread.writer.sent

  written-Flushed :
      (buf rest : List R) (s t : Sync R S (Watched R W)) (l : Watched R W) (r : W × Bool)
      → Noted buf rest s t l
      → Flushed buf s (written (watch Wr) t (note_write l rest r))
  unfolding written note_write
  written-Flushed buf rest s t l (w, true) h = record {
    queued_same = h.queued_same;
    buffer_same = h.buffer_same;
    sound = λ f. sym h.failed_same ∙ f;
    logged =
        λ f. ap (λ x. x ++ l.batch) h.log_same ∙ ap (λ x. s.thread.writer.log ++ x) h.batch_noted;
    all_sent = λ e. ap₂ (λ x y. x ++ y) (h.sent_same ∙ e ∙ sym h.due_same) (sym h.cleaned_noted);
  }
  written-Flushed buf rest s t l (w, false) h = ground arith

  evolved-Flushed :
      (buf rest : List R) (s t : Sync R S (Watched R W)) (l : Watched R W)
      (r : W × Option (Option S))
      → Noted buf rest s t l
      → Flushed buf s (evolved (watch Wr) rest t (pass_on l r))
  unfolding evolved pass_on watch
  evolved-Flushed buf rest s t l (w, none) h = ground arith
  evolved-Flushed buf rest s t l (w, some none) h =
      written-Flushed buf rest s t (record l { inner = w }) (Wr.write w rest) (ground arith)
  evolved-Flushed buf rest s t l (w, some (some schema)) h =
      written-Flushed buf rest s (record t { schema = some schema }) (record l { inner = w })
        (Wr.write w rest) (ground arith)

  flattened-Flushed :
      (buf : List R) (s : Sync R S (Watched R W)) (r : W × Option (Bool × List R × T))
      → Flushed buf s (flattened (watch Wr) buf s (note_batch s.thread.writer buf r))
  unfolding flattened note_batch watch
  flattened-Flushed buf s (w, none) = ground arith
  flattened-Flushed buf s (w, some (true, rest, t)) =
      evolved-Flushed buf rest s (count_filtered (sub64 (length buf) (length rest)) s)
        (record (s.thread.writer) { inner = w; batch = buf; cleaned = rest })
        (Wr.evolve_schema w s.schema t) (ground arith)
  flattened-Flushed buf s (w, some (false, rest, t)) =
      written-Flushed buf rest s (count_filtered (sub64 (length buf) (length rest)) s)
        (record (s.thread.writer) { inner = w; batch = buf; cleaned = rest }) (Wr.write w rest)
        (ground arith)

  flush-Flushed :
      (buf : List R) (s : Sync R S (Watched R W)) → Flushed buf s (flush (watch Wr) s buf)
  unfolding flush watch
  flush-Flushed [] s = record {
    queued_same = refl;
    buffer_same = refl;
    sound = λ f. f;
    logged = λ f. sym (append_nil s.thread.writer.log);
    all_sent = λ e. e;
  }
  flush-Flushed (x ∷ buf) s =
      flattened-Flushed (x ∷ buf) s (Wr.flatten_and_clean_data s.thread.writer.inner (x ∷ buf))

  pub run_all-Flushed :
      (bufs : List (List R)) (s : Sync R S (Watched R W))
      → Flushed (concat bufs) s (run_all (watch Wr) s bufs)
  unfolding run_all
  run_all-Flushed [] s = flush-Flushed [] s
  run_all-Flushed (buf ∷ bufs) s =
      let a = flush-Flushed buf s in
      let b = run_all-Flushed bufs (flush (watch Wr) s buf) in
      record {
        queued_same = b.queued_same ∙ a.queued_same;
        buffer_same = b.buffer_same ∙ a.buffer_same;
        sound = λ f. a.sound (b.sound f);
        logged = λ f.
            b.logged f
            ∙ ap (λ x. x ++ concat bufs) (a.logged (b.sound f))
            ∙ append_assoc s.thread.writer.log buf (concat bufs);
        all_sent = λ e. b.all_sent (a.all_sent e);
      }
