-- ===== src/Drivers/Abstract/Backfill/Retries.antt =====
-- drivers/abstract/backfill.go: whatever fails in the attempts at a chunk, it is loaded once, and leaves
-- the state when it is.
use olake.Base.{
  false≢true, String, ◌≡◌, refl, sym, ap, ◌∙◌, subst, Bool, true, false, some, List, [], ◌∷◌, ◌++◌,
  arith, if◌then◌else◌, ◌==◌, string_eq, nat_eq, elem, Bool-cases, inl, inr,
}
use olake.Types.Set.{Hashing, Set, len, remove}
use olake.Types.Configured.{ConfiguredStream, stream_id}
use olake.Types.State.{State, chunks, chunks_key, removed, remove_chunk, load}
use olake.Types.State.Chunks.{remove_chunk-Removes, Removes}
use olake.Drivers.Abstract.Backfill.{
  Trouble, Site, Attempt, attempt_panics, attempt_fails, attempt_stops, attempt_succeeds, Ending,
  with_error, context_done, well, load_rows, skip_rows, signal, finish_chunk, chunk_processor,
  with_retries, try_again,
}
use olake.Drivers.Abstract.Backfill.Once.{
  occurrences, is_fine, is_cancelled, gets_through, is_well, is_cut_off, IsSound, Loads,
  load_rows-Loads, skip_rows-Loads,
}

module _ {C V F : Type 0} (HC : Hashing C) (stream : ConfiguredStream F) (chunk : C)
    (thread : String) (c : Set C) where
  pub record Failed (s s' : Site C V) : Type 0 where
    pub sound : IsSound s'
    pub others :
        (t : String) → (thread == t) ≡ false → occurrences t s'.table ≡ occurrences t s.table
    pub state_same : s'.state ≡ s.state
    pub backfilled_same : s'.backfilled ≡ s.backfilled

  pub record Succeeded (s s' : Site C V) : Type 0 where
    pub sound : IsSound s'
    pub others :
        (t : String) → (thread == t) ≡ false → occurrences t s'.table ≡ occurrences t s.table
    pub once : occurrences thread s'.table ≡ 1
    pub taken :
        remove_chunk HC s.state stream chunk ≡ removed s'.state (some (len (remove HC c chunk)))
    pub taken_out : Removes HC s.state stream (remove HC c chunk) s'.state
    pub told : s'.backfilled ≡ (
        if len (remove HC c chunk) == 0
        then s.backfilled ++ stream_id stream ∷ []
        else s.backfilled)

  -- An attempt never panics, and either fails or succeeds.
  abbrev pub Ends : Site C V → Attempt C V → Type 0
  Ends s attempt_panics = ⊥
  Ends s (attempt_fails s') = Failed s s'
  Ends s (attempt_stops s') = Failed s s'
  Ends s (attempt_succeeds s') = Succeeded s s'

  abbrev pub has_succeeded : Attempt C V → Bool
  has_succeeded (attempt_succeeds s) = true
  has_succeeded _ = false

  abbrev has_stopped : Attempt C V → Bool
  has_stopped (attempt_stops s) = true
  has_stopped _ = false

  unsaved : (s s' : Site C V) (end : Ending) → Loads thread s (s', end) → Failed s s'
  unsaved s s' end h = record {
    sound = h.sound;
    others = h.others;
    state_same = h.state_same;
    backfilled_same = h.backfilled_same;
  }

  finish-Ends :
      (s : Site C V) (r : Site C V × Ending)
      → load s.state stream chunks_key ≡ some (chunks c)
      → Loads thread s r
      → Ends s (finish_chunk HC stream chunk r)
        × (has_succeeded (finish_chunk HC stream chunk r) ≡ is_well r.1)
        × (has_stopped (finish_chunk HC stream chunk r) ≡ is_cut_off r.1)
  unfolding finish_chunk signal
  finish-Ends s (s', with_error) stored h = (unsaved s s' with_error h, refl, refl)
  finish-Ends s (s', context_done) stored h = (unsaved s s' context_done h, refl, refl)
  finish-Ends s (s', well) stored h =
      let (st, e, out) =
        remove_chunk-Removes HC s'.state stream c chunk
          (ap (λ x. load x stream chunks_key) h.state_same ∙ stored) in
      rw (e, finish_chunk) (succeeded s s' st h e out, refl, refl)
    where
      succeeded :
          (s s' : Site C V) (st : State C V)
          → Loads thread s (s', well)
          → remove_chunk HC s'.state stream chunk ≡ removed st (some (len (remove HC c chunk)))
          → Removes HC s'.state stream (remove HC c chunk) st
          → Succeeded s
              (signal HC stream (some (len (remove HC c chunk))) (record s' { state = st }))
      succeeded s s' st h q out =
          let taken = ap (λ x. remove_chunk HC x stream chunk) (sym h.state_same) ∙ q in
          let last = len (remove HC c chunk) == 0 in
          let out' = subst (λ x. Removes HC x stream (remove HC c chunk) st) h.state_same out in
          let here : occurrences thread s'.table ≡ 1 =
            ground (arith, h.sound thread, h.done refl) in
          elim (Bool-cases last) [
            | inl e ↦ rw e (record {
              sound = h.sound;
              others = h.others;
              once = here;
              taken = taken;
              taken_out = out';
              told = rw e (ap (λ x. x ++ stream_id stream ∷ []) h.backfilled_same);
            })
            | inr e ↦ rw e (record {
              sound = h.sound;
              others = h.others;
              once = here;
              taken = taken;
              taken_out = out';
              told = rw e h.backfilled_same;
            })
          ]

  chunk_processor-Ends :
      (trouble : Trouble) (s : Site C V)
      → load s.state stream chunks_key ≡ some (chunks c)
      → IsSound s
      → Ends s (chunk_processor HC stream chunk thread trouble s)
        × (is_fine trouble ≡ true
            → has_succeeded (chunk_processor HC stream chunk thread trouble s) ≡ true)
        × (is_cancelled trouble ≡ false
            → has_stopped (chunk_processor HC stream chunk thread trouble s) ≡ false)
  unfolding chunk_processor
  chunk_processor-Ends trouble s stored h = elim (Bool-cases (elem thread s.committed)) [
    | inl old ↦
        let (e, b, d) =
          finish-Ends s (skip_rows trouble s) stored (skip_rows-Loads trouble thread s h old) in
        rw old (e, λ fine. b ∙ fine_skips trouble fine s, λ on. d ∙ skips_on trouble on s)
    | inr new ↦
        let (e, b, d) =
          finish-Ends s (load_rows trouble thread s) stored
            (load_rows-Loads trouble thread s h new) in
        rw new (e, λ fine. b ∙ fine_loads trouble fine s, λ on. d ∙ loads_on trouble on s)
  ]
    where
      fine_skips :
          (trouble : Trouble)
          → is_fine trouble ≡ true
          → (s : Site C V) → is_well (skip_rows trouble s).1 ≡ true
      fine_skips trouble f s = ground arith

      fine_loads :
          (trouble : Trouble)
          → is_fine trouble ≡ true
          → (s : Site C V) → is_well (load_rows trouble thread s).1 ≡ true
      fine_loads trouble f s = ground arith

      skips_on :
          (trouble : Trouble)
          → is_cancelled trouble ≡ false
          → (s : Site C V) → is_cut_off (skip_rows trouble s).1 ≡ false
      skips_on trouble f s = ground arith

      loads_on :
          (trouble : Trouble)
          → is_cancelled trouble ≡ false
          → (s : Site C V) → is_cut_off (load_rows trouble thread s).1 ≡ false
      loads_on trouble f s = ground arith

  after_failure : (s s' s'' : Site C V) → Failed s s' → Failed s' s'' → Failed s s''
  after_failure s s' s'' a b = record {
    sound = b.sound;
    others = λ t ne. b.others t ne ∙ a.others t ne;
    state_same = b.state_same ∙ a.state_same;
    backfilled_same = b.backfilled_same ∙ a.backfilled_same;
  }

  then_success : (s s' s'' : Site C V) → Failed s s' → Succeeded s' s'' → Succeeded s s''
  then_success s s' s'' a b = record {
    sound = b.sound;
    others = λ t ne. b.others t ne ∙ a.others t ne;
    once = b.once;
    taken = ap (λ x. remove_chunk HC x stream chunk) (sym a.state_same) ∙ b.taken;
    taken_out =
        subst (λ x. Removes HC x stream (remove HC c chunk) s''.state) a.state_same b.taken_out;
    told =
        b.told
        ∙ ap (λ x. if len (remove HC c chunk) == 0 then x ++ stream_id stream ∷ [] else x)
            a.backfilled_same;
  }

  after-Ends : (s s' : Site C V) (r : Attempt C V) → Failed s s' → Ends s' r → Ends s r
  after-Ends s s' attempt_panics a b = b
  after-Ends s s' (attempt_fails t) a b = after_failure s s' t a b
  after-Ends s s' (attempt_stops t) a b = after_failure s s' t a b
  after-Ends s s' (attempt_succeeds t) a b = then_success s s' t a b

  try_again-Ends :
      (s : Site C V) (again : Site C V → Attempt C V) (r : Attempt C V)
      → Ends s r
      → ((s' : Site C V) → Failed s s' → Ends s' (again s'))
      → Ends s (try_again again r)
  unfolding try_again
  try_again-Ends s again attempt_panics e k = e
  try_again-Ends s again (attempt_fails s') e k = after-Ends s s' (again s') e (k s' e)
  try_again-Ends s again (attempt_stops s') e k = e
  try_again-Ends s again (attempt_succeeds s') e k = e

  first_try :
      (again : Site C V → Attempt C V) (r : Attempt C V)
      → has_succeeded r ≡ true
      → has_succeeded (try_again again r) ≡ true
  unfolding try_again
  first_try again attempt_panics h = cc
  first_try again (attempt_fails s) h = cc
  first_try again (attempt_stops s) h = cc
  first_try again (attempt_succeeds s) h = refl

  later_try :
      (s : Site C V) (again : Site C V → Attempt C V) (r : Attempt C V)
      → Ends s r
      → has_stopped r ≡ false
      → ((s' : Site C V) → Failed s s' → has_succeeded (again s') ≡ true)
      → has_succeeded (try_again again r) ≡ true
  unfolding try_again
  later_try s again attempt_panics e on k = absurd e
  later_try s again (attempt_fails s') e on k = k s' e
  later_try s again (attempt_stops s') e on k = absurd (false≢true (sym on))
  later_try s again (attempt_succeeds s') e on k = refl

  -- A stored chunk of a sound site, tried with whatever trouble in each attempt: nothing panics, the
  -- site stays sound, and the rows of other threads stay. If all attempts fail, or the group's context is done in one of
  -- them, the state and the signals are as they were. If one succeeds, the chunk's rows are in the table exactly once,
  -- the chunk is out of the state, and the stream is told to be backfilled exactly if no chunk is left. One does succeed
  -- where there is an attempt in which nothing fails, and the group's context is not cancelled before it.
  pub with_retries-Ends :
      (ts : List Trouble) (s : Site C V)
      → load s.state stream chunks_key ≡ some (chunks c)
      → IsSound s
      → Ends s (with_retries HC stream chunk thread ts s)
        × (gets_through ts ≡ true → has_succeeded (with_retries HC stream chunk thread ts s) ≡ true)
  unfolding with_retries gets_through
  with_retries-Ends [] s stored h = (
    record { sound = h; others = λ t ne. refl; state_same = refl; backfilled_same = refl },
    λ e. cc,
  )
  with_retries-Ends (t ∷ ts) s stored h =
      let (e, fine, on) = chunk_processor-Ends t s stored h in
      let again = λ (s' : Site C V) (f : Failed s s').
        with_retries-Ends ts s' (ap (λ x. load x stream chunks_key) f.state_same ∙ stored)
          f.sound in
      (
        try_again-Ends s _ (chunk_processor HC stream chunk thread t s) e (λ s' f. (again s' f).0),
        λ h. elim (Bool-cases (is_fine t)) [
          | inl now ↦ first_try _ (chunk_processor HC stream chunk thread t s) (fine now)
          | inr later ↦
              later_try s _ (chunk_processor HC stream chunk thread t s) e (on (ground arith))
                (λ s' f. (again s' f).1 (ground arith))
        ],
      )
