-- ===== src/Drivers/Abstract/Backfill/Whole.antt =====
-- drivers/abstract/backfill.go: all the chunks of a stream.
use olake.Base.{
  ℕ, String, ◌≡◌, refl, sym, ap, ◌∙◌, true, false, Option, some, List, [], ◌∷◌, map, arith, ◌==◌,
  string_eq, nat_eq, elem, all, Distinct, All, length, ==-refl,
}
use olake.Types.Set.{Hashing, Set, len, remove, exists, hash_of}
use olake.Types.Set.Invariant.{IsWf}
use olake.Types.Configured.{ConfiguredStream}
use olake.Types.State.{State, chunks, chunks_key, load, has_completed_backfill, global_type}
use olake.Types.State.Chunks.{remove_each, remove_each-cons, backfill_completes}
use mathlib.Core.Option.{some-injective}
use olake.Drivers.Abstract.Backfill.{
  Site, Attempt, attempt_panics, attempt_fails, attempt_stops, attempt_succeeds, Job, with_retries,
  run_jobs, succeeded_site,
}
use olake.Drivers.Abstract.Backfill.Once.{occurrences, gets_through, IsSound}
use olake.Drivers.Abstract.Backfill.Retries.{Succeeded, Ends, has_succeeded, with_retries-Ends}

abbrev pub threads : {C : Type 0} → List (Job C) → List String
threads [] = []
threads (j ∷ js) = j.thread ∷ threads js

abbrev pub job_chunks : {C : Type 0} → List (Job C) → List C
job_chunks [] = []
job_chunks (j ∷ js) = j.chunk ∷ job_chunks js

module _ {C V F : Type 0} (HC : Hashing C) (stream : ConfiguredStream F) where
  success_of :
      (s : Site C V) (j : Job C) (c : Set C) (r : Attempt C V)
      → Ends HC stream j.chunk j.thread c s r
      → has_succeeded HC stream j.chunk j.thread c r ≡ true
      → (s' : Site C V) × (succeeded_site r ≡ some s') × Succeeded HC stream j.chunk j.thread c s s'
  success_of s j c attempt_panics e h = absurd e
  success_of s j c (attempt_fails s') e h = absurd (ground arith)
  success_of s j c (attempt_stops s') e h = absurd (ground arith)
  success_of s j c (attempt_succeeds s') e h = (s', refl, e)

  run_jobs-cons :
      (j : Job C) (js : List (Job C)) (s s1 : Site C V)
      → succeeded_site (with_retries HC stream j.chunk j.thread j.troubles s) ≡ some s1
      → run_jobs HC stream (j ∷ js) s ≡ run_jobs HC stream js s1
  unfolding run_jobs
  run_jobs-cons j js s s1 e = rw (e, run_jobs) refl

  -- Where each job has an attempt in which nothing fails
  run_jobs_lem :
      (js : List (Job C)) (s : Site C V) (c : Set C)
      → load s.state stream chunks_key ≡ some (chunks c)
      → IsSound s
      → Distinct (threads js)
      → All (λ j. gets_through j.troubles ≡ true) js
      → (s' : Site C V) × (run_jobs HC stream js s ≡ some s')
        × IsSound s'
        × All (λ t. occurrences t s'.table ≡ 1) (threads js)
        × ((t : String)
            → elem t (threads js) ≡ false
            → occurrences t s'.table ≡ occurrences t s.table)
        × ((ns : List (Option ℕ)) × (remove_each HC s.state stream (job_chunks js)
              ≡ some (s'.state, ns)))
  unfolding run_jobs remove_each
  run_jobs_lem [] s c stored h d fine = (s, refl, h, tt, λ t n. refl, ([], refl))
  run_jobs_lem (j ∷ js) s c stored h d fine =
      let (ends, succeeds) = with_retries-Ends HC stream j.chunk j.thread c j.troubles s stored h in
      let (s1, e, w) =
        success_of s j c (with_retries HC stream j.chunk j.thread j.troubles s) ends
          (succeeds fine.0) in
      let stored1 : load s1.state stream chunks_key ≡ some (chunks (remove HC c j.chunk)) =
        w.taken_out.reads stream chunks_key
        ∙ ground (arith, ==-refl stream.stream.namespace, ==-refl stream.stream.name) in
      let (s2, r, h2, once, frame, (ns, same)) =
        run_jobs_lem js s1 (remove HC c j.chunk) stored1 w.sound d.1 fine.1 in
      (
        s2,
        run_jobs-cons j js s s1 e ∙ r,
        h2,
        (frame j.thread d.0 ∙ w.once, once),
        λ t n. frame t (ground arith) ∙ w.others t (ground arith),
        (
          some (len (remove HC c j.chunk)) ∷ ns,
          remove_each-cons HC s.state s1.state s2.state stream j.chunk (job_chunks js)
              (some (len (remove HC c j.chunk))) ns w.taken same,
        ),
      )

  -- In a sound site whose state is not GLOBAL, jobs for distinct chunks of the stream's stored set, with distinct
  -- threads, and for each job an attempt in which nothing fails, whatever fails in the attempts before it short of the
  -- cancellation of the group's context: all jobs succeed,
  -- the rows of each of their threads are in the table exactly once, those of every other thread are as
  -- they were, and HasCompletedBackfill holds afterwards exactly if the jobs are as many as the chunks.
  pub backfill_once :
      (HS : Hashing String) (s : Site C V) (c : Set C) (js : List (Job C))
      → load s.state stream chunks_key ≡ some (chunks c)
      → IsSound s
      → (s.state.type == global_type) ≡ false
      → IsWf HC c
      → Distinct (map (hash_of HC c) (job_chunks js))
      → all (exists HC c) (job_chunks js) ≡ true
      → Distinct (threads js)
      → All (λ j. gets_through j.troubles ≡ true) js
      → (s' : Site C V) × (run_jobs HC stream js s ≡ some s')
        × All (λ t. occurrences t s'.table ≡ 1) (threads js)
        × ((t : String)
            → elem t (threads js) ≡ false
            → occurrences t s'.table ≡ occurrences t s.table)
        × (has_completed_backfill HS s'.state stream ≡ (len c == length (job_chunks js)))
  backfill_once HS s c js stored h ty w apart there d fine =
      let (s', r, _, once, frame, (ns, same)) = run_jobs_lem js s c stored h d fine in
      let (t, e, done) =
        backfill_completes HC HS s.state stream c (job_chunks js) ty stored w apart there in
      (
        s',
        r,
        once,
        frame,
        ap (λ x. has_completed_backfill HS x stream) (same_state _ _ ns _ same e) ∙ done,
      )
    where
      same_state :
          (t u : State C V) (ns ms : List (Option ℕ))
          → remove_each HC s.state stream (job_chunks js) ≡ some (t, ns)
          → remove_each HC s.state stream (job_chunks js) ≡ some (u, ms)
          → t ≡ u
      same_state t u ns ms p q = ap (λ x. x.0) (some-injective _ _ (sym p ∙ q))
