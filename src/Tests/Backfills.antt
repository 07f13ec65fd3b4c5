-- ===== src/Tests/Backfills.antt =====
-- drivers/abstract/backfill.go.
use olake.Base.{
  String, ◌≡◌, refl, true, false, some, List, [], ◌∷◌, ◌==◌, string_eq, nat_eq, elem, length, All,
}
use olake.Types.Set.{len, new_set, insert_all, insert_one, exists, empty, hash_with}
use olake.Types.Set.Invariant.{new_set-IsWf}
use olake.Types.State.{chunks, chunks_key, store, load, stream_type, has_completed_backfill}
use olake.Types.State.Reads.{load-store}
use olake.Drivers.Abstract.Backfill.{
  Site, Job, no_writer, read_fails, close_answer_lost, nothing_fails, with_retries, run_jobs,
}
use olake.Drivers.Abstract.Backfill.Once.{occurrences, gets_through}
use olake.Drivers.Abstract.Backfill.Retries.{Ends, has_succeeded, with_retries-Ends}
use olake.Drivers.Abstract.Backfill.Whole.{threads, job_chunks, backfill_once}
use olake.Tests.Sets.{text_hashing, two_texts}
use olake.Tests.States.{orders, blank}

abbrev site : Site String String
site = record {
  state = store (blank stream_type) orders chunks_key (chunks two_texts);
  committed = [];
  table = [];
  backfilled = [];
}

site-load : load site.state orders chunks_key ≡ some (chunks two_texts)
site-load = load-store (blank stream_type) orders orders chunks_key chunks_key (chunks two_texts)

abbrev jobs : List (Job String)
jobs =
    record {
      chunk = "b";
      thread = "t2";
      troubles = close_answer_lost ∷ no_writer ∷ nothing_fails ∷ [];
    }
    ∷ record { chunk = "a"; thread = "t1"; troubles = read_fails ∷ nothing_fails ∷ [] }
    ∷ []

with_retries-Ends_example :
    Ends text_hashing orders "a" "t1" two_texts site
      (with_retries text_hashing orders "a" "t1" (close_answer_lost ∷ nothing_fails ∷ []) site)
    × (gets_through (close_answer_lost ∷ nothing_fails ∷ []) ≡ true
        → has_succeeded text_hashing orders "a" "t1" two_texts (
            with_retries text_hashing orders "a" "t1" (close_answer_lost ∷ nothing_fails ∷ []) site)
          ≡ true)
with_retries-Ends_example =
    with_retries-Ends text_hashing orders "a" "t1" two_texts
      (close_answer_lost ∷ nothing_fails ∷ []) site site-load (λ t. refl)

backfill_once_example :
    (s' : Site String String) × (run_jobs text_hashing orders jobs site ≡ some s')
    × All (λ t. occurrences t s'.table ≡ 1) (threads jobs)
    × ((t : String)
        → elem t (threads jobs) ≡ false
        → occurrences t s'.table ≡ occurrences t site.table)
    × (has_completed_backfill text_hashing s'.state orders
        ≡ (len two_texts == length (job_chunks jobs)))
unfolding new_set insert_all insert_one exists empty hash_with store gets_through
backfill_once_example =
    backfill_once text_hashing orders text_hashing site two_texts jobs site-load (λ t. refl) refl
      (new_set-IsWf text_hashing ("a" ∷ "b" ∷ [])) (refl, (refl, tt)) refl (refl, (refl, tt))
      (refl, (refl, tt))
