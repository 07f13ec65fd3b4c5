-- ===== src/Destination/Parquet/TwoPhase/Crash.antt =====
-- destination/parquet/parquet_2pc.go: attempts to finalize that are cut short, and the one that is not.
use olake.Base.{
  String, ◌≡◌, refl, sym, ap, ◌∙◌, true, false, Option, none, some, List, [], ◌∷◌, arith, ◌==◌,
  string_eq, elem, any, Distinct, inl, inr, Bool-cases, false≢true, eq_iff,
}
use mathlib.Core.Option.{some-ne-none}
use olake.Base.Assoc.{lookup, keys, delete}
use olake.Base.Search.{elem-filterb, lookup_of_elem}
use olake.Utils.Path.{has_prefix}
use olake.Destination.Parquet.Metadata.{MetadataState, Json, with_committed_id}
use olake.Destination.Parquet.Keys.{Parquet, metadata_object_key, final_key}
use olake.Destination.Parquet.ObjectStore.{Fate, World, world, ◌>>◌}
use olake.Destination.Parquet.ObjectStore.Rules.{Post, Ensures, >>=-Ensures}
use olake.Destination.Parquet.TwoPhase.{
  finalize_backfill_staging, promote_s3_staging, delete_staging_prefix, commit_backfill_metadata,
  read_state, state_or_new, recover_entry,
}
use olake.Destination.Parquet.TwoPhase.Staging.{is_staged, staged_keys, moves_apart, unread_delete}
use olake.Destination.Parquet.TwoPhase.Deletion.{empties-Ensures}
use olake.Destination.Parquet.TwoPhase.Promote.{promote-Ensures}
use olake.Destination.Parquet.TwoPhase.RollForward.{
  Here, Moved, Committed, Finished, commit-Ensures, delete-staging-Ensures, checkpoint,
}

outside_differs :
    (prefix k j : String)
    → has_prefix k prefix ≡ true
    → has_prefix j prefix ≡ false
    → (k == j) ≡ false
outside_differs prefix k j t f = elim (Bool-cases (k == j)) [
  | inl q ↦ absurd (false≢true (sym f ∙ sym (ap (λ z. has_prefix z prefix) ((eq_iff k j).0 q)) ∙ t))
  | inr q ↦ q
]

module _ {B V : Type 0} (J : Json B V) (p : Parquet) (prefix thread_id : String) where
  -- Attempts one after the other, each with the fates of its calls, on what the one before left
  abbrev pub after_attempts : List (List Fate) → List (String × B) → List (String × B)
  after_attempts [] s = s
  after_attempts (fs ∷ fss) s =
      after_attempts fss (finalize_backfill_staging J p prefix thread_id (world s fs)).1.objects

  module _ (start : List (String × B)) (st : Option (MetadataState V))
      (apart : moves_apart p prefix (staged_keys prefix start) ≡ true)
      (outside : has_prefix (metadata_object_key p) prefix ≡ false)
      (readable : read_state J p (lookup (metadata_object_key p) start) ≡ some st)
      (reads_back : (m : MetadataState V)
        → J.unmarshal_metadata (J.marshal_metadata m) ≡ some m) where
    abbrev Before : List (String × B) → Type 0
    Before s = Here J p prefix thread_id start st apart outside readable reads_back s

    abbrev After : Unit {0} → List (String × B) → Type 0
    After u s = Finished J p prefix thread_id start st apart outside readable reads_back s

    finalize-Ensures : Ensures Before Before (finalize_backfill_staging J p prefix thread_id) After
    unfolding finalize_backfill_staging
    finalize-Ensures =
        >>=-Ensures Before Before (promote_s3_staging J p prefix)
          (λ _ s. Moved J p prefix thread_id start st apart outside readable reads_back s)
          (λ _. commit_backfill_metadata J p thread_id >> delete_staging_prefix J p prefix) After
          (promote-Ensures J p prefix start
            (checkpoint J p prefix thread_id start st apart outside readable reads_back) apart
            outside)
          (λ _.
            >>=-Ensures Before _ (commit_backfill_metadata J p thread_id)
              (λ _ s. Committed J p prefix thread_id start st apart outside readable reads_back s)
              (λ _. delete_staging_prefix J p prefix) After
              (commit-Ensures J p prefix thread_id start st apart outside readable reads_back)
              (λ _.
                delete-staging-Ensures J p prefix thread_id start st apart outside readable
                  reads_back))

    starts : Distinct (keys start) → Before start
    starts d = record {
      distinct = d;
      inside = λ k t. inr refl;
      moved = λ k f n.
          let (b, e) =
            lookup_of_elem k start
              (ground (arith, elem-filterb (is_staged prefix) k (keys start))) in
          absurd (some-ne-none b (sym e ∙ n));
      at_metadata = inl refl;
      elsewhere = λ k f ne free. refl;
    }

    untouched_yet :
        (fs : List Fate) (r : Option (Unit {0}) × World B)
        → Post Before After fs r
        → Before r.1.objects
    untouched_yet fs (none, w) h = h.1
    untouched_yet fs (some u, w) h = h.1.0.moving

    after_attempts-Before :
        (fss : List (List Fate)) (s : List (String × B)) → Before s → Before (after_attempts fss s)
    after_attempts-Before [] s h = h
    after_attempts-Before (fs ∷ fss) s h = after_attempts-Before fss _ (
        untouched_yet fs (finalize_backfill_staging J p prefix thread_id (world s fs))
          (finalize-Ensures (world s fs) h))

    succeeded :
        (r : Option (Unit {0}) × World B)
        → Post Before After [] r
        → (t : World B) × (r ≡ (some tt, t)) × After tt t.objects
    succeeded (none, w) h = absurd (ground arith)
    succeeded (some u, w) h = (w, refl, h.1)

    -- The data files of a committed chunk are staged, their places in the table are outside the staging and
    -- apart, the metadata can be read, and what is written of it reads back. However many attempts of
    -- finalizeBackfillStaging stop early, with any S3 calls refused or their answers lost, the next one whose
    -- calls are done succeeds. Then each data file is at its place in the table, the staging is
    -- empty, the metadata is the old one with the thread among the committed ones, and every other object is as
    -- it was.
    pub roll_forward :
        (fss : List (List Fate))
        → Distinct (keys start)
        → (t : World B) × (finalize_backfill_staging J p prefix thread_id
              (world (after_attempts fss start) [])
            ≡ (some tt, t))
          × ((k : String)
              → elem k (staged_keys prefix start) ≡ true
              → lookup (final_key p prefix k) t.objects ≡ lookup k start)
          × ((k : String) → has_prefix k prefix ≡ true → lookup k t.objects ≡ none)
          × (lookup (metadata_object_key p) t.objects
              ≡ some (J.marshal_metadata (with_committed_id thread_id (state_or_new J p st))))
          × ((k : String)
              → has_prefix k prefix ≡ false
              → (k == metadata_object_key p) ≡ false
              → any (λ j. final_key p prefix j == k) (staged_keys prefix start) ≡ false
              → lookup k t.objects ≡ lookup k start)
    roll_forward fss d =
        let (t, e, h) = succeeded _ (
          finalize-Ensures (world (after_attempts fss start) [])
            (after_attempts-Before fss start (starts d))) in
        (
          t,
          e,
          λ k f. h.0.moving.moved k f (h.0.all_moved k f),
          h.1,
          h.0.committed,
          h.0.moving.elsewhere,
        )

-- Of a chunk that was not committed
module _ {B V : Type 0} (J : Json B V) (p : Parquet) (prefix : String)
    (start : List (String × B)) where
  abbrev Outside : List (String × B) → Type 0
  Outside s = (k : String) → has_prefix k prefix ≡ false → lookup k s ≡ lookup k start

  others_stay :
      (k : String) (s : List (String × B))
      → has_prefix k prefix ≡ true
      → Outside s
      → Outside (delete k s)
  others_stay k s t o j f = unread_delete k j s (outside_differs prefix k j t f) ∙ o j f

  -- What a recovery does with an entry that has no finish.json: whatever the fates of its calls, every
  -- object outside the staging is as it was, and if no call fails, the recovery succeeds and the staging is empty.
  pub roll_back :
      (fs : List Fate)
      → ((k : String)
          → has_prefix k prefix ≡ false
          → lookup k
              (recover_entry J p
                (record { prefix = prefix; finished = false })
                (world start fs)).1.objects
            ≡ lookup k start)
        × ((t : World B) × (recover_entry J p
                (record { prefix = prefix; finished = false })
                (world start [])
              ≡ (some tt, t))
            × ((k : String) → has_prefix k prefix ≡ true → lookup k t.objects ≡ none)
            × ((k : String) → has_prefix k prefix ≡ false → lookup k t.objects ≡ lookup k start))
  unfolding recover_entry
  roll_back fs = (
    whatever fs (delete_staging_prefix J p prefix (world start fs))
        (empties-Ensures J p prefix Outside others_stay (world start fs) (λ k f. refl)),
    done_all (delete_staging_prefix J p prefix (world start []))
        (empties-Ensures J p prefix Outside others_stay (world start []) (λ k f. refl)),
  )
    where
      Empty : Unit {0} → List (String × B) → Type 0
      Empty u s = Outside s × ((k : String) → has_prefix k prefix ≡ true → lookup k s ≡ none)

      whatever :
          (fs : List Fate) (r : Option (Unit {0}) × World B)
          → Post Outside Empty fs r
          → Outside r.1.objects
      whatever fs (none, w) h = h.1
      whatever fs (some u, w) h = h.1.0

      done_all :
          (r : Option (Unit {0}) × World B)
          → Post Outside Empty [] r
          → (t : World B) × (r ≡ (some tt, t))
            × ((k : String) → has_prefix k prefix ≡ true → lookup k t.objects ≡ none)
            × Outside t.objects
      done_all (none, w) h = absurd (ground arith)
      done_all (some u, w) h = (w, refl, h.1.1, h.1.0)
