-- ===== src/Tests/Parquets.antt =====
-- Two-phase commits: destination/parquet/parquet_2pc.go.
use olake.Base.{
  ℕ, String, ◌≡◌, refl, true, false, Option, none, some, List, [], ◌∷◌, ◌==◌, string_eq, elem, any,
  Distinct,
}
use olake.Base.Assoc.{lookup, keys}
use olake.Utils.Path.{has_prefix, trim_prefix, trim_slashes, join}
use olake.Destination.Parquet.Metadata.{MetadataState, Json, with_committed_id, no_metadata}
use olake.Destination.Parquet.Keys.{Parquet, metadata_object_key, final_key, is_skipped}
use olake.Destination.Parquet.ObjectStore.{Fate, done, lost, refused, World, world}
use olake.Destination.Parquet.TwoPhase.{finalize_backfill_staging, recover_entry}
use olake.Destination.Parquet.TwoPhase.Staging.{staged_keys}
use olake.Destination.Parquet.TwoPhase.Crash.{after_attempts, roll_forward, roll_back}

data Body : Type 0 where
  file : ℕ → Body
  metadata : MetadataState ℕ → Body
  finish : String → Body

as_metadata : Body → Option (MetadataState ℕ)
as_metadata (metadata m) = some m
as_metadata _ = none

as_finish : Body → Option String
as_finish (finish t) = some t
as_finish _ = none

abbrev bodies : Json Body ℕ
bodies = record {
  marshal_metadata = metadata;
  unmarshal_metadata = as_metadata;
  marshal_backfill_finish = finish;
  unmarshal_backfill_finish = as_finish;
  parse_finish_state = λ b. none;
  json_object = λ v. none;
  marshal_object = λ es. none;
}

abbrev orders : Parquet
orders = record {
  config_prefix = "/lake";
  base_path = "db/orders";
  backfill = true;
  thread_id = "t1";
  hash_thread_id = λ t. t;
}

abbrev staging : String
staging = "lake/db/orders/_olake_2pc/t1/"

abbrev bucket : List (String × Body)
bucket =
    ("lake/db/orders/_olake_2pc/t1/a.parquet", file 1)
    ∷ ("lake/db/orders/_olake_2pc/t1/finish.json", finish "t1")
    ∷ ("lake/db/orders/old.parquet", file 2)
    ∷ []

-- The copy of the file is done, and the answer to its deletion lost; then a listing is refused.
abbrev bad_days : List (List Fate)
bad_days = (done ∷ done ∷ lost ∷ []) ∷ (refused ∷ []) ∷ []

reads_back : (m : MetadataState ℕ) → as_metadata (metadata m) ≡ some m
unfolding as_metadata
reads_back m = refl

bucket-Distinct : Distinct (keys bucket)
bucket-Distinct = (refl, (refl, (refl, tt)))

roll_forward_example :
    (t : World Body) × (finalize_backfill_staging bodies orders staging "t1"
        (world (after_attempts bodies orders staging "t1" bad_days bucket) [])
      ≡ (some tt, t))
    × ((k : String)
        → elem k (staged_keys staging bucket) ≡ true
        → lookup (final_key orders staging k) t.objects ≡ lookup k bucket)
    × ((k : String) → has_prefix k staging ≡ true → lookup k t.objects ≡ none)
    × (lookup (metadata_object_key orders) t.objects
        ≡ some (metadata (with_committed_id "t1" no_metadata)))
    × ((k : String)
        → has_prefix k staging ≡ false
        → (k == metadata_object_key orders) ≡ false
        → any (λ j. final_key orders staging j == k) (staged_keys staging bucket) ≡ false
        → lookup k t.objects ≡ lookup k bucket)
unfolding final_key metadata_object_key has_prefix is_skipped lookup as_metadata trim_prefix
    trim_slashes join
roll_forward_example =
    roll_forward bodies orders staging "t1" bucket none refl refl refl reads_back bad_days
      bucket-Distinct

roll_back_example :
    ((k : String)
      → has_prefix k staging ≡ false
      → lookup k
          (recover_entry bodies orders
            (record { prefix = staging; finished = false })
            (world bucket (done ∷ lost ∷ []))).1.objects
        ≡ lookup k bucket)
    × ((t : World Body) × (recover_entry bodies orders
            (record { prefix = staging; finished = false })
            (world bucket [])
          ≡ (some tt, t))
        × ((k : String) → has_prefix k staging ≡ true → lookup k t.objects ≡ none)
        × ((k : String) → has_prefix k staging ≡ false → lookup k t.objects ≡ lookup k bucket))
roll_back_example = roll_back bodies orders staging bucket (done ∷ lost ∷ [])
