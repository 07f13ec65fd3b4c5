-- ===== src/Destination/Parquet/TwoPhase.antt =====
-- destination/parquet/parquet_2pc.go, and Close of parquet.go on S3: data files are staged under a prefix
-- of `_olake_2pc`, the object finish.json is the commit, and then, or in the recovery of a later writer,
-- they are moved to the table, the checkpoint goes to metadata.json and the staging is deleted.
pub mod Staging
pub mod Deletion
pub mod Promote
pub mod RollForward
pub mod Crash
use olake.Base.{
  String, ◌≡◌, refl, Bool, true, false, not, Option, none, some, List, [], ◌∷◌, map, if◌then◌else◌,
  ◌==◌, string_eq, filterb, is_nil, elem, reverse,
}
use Prim.Native.String.{◌++◌ as append}
use olake.Utils.Text.{empty_text}
use olake.Destination.Parquet.Metadata.{
  MetadataState, no_metadata, Json, merge_stream_metadata_state, with_committed_id,
}
use olake.Destination.Parquet.Keys.{
  Parquet, StagingEntry, finish_file, staging_root_prefix, current_staging_prefix,
  staging_object_key, shared_finish_object_key, backfill_finish_object_key, metadata_object_key,
  final_key, is_skipped, group_keys,
}
use olake.Destination.Parquet.ObjectStore.{
  M, pure, fail, ◌>>=◌, ◌>>◌, list_s3_keys, copy_s3_object, delete_s3_object, write_s3_object,
  read_s3_object, delete_all, write_all,
}

-- An error where there is nothing
abbrev pub require : {B A : Type 0} → Option A → M B A
require none = fail
require (some a) = pure a

abbrev pub when : {B : Type 0} → Bool → M B (Unit {0}) → M B (Unit {0})
when true m = m
when false m = pure tt

module _ {B V : Type 0} (J : Json B V) (p : Parquet) where
  abbrev read_state : Option B → Option (Option (MetadataState V))
  read_state none = some none
  read_state (some body) = elim (J.unmarshal_metadata body) [
    | none ↦ none
    | some st ↦ some (some st)
  ]

  abbrev state_or_new : Option (MetadataState V) → MetadataState V
  state_or_new none = no_metadata
  state_or_new (some st) = st

  -- readMetadata
  unfoldable pub read_metadata : M B (Option (MetadataState V))
  read_metadata = do body ← read_s3_object (metadata_object_key p); require (read_state body)

  -- writeMetadata
  unfoldable pub write_metadata : MetadataState V → M B (Unit {0})
  write_metadata st = write_s3_object (metadata_object_key p) (J.marshal_metadata st)

  -- commitBackfillMetadata
  unfoldable pub commit_backfill_metadata : String → M B (Unit {0})
  unfolding read_metadata write_metadata
  commit_backfill_metadata thread_id = do
    st ← read_metadata
    write_metadata (with_committed_id thread_id (state_or_new st))

  -- commitStreamMetadata
  unfoldable pub commit_stream_metadata : MetadataState V → M B (Unit {0})
  unfolding read_metadata write_metadata
  commit_stream_metadata finished_state = do
    st ← read_metadata
    merged ← require (merge_stream_metadata_state J (state_or_new st) finished_state)
    write_metadata merged

  -- What promoteS3Staging does with one key, and its loop
  unfoldable pub promote_key : String → String → M B (Unit {0})
  promote_key prefix key =
      if is_skipped prefix key
      then pure tt
      else (do copy_s3_object key (final_key p prefix key); delete_s3_object key)

  unfoldable pub promote_keys : String → List String → M B (Unit {0})
  promote_keys prefix [] = pure tt
  promote_keys prefix (k ∷ ks) = do promote_key prefix k; promote_keys prefix ks

  -- promoteS3Staging
  unfoldable pub promote_s3_staging : String → M B (Unit {0})
  promote_s3_staging prefix = do keys ← list_s3_keys prefix; promote_keys prefix keys

  -- The second half of deleteStagingPrefix
  unfoldable pub delete_keys : String → List String → M B (Unit {0})
  delete_keys finish_key keys = do
    delete_all (filterb (λ k. not (k == finish_key)) keys)
    when (elem finish_key keys) (delete_s3_object finish_key)

  -- deleteStagingPrefix
  unfoldable pub delete_staging_prefix : String → M B (Unit {0})
  unfolding delete_keys
  delete_staging_prefix prefix = do
    keys ← list_s3_keys prefix
    if is_nil keys then pure tt else delete_keys (append prefix finish_file) keys

  -- finalizeBackfillStaging
  unfoldable pub finalize_backfill_staging : String → String → M B (Unit {0})
  finalize_backfill_staging prefix thread_id = do
    promote_s3_staging prefix
    commit_backfill_metadata thread_id
    delete_staging_prefix prefix

  -- finalizeStreamStaging
  unfoldable pub finalize_stream_staging : String → MetadataState V → M B (Unit {0})
  finalize_stream_staging prefix st = do
    promote_s3_staging prefix
    commit_stream_metadata st
    delete_staging_prefix prefix

  -- readBackfillFinish
  unfoldable pub read_backfill_finish : String → M B String
  read_backfill_finish key = do
    found ← read_s3_object key
    body ← require found
    thread_id ← require (J.unmarshal_backfill_finish body)
    if thread_id == empty_text then fail else pure thread_id

  -- listBackfillStagingEntries, with its last entry first
  unfoldable pub list_backfill_staging_entries : M B (List StagingEntry)
  list_backfill_staging_entries = do
    keys ← list_s3_keys (staging_root_prefix p)
    pure (group_keys (staging_root_prefix p) keys [])

  -- The body of the loop of recoverBackfillStaging: without finish.json the attempt was not committed.
  unfoldable pub recover_entry : StagingEntry → M B (Unit {0})
  recover_entry e =
      if e.finished
      then (do
        thread_id ← read_backfill_finish (append e.prefix finish_file)
        finalize_backfill_staging e.prefix thread_id)
      else delete_staging_prefix e.prefix

  unfoldable pub recover_entries : List StagingEntry → M B (Unit {0})
  recover_entries [] = pure tt
  recover_entries (e ∷ es) = do recover_entry e; recover_entries es

  -- recoverBackfillStaging
  unfoldable pub recover_backfill_staging : M B (Unit {0})
  recover_backfill_staging = do
    entries ← list_backfill_staging_entries
    recover_entries (reverse entries)

  -- recoverSharedStaging, once finish.json is found
  unfoldable pub recover_shared_finish : M B (Unit {0})
  recover_shared_finish = do
    found ← read_s3_object (shared_finish_object_key p)
    body ← require found
    parsed ← require (J.parse_finish_state body)
    finished_state ← require parsed
    finalize_stream_staging (staging_root_prefix p) finished_state

  recover_shared_keys : List String → M B (Unit {0})
  recover_shared_keys keys =
      if is_nil keys
      then pure tt
      else if elem (shared_finish_object_key p) keys
      then recover_shared_finish
      else delete_staging_prefix (staging_root_prefix p)

  -- recoverSharedStaging
  unfoldable pub recover_shared_staging : M B (Unit {0})
  unfolding recover_shared_keys
  recover_shared_staging = do keys ← list_s3_keys (staging_root_prefix p); recover_shared_keys keys

  -- recoverStaging
  unfoldable pub recover_staging : M B (Unit {0})
  recover_staging = if p.backfill then recover_backfill_staging else recover_shared_staging

  -- load2PCState
  unfoldable pub load_2pc_state : M B (Option (MetadataState V))
  load_2pc_state = do recover_staging; read_metadata

  -- writeFinish
  unfoldable pub write_finish : B → M B (Unit {0})
  write_finish body =
      write_s3_object
        (if p.backfill
          then backfill_finish_object_key p p.thread_id
          else shared_finish_object_key p)
        body

  -- uploadPqFiles: the data files are their paths below the table and their bodies.
  unfoldable pub upload_pq_files : List (String × B) → M B (Unit {0})
  upload_pq_files files = write_all (map (λ f. (staging_object_key p f.0, f.1)) files)

  -- The last part of Close, once the finish state is known and the local files are closed
  unfoldable pub commit_files : List (String × B) → B → M B (Unit {0}) → M B (Unit {0})
  commit_files files finish_data finalize = do
    recover_staging
    upload_pq_files files
    write_finish finish_data
    finalize

  -- streamFinishState of what the driver gives, `marshalled` its JSON
  unfoldable pub close_stream : List (String × B) → Option B → M B (Unit {0})
  close_stream files marshalled = do
    finish_data ← require marshalled
    parsed ← require (J.parse_finish_state finish_data)
    st ← require parsed
    commit_files files finish_data (finalize_stream_staging (current_staging_prefix p) st)

  -- Close on S3, where the context is not done
  unfoldable pub close : List (String × B) → Option B → M B (Unit {0})
  close files marshalled =
      if p.backfill
      then commit_files files (J.marshal_backfill_finish p.thread_id)
          (finalize_backfill_staging (current_staging_prefix p) p.thread_id)
      else if is_nil files
      then pure tt
      else close_stream files marshalled
