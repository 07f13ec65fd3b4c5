-- ===== src/Destination/Parquet/Keys.antt =====
-- destination/parquet/parquet_2pc.go: the keys of staged objects, and which of them belong to one
-- thread of a full refresh.
use Prim.Native.String.{◌++◌ as append}
use olake.Base.{
  String, Bool, ◌||◌, Option, none, some, List, [], ◌∷◌, if◌then◌else◌, ◌==◌, string_eq,
}
use olake.Utils.Text.{empty_text}
use olake.Utils.Path.{join, trim_slashes, trim_left_slashes, trim_prefix, cut_slash}

-- The fields of the writer that its keys depend on; the hash of a thread's id is SHA-256 in hex.
pub record Parquet : Type 0 where
  pub config_prefix : String
  pub base_path : String
  pub backfill : Bool
  pub thread_id : String
  pub hash_thread_id : String → String

abbrev pub finish_file : String
finish_file = "finish.json"

abbrev pub two_phase_dir : String
two_phase_dir = "_olake_2pc"

abbrev pub metadata_file : String
metadata_file = "metadata.json"

module _ (p : Parquet) where
  -- s3ObjectKey
  unfoldable pub s3_object_key : String → String
  s3_object_key relative =
      let prefix = trim_slashes p.config_prefix in
      if prefix == empty_text then relative else join prefix relative

  unfoldable pub staging_root_prefix : String
  unfolding s3_object_key
  staging_root_prefix = append (s3_object_key (join p.base_path two_phase_dir)) "/"

  unfoldable pub backfill_staging_prefix : String → String
  unfolding staging_root_prefix
  backfill_staging_prefix thread_id =
      append staging_root_prefix (append (p.hash_thread_id thread_id) "/")

  unfoldable pub current_staging_prefix : String
  unfolding backfill_staging_prefix
  current_staging_prefix =
      if p.backfill then backfill_staging_prefix p.thread_id else staging_root_prefix

  unfoldable pub staging_object_key : String → String
  unfolding current_staging_prefix
  staging_object_key relative = append current_staging_prefix (trim_left_slashes relative)

  unfoldable pub shared_finish_object_key : String
  unfolding staging_root_prefix
  shared_finish_object_key = append staging_root_prefix finish_file

  unfoldable pub backfill_finish_object_key : String → String
  unfolding backfill_staging_prefix
  backfill_finish_object_key thread_id = append (backfill_staging_prefix thread_id) finish_file

  unfoldable pub metadata_object_key : String
  unfolding s3_object_key
  metadata_object_key = s3_object_key (join p.base_path metadata_file)

  -- Where promoteS3Staging moves a key
  unfoldable pub final_key : String → String → String
  unfolding s3_object_key
  final_key prefix key = s3_object_key (join p.base_path (trim_prefix key prefix))

-- The keys that promoteS3Staging passes over
unfoldable pub is_skipped : String → String → Bool
is_skipped prefix key =
    let relative = trim_prefix key prefix in relative == empty_text || relative == finish_file

-- parquet2PCStagingEntry
pub record StagingEntry : Type 0 where
  pub prefix : String
  pub finished : Bool

-- One key of the loop, on the entries so far, the last one first
note_key : String → String → List StagingEntry → List StagingEntry
note_key entry_prefix staged [] =
    record { prefix = entry_prefix; finished = staged == finish_file } ∷ []
note_key entry_prefix staged (e ∷ es) =
    if e.prefix == entry_prefix
    then record e { finished = staged == finish_file || e.finished } ∷ es
    else record { prefix = entry_prefix; finished = staged == finish_file } ∷ e ∷ es

note_path : String → Option (String × String) → List StagingEntry → List StagingEntry
unfolding note_key
note_path root none es = es
note_path root (some (thread_hash, staged)) es =
    note_key (append root (append thread_hash "/")) staged es

-- The loop of listBackfillStagingEntries
unfoldable pub group_keys : String → List String → List StagingEntry → List StagingEntry
unfolding note_path
group_keys root [] es = es
group_keys root (k ∷ ks) es =
    group_keys root ks (note_path root (cut_slash (trim_prefix k root)) es)
