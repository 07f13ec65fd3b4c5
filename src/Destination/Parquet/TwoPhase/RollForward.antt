-- ===== src/Destination/Parquet/TwoPhase/RollForward.antt =====
-- destination/parquet/parquet_2pc.go: a committed chunk of a full refresh reaches the table whole, however
-- often finalizeBackfillStaging is cut short before it comes to its end.
use olake.Base.{
  String, ◌≡◌, refl, ap, ◌∙◌, true, false, Option, none, some, List, [], ◌∷◌, ◌++◌, arith, eq_iff,
  ◌==◌, string_eq, elem, inl, inr, ==-refl, elem-append,
}
use olake.Base.Assoc.{lookup, insert, delete, lookup-delete}
use olake.Utils.Path.{has_prefix}
use olake.Destination.Parquet.Metadata.{MetadataState, Json, with_committed_id}
use olake.Destination.Parquet.Keys.{Parquet, metadata_object_key}
use olake.Destination.Parquet.ObjectStore.Rules.{
  Ensures, >>=-Ensures, read-Ensures, write-Ensures, local-Ensures,
}
use olake.Destination.Parquet.TwoPhase.{
  delete_staging_prefix, commit_backfill_metadata, read_metadata, write_metadata, read_state,
  state_or_new, require,
}
use olake.Destination.Parquet.TwoPhase.Staging.{
  staged_keys, moves_apart, delete-Moving, metadata-Moving, staged_inside, other_than,
  unread_insert, read_insert, unread_delete,
}
use olake.Destination.Parquet.TwoPhase.Deletion.{empties-Ensures}
use olake.Destination.Parquet.TwoPhase.Promote.{Now, Promoting}

elem-snoc : (a : String) (xs : List String) → elem a (xs ++ a ∷ []) ≡ true
elem-snoc a xs = elem-append a xs (a ∷ []) ∙ ground (arith, ==-refl a)

flip : (a b : String) → (a == b) ≡ false → (b == a) ≡ false
flip a b ne = ground (arith, eq_iff a b, eq_iff b a)

gone_after :
    {B : Type 0} (k j : String) (s : List (String × B))
    → lookup j s ≡ none
    → lookup j (delete k s) ≡ none
gone_after k j s n = ground (arith, lookup-delete k j s)

-- A thread that is committed twice is committed once.
with_committed_id_idem :
    {V : Type 0} (t : String) (st : MetadataState V)
    → with_committed_id t (with_committed_id t st) ≡ with_committed_id t st
unfolding with_committed_id
with_committed_id_idem t st = ground (arith, elem-snoc t st.full_refresh_committed_ids)

module _ {B V : Type 0} (J : Json B V) (p : Parquet) (prefix thread_id : String)
    (start : List (String × B)) (st : Option (MetadataState V))
    (apart : moves_apart p prefix (staged_keys prefix start) ≡ true)
    (outside : has_prefix (metadata_object_key p) prefix ≡ false)
    (readable : read_state J p (lookup (metadata_object_key p) start) ≡ some st)
    (reads_back : (m : MetadataState V)
      → J.unmarshal_metadata (J.marshal_metadata m) ≡ some m) where
  abbrev pub checkpoint : B
  checkpoint = J.marshal_metadata (with_committed_id thread_id (state_or_new J p st))

  abbrev pub Here : List (String × B) → Type 0
  Here s = Now J p prefix start checkpoint apart outside s

  abbrev pub Moved : List (String × B) → Type 0
  Moved s = Promoting J p prefix start checkpoint apart outside [] s

  pub record Committed (s : List (String × B)) : Type 0 where
    pub moving : Here s
    pub all_moved : (k : String) → elem k (staged_keys prefix start) ≡ true → lookup k s ≡ none
    pub committed : lookup (metadata_object_key p) s ≡ some checkpoint

  read_ok :
      (found : Option B) (s : List (String × B))
      → Moved s
      → found ≡ lookup (metadata_object_key p) s
      → (m : Option (MetadataState V)) × (read_state J p found ≡ some m)
        × (J.marshal_metadata (with_committed_id thread_id (state_or_new J p m)) ≡ checkpoint)
  read_ok found s h e = elim h.moving.at_metadata [
    | inl n ↦ (st, ap (read_state J p) (e ∙ n) ∙ readable, refl)
    | inr n ↦ (
      some (with_committed_id thread_id (state_or_new J p st)),
      ap (read_state J p) (e ∙ n)
          ∙ rw (reads_back (with_committed_id thread_id (state_or_new J p st)), read_state) refl,
      ap J.marshal_metadata (with_committed_id_idem thread_id (state_or_new J p st)),
    )
  ]

  Readable : Option (MetadataState V) → List (String × B) → Type 0
  Readable m s =
      Moved s × (J.marshal_metadata (with_committed_id thread_id (state_or_new J p m)) ≡ checkpoint)

  metadata-Ensures : Ensures Here Moved (read_metadata J p) Readable
  unfolding read_metadata Readable
  metadata-Ensures =
      >>=-Ensures Here Moved _ (λ found s. Moved s × (found ≡ lookup (metadata_object_key p) s))
        (λ found. require (read_state J p found)) Readable
        (read-Ensures Here Moved (λ s h. h.moving) (metadata_object_key p))
        (λ found w h. let (m, e, c) = read_ok found w.objects h.0 h.1 in rw e (λ f. f, (h.0, c)))

  pub commit-Ensures :
      Ensures Here Moved (commit_backfill_metadata J p thread_id) (λ _ s. Committed s)
  unfolding commit_backfill_metadata write_metadata Readable
  commit-Ensures =
      >>=-Ensures Here Moved (read_metadata J p) Readable _ (λ _ s. Committed s) metadata-Ensures
        (λ m.
          write-Ensures Here (Readable m) (λ s h. h.0.moving) (metadata_object_key p) _
            (λ _ s. Committed s) (λ s h. rw h.1 (let c = to_committed s h.0 in (c.moving, c))))
    where
      to_committed :
          (s : List (String × B))
          → Moved s
          → Committed (insert (metadata_object_key p) checkpoint s)
      to_committed s h = record {
        moving = metadata-Moving p prefix start checkpoint apart outside s h.moving;
        all_moved = λ k d.
            unread_insert (metadata_object_key p) k checkpoint s (
              other_than p prefix start checkpoint apart outside _ k outside
                (staged_inside prefix start k d))
            ∙ h.rest_moved k d refl;
        committed = read_insert (metadata_object_key p) checkpoint s;
      }

  -- Committed, with a deletion in the staging
  deletion_keeps :
      (k : String) (s : List (String × B))
      → has_prefix k prefix ≡ true
      → Committed s
      → Committed (delete k s)
  deletion_keeps k s t h = record {
    moving =
        delete-Moving p prefix start checkpoint apart outside s k h.moving t
          (λ d. h.moving.moved k d (h.all_moved k d));
    all_moved = λ j d. gone_after k j s (h.all_moved j d);
    committed =
        unread_delete k (metadata_object_key p) s (
          flip _ _ (
            other_than p prefix start checkpoint apart outside (metadata_object_key p) k outside t))
        ∙ h.committed;
  }

  -- The end: the checkpoint is committed and the staging is empty.
  abbrev pub Finished : List (String × B) → Type 0
  Finished s = Committed s × ((k : String) → has_prefix k prefix ≡ true → lookup k s ≡ none)

  pub delete-staging-Ensures :
      Ensures Here Committed (delete_staging_prefix J p prefix) (λ _ s. Finished s)
  delete-staging-Ensures =
      local-Ensures Committed Here (λ s c. c.moving) Committed _ (λ _ s. Finished s)
        (empties-Ensures J p prefix Committed deletion_keeps)
