-- ===== src/Destination/Parquet/TwoPhase/Deletion.antt =====
-- destination/parquet/parquet_2pc.go: deleteStagingPrefix empties a staging, and keeps whatever the
-- deletion of one staged key keeps.
use olake.Base.{
  String, ◌≡◌, refl, sym, ap, ◌∙◌, Bool, true, false, not, ◌&&◌, Option, none, some, List, [], ◌∷◌,
  arith, eq_iff, if◌then◌else◌, ◌==◌, string_eq, filterb, elem, inl, inr, Bool-cases, is_nil,
}
use Prim.Native.String.{◌++◌ as append}
use olake.Base.Assoc.{lookup, delete, keys, lookup_absent}
use olake.Base.Search.{elem-filterb, All_of}
use olake.Utils.Path.{has_prefix, sort_strings, elem-sort_strings, has_prefix-append}
use olake.Destination.Parquet.Metadata.{Json}
use olake.Destination.Parquet.Keys.{Parquet, finish_file}
use olake.Destination.Parquet.ObjectStore.{
  Fate, World, pure, list_s3_keys, delete_s3_object, delete_all,
}
use olake.Destination.Parquet.ObjectStore.Rules.{
  Post, Ensures, >>=-Ensures, pure-Ensures, weaken-Ensures, list-Ensures, delete-Ensures,
  delete_all-Ensures,
}
use olake.Destination.Parquet.TwoPhase.{delete_keys, delete_staging_prefix, when}
use olake.Destination.Parquet.TwoPhase.Staging.{unread_delete, read_delete}

pub listing :
    {B : Type 0} (prefix : String) (ks : List String) (s : List (String × B))
    → ks ≡ sort_strings (filterb (λ k. has_prefix k prefix) (keys s))
    → (k : String) → elem k ks ≡ (has_prefix k prefix && elem k (keys s))
listing prefix ks s e k =
    ap (elem k) e
    ∙ elem-sort_strings k (filterb (λ k. has_prefix k prefix) (keys s))
    ∙ elem-filterb (λ k. has_prefix k prefix) k (keys s)

module _ {B V : Type 0} (J : Json B V) (p : Parquet) (prefix : String)
    (I : List (String × B) → Type 0)
    (keep : (k : String) (s : List (String × B))
      → has_prefix k prefix ≡ true
      → I s
      → I (delete k s)) where
  -- Of the staging, only these keys are left, and the finish file where `with_finish` says so.
  record Left (finish_key : String) (with_finish : Bool) (ks : List String) (s : List (String × B))
      : Type 0 where
    pub kept : I s
    pub gone :
        (k : String)
        → has_prefix k prefix ≡ true
        → elem k ks ≡ false
        → (k == finish_key && with_finish) ≡ false
        → lookup k s ≡ none

  deletion_step :
      (finish_key : String) (with_finish : Bool) (k : String) (ks : List String)
      (s : List (String × B))
      → has_prefix k prefix ≡ true
      → Left finish_key with_finish (k ∷ ks) s
      → Left finish_key with_finish ks (delete k s)
  deletion_step finish_key with_finish k ks s t h = record {
    kept = keep k s t h.kept;
    gone = λ j u n f. elim (Bool-cases (k == j)) [
      | inl q ↦ ap (λ z. lookup z (delete k s)) (sym ((eq_iff k j).0 q)) ∙ read_delete k s
      | inr q ↦ unread_delete k j s q ∙ h.gone j u (ground arith) f
    ];
  }

  -- The end: the staging is empty.
  pub record Finished (s : List (String × B)) : Type 0 where
    pub kept : I s
    pub empty : (k : String) → has_prefix k prefix ≡ true → lookup k s ≡ none

  finish_deletion :
      (finish_key : String) (with_finish : Bool)
      → has_prefix finish_key prefix ≡ true
      → Ensures I
          (Left finish_key with_finish [])
          (when with_finish (delete_s3_object finish_key))
          (λ _ s. Finished s)
  finish_deletion finish_key false t =
      pure-Ensures I (Left finish_key false []) (λ _ s. Finished s) tt
        (λ s h. record { kept = h.kept; empty = λ k u. h.gone k u refl (ground arith) })
  finish_deletion finish_key true t =
      delete-Ensures I (Left finish_key true []) (λ s h. h.kept) finish_key (λ _ s. Finished s)
        (λ s h.
          let c = keep finish_key s t h.kept in
          (
            c,
            record {
              kept = c;
              empty = λ k u. elim (Bool-cases (finish_key == k)) [
                | inl q ↦
                    ap (λ z. lookup z (delete finish_key s)) (sym ((eq_iff finish_key k).0 q))
                    ∙ read_delete finish_key s
                | inr q ↦
                    unread_delete finish_key k s q
                    ∙ h.gone k u refl (ground (arith, eq_iff finish_key k, eq_iff k finish_key))
              ];
            },
          ))

  -- The finish file is among the keys exactly where `with_finish` says so.
  delete_keys-Ensures :
      (ks : List String)
      → ((k : String) → elem k ks ≡ true → has_prefix k prefix ≡ true)
      → Ensures I
          (λ s.
            I s
            × ((k : String) → has_prefix k prefix ≡ true → elem k ks ≡ false → lookup k s ≡ none))
          (delete_keys J p (append prefix finish_file) ks)
          (λ _ s. Finished s)
  unfolding delete_keys
  delete_keys-Ensures ks t =
      let e = append prefix finish_file in
      let others = filterb (λ k. not (k == e)) ks in
      >>=-Ensures I _ (delete_all others) (λ _ s. Left e (elem e ks) [] s)
        (λ _. when (elem e ks) (delete_s3_object e)) (λ _ s. Finished s)
        (weaken-Ensures I _ (Left e (elem e ks) others) (delete_all others)
          (λ _ s. Left e (elem e ks) [] s)
          (λ s h. record {
            kept = h.0;
            gone = λ k u n f.
                h.1 k u (ground (arith, elem-filterb (λ k. not (k == e)) k ks, eq_iff k e));
          })
          (delete_all-Ensures I (λ k. has_prefix k prefix ≡ true) (Left e (elem e ks))
            (λ ks s h. h.kept) keep (deletion_step e (elem e ks)) others
            (All_of (λ k. has_prefix k prefix ≡ true) others
              (λ k u. t k (ground (arith, elem-filterb (λ k. not (k == e)) k ks))))))
        (λ _. finish_deletion e (elem e ks) (has_prefix-append prefix finish_file))

  delete-staging-Ensures : Ensures I I (delete_staging_prefix J p prefix) (λ _ s. Finished s)
  unfolding delete_staging_prefix
  delete-staging-Ensures =
      >>=-Ensures I I (list_s3_keys prefix)
        (λ ks s. I s × (ks ≡ sort_strings (filterb (λ k. has_prefix k prefix) (keys s))))
        (λ ks. if is_nil ks then pure tt else delete_keys J p (append prefix finish_file) ks)
        (λ _ s. Finished s) (list-Ensures I I (λ s c. c) prefix)
        (λ ks w h. rest ks w h.0 (listing prefix ks w.objects h.1))
    where
      unlisted :
          (ks : List String) (s : List (String × B))
          → ((k : String) → elem k ks ≡ (has_prefix k prefix && elem k (keys s)))
          → (k : String) → has_prefix k prefix ≡ true
          → elem k ks ≡ false
          → lookup k s ≡ none
      unlisted ks s e k t n = lookup_absent k s (ground (arith, e k))

      rest :
          (ks : List String) (w : World B)
          → I w.objects
          → ((k : String) → elem k ks ≡ (has_prefix k prefix && elem k (keys w.objects)))
          → Post I
              (λ _ s. Finished s)
              w.fates
              ((if is_nil ks then pure tt else delete_keys J p (append prefix finish_file) ks) w)
      rest [] w c e = (λ f. f, record { kept = c; empty = λ k t. unlisted [] w.objects e k t refl })
      rest (k ∷ ks) w c e =
          delete_keys-Ensures (k ∷ ks) (λ j u. ground (arith, e j)) w
            (c, unlisted (k ∷ ks) w.objects e)

  -- An error leaves what is kept, and otherwise the staging is empty too.
  pub empties-Ensures :
      Ensures I I
        (delete_staging_prefix J p prefix)
        (λ _ s. I s × ((k : String) → has_prefix k prefix ≡ true → lookup k s ≡ none))
  empties-Ensures w i =
      opened w.fates (delete_staging_prefix J p prefix w) (delete-staging-Ensures w i)
    where
      opened :
          (fs : List Fate) (r : Option (Unit {0}) × World B)
          → Post I (λ _ s. Finished s) fs r
          → Post I
              (λ _ s. I s × ((k : String) → has_prefix k prefix ≡ true → lookup k s ≡ none))
              fs
              r
      opened fs (none, w) h = h
      opened fs (some u, w) h = (h.0, (h.1.kept, h.1.empty))
