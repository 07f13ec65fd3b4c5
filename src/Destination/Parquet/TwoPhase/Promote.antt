-- ===== src/Destination/Parquet/TwoPhase/Promote.antt =====
-- destination/parquet/parquet_2pc.go: promoteS3Staging moves every data file of a staging to the table.
use olake.Base.{
  String, ◌≡◌, sym, ap, ◌∙◌, subst, true, false, none, some, List, [], ◌∷◌, arith, eq_iff, ◌==◌,
  string_eq, filterb, elem, Distinct, inl, inr, Bool-cases, ==-refl, false≢true,
}
use mathlib.Core.Option.{some-ne-none}
use olake.Base.Assoc.{lookup, insert, delete, keys, lookup_absent}
use olake.Base.Search.{elem-filterb, elem_of_lookup, lookup_of_elem, filterb-Distinct}
use olake.Utils.Path.{has_prefix, sort_strings, sort_strings-Distinct}
use olake.Destination.Parquet.Metadata.{Json}
use olake.Destination.Parquet.Keys.{Parquet, metadata_object_key, final_key, is_skipped}
use olake.Destination.Parquet.ObjectStore.{list_s3_keys, copy_s3_object, delete_s3_object}
use olake.Destination.Parquet.ObjectStore.Rules.{
  Ensures, >>=-Ensures, pure-Ensures, weaken-Ensures, list-Ensures, delete-Ensures, copy-Ensures,
}
use olake.Destination.Parquet.TwoPhase.Deletion.{listing}
use olake.Destination.Parquet.TwoPhase.{promote_key, promote_keys, promote_s3_staging}
use olake.Destination.Parquet.TwoPhase.Staging.{
  Moving, is_staged, staged_keys, moves_apart, final_outside, copy-Moving, delete-Moving,
  staged_inside, other_than, unread_insert, read_insert, unread_delete, read_delete,
}

module _ {B V : Type 0} (J : Json B V) (p : Parquet) (prefix : String) (start : List (String × B))
    (checkpoint : B) (apart : moves_apart p prefix (staged_keys prefix start) ≡ true)
    (outside : has_prefix (metadata_object_key p) prefix ≡ false) where
  abbrev pub Now : List (String × B) → Type 0
  Now s = Moving p prefix start checkpoint s

  -- The keys of the loop are still there, and each other data file is moved.
  pub record Promoting (ks : List String) (s : List (String × B)) : Type 0 where
    pub moving : Now s
    pub waiting :
        (k : String) → elem k ks ≡ true → (has_prefix k prefix ≡ true) × (elem k (keys s) ≡ true)
    pub distinct : Distinct ks
    pub rest_moved :
        (k : String)
        → elem k (staged_keys prefix start) ≡ true
        → elem k ks ≡ false
        → lookup k s ≡ none

  -- A staged key that is there has the body that it had.
  same_body :
      (s : List (String × B)) (k : String) (b : B)
      → Now s
      → has_prefix k prefix ≡ true
      → lookup k s ≡ some b
      → lookup k start ≡ some b
  same_body s k b h t e = elim (h.inside k t) [
    | inl n ↦ absurd (some-ne-none b (sym e ∙ n))
    | inr n ↦ sym n ∙ e
  ]

  data_key :
      (k : String) (b : B)
      → has_prefix k prefix ≡ true
      → is_skipped prefix k ≡ false
      → lookup k start ≡ some b
      → elem k (staged_keys prefix start) ≡ true
  data_key k b t sk e =
      ground (arith, elem-filterb (is_staged prefix) k (keys start), elem_of_lookup k b start e)

  promotion_begins :
      (ks : List String) (s : List (String × B))
      → Now s
      → ks ≡ sort_strings (filterb (λ k. has_prefix k prefix) (keys s))
      → Promoting ks s
  promotion_begins ks s h e = record {
    moving = h;
    waiting =
        λ k t. (ground (arith, listing prefix ks s e k), ground (arith, listing prefix ks s e k));
    distinct =
        subst Distinct (sym e) (sort_strings-Distinct _ (filterb-Distinct _ (keys s) h.distinct));
    rest_moved = λ k d f.
        lookup_absent k s (ground (arith, listing prefix ks s e k, staged_inside prefix start k d));
  }

  still_there :
      (s t : List (String × B)) (j : String)
      → lookup j t ≡ lookup j s
      → elem j (keys s) ≡ true
      → elem j (keys t) ≡ true
  still_there s t j e k = let (b, f) = lookup_of_elem j s k in elem_of_lookup j b t (e ∙ f)

  unmoved :
      (s : List (String × B)) (k j : String) (b : B)
      → elem k (staged_keys prefix start) ≡ true
      → has_prefix j prefix ≡ true
      → lookup j (insert (final_key p prefix k) b s) ≡ lookup j s
  unmoved s k j b d t = unread_insert (final_key p prefix k) j b s (
      other_than p prefix start checkpoint apart outside _ j
        (final_outside p prefix start checkpoint apart outside k d) t)

  -- After the copy of the first key
  Copied : String → List String → List (String × B) → Type 0
  Copied k ks s =
      Promoting (k ∷ ks) s
      × (elem k (staged_keys prefix start) ≡ true)
      × (lookup (final_key p prefix k) s ≡ lookup k start)

  copied :
      (k : String) (ks : List String) (s : List (String × B)) (b : B)
      → Promoting (k ∷ ks) s
      → elem k (staged_keys prefix start) ≡ true
      → lookup k s ≡ some b
      → lookup k start ≡ some b
      → Copied k ks (insert (final_key p prefix k) b s)
  unfolding Copied
  copied k ks s b h d e f = (
    record {
      moving = copy-Moving p prefix start checkpoint apart outside s k b h.moving d e;
      waiting = λ j t. let (u, v) = h.waiting j t in (u, still_there s _ j (unmoved s k j b d u) v);
      distinct = h.distinct;
      rest_moved = λ j g n. unmoved s k j b d (staged_inside prefix start j g) ∙ h.rest_moved j g n;
    },
    d,
    read_insert (final_key p prefix k) b s ∙ sym f,
  )

  deleted :
      (k : String) (ks : List String) (s : List (String × B))
      → Copied k ks s
      → Promoting ks (delete k s)
  unfolding Copied
  deleted k ks s (h, d, there) =
      let ne = λ (j : String) (t : elem j ks ≡ true). unequal k j ks h.distinct.0 t in
      record {
        moving =
            delete-Moving p prefix start checkpoint apart outside s k h.moving
              (staged_inside prefix start k d) (λ _. there);
        waiting = λ j t.
            let (u, v) = h.waiting j (ground arith) in
            (u, still_there s _ j (unread_delete k j s (ne j t)) v);
        distinct = h.distinct.1;
        rest_moved = λ j g n. elim (Bool-cases (k == j)) [
          | inl q ↦ ap (λ z. lookup z (delete k s)) (sym ((eq_iff k j).0 q)) ∙ read_delete k s
          | inr q ↦ unread_delete k j s q ∙ h.rest_moved j g (ground arith)
        ];
      }
    where
      unequal :
          (k j : String) (ks : List String)
          → elem k ks ≡ false
          → elem j ks ≡ true
          → (k == j) ≡ false
      unequal k j ks a b = elim (Bool-cases (k == j)) [
        | inl q ↦ absurd (false≢true (sym a ∙ ap (λ z. elem z ks) ((eq_iff k j).0 q) ∙ b))
        | inr q ↦ q
      ]

  skipped :
      (k : String) (ks : List String) (s : List (String × B))
      → is_skipped prefix k ≡ true
      → Promoting (k ∷ ks) s
      → Promoting ks s
  skipped k ks s sk h = record {
    moving = h.moving;
    waiting = λ j t. h.waiting j (ground arith);
    distinct = h.distinct.1;
    rest_moved = λ j g n. elim (Bool-cases (k == j)) [
      | inl q ↦ absurd (
          false≢true
            (not_data k sk ∙ ap (λ z. elem z (staged_keys prefix start)) ((eq_iff k j).0 q) ∙ g))
      | inr q ↦ h.rest_moved j g (ground arith)
    ];
  }
    where
      not_data :
          (k : String) → is_skipped prefix k ≡ true → false ≡ elem k (staged_keys prefix start)
      not_data k sk = ground (arith, elem-filterb (is_staged prefix) k (keys start))

  to_copy :
      (k : String) (ks : List String)
      → is_skipped prefix k ≡ false
      → (s : List (String × B)) → Promoting (k ∷ ks) s
      → (b : B) × (lookup k s ≡ some b)
        × Now (insert (final_key p prefix k) b s)
        × Copied k ks (insert (final_key p prefix k) b s)
  unfolding Copied
  to_copy k ks sk s h =
      let (t, there) = h.waiting k (ground (arith, ==-refl k)) in
      let (b, e) = lookup_of_elem k s there in
      let f = same_body s k b h.moving t e in
      let c = copied k ks s b h (data_key k b t sk f) e f in (b, e, c.0.moving, c)

  arrived : (k : String) (ks : List String) (s : List (String × B)) → Copied k ks s → Now s
  unfolding Copied
  arrived k ks s c = c.0.moving

  promote_key-Ensures :
      (k : String) (ks : List String)
      → Ensures Now (Promoting (k ∷ ks)) (promote_key J p prefix k) (λ _ s. Promoting ks s)
  unfolding promote_key
  promote_key-Ensures k ks = elim (Bool-cases (is_skipped prefix k)) [
    | inl sk ↦ rw sk (
        pure-Ensures Now (Promoting (k ∷ ks)) (λ _ s. Promoting ks s) tt
          (λ s h. skipped k ks s sk h))
    | inr sk ↦ rw sk (
        >>=-Ensures Now (Promoting (k ∷ ks)) (copy_s3_object k (final_key p prefix k))
          (λ _ s. Copied k ks s) (λ _. delete_s3_object k) (λ _ s. Promoting ks s)
          (copy-Ensures Now (Promoting (k ∷ ks)) (λ s h. h.moving) k (final_key p prefix k)
            (λ _ s. Copied k ks s) (to_copy k ks sk))
          (λ _.
            delete-Ensures Now (Copied k ks) (arrived k ks) k (λ _ s. Promoting ks s)
              (λ s c. let h = deleted k ks s c in (h.moving, h))))
  ]

  promote_keys-Ensures :
      (ks : List String)
      → Ensures Now (Promoting ks) (promote_keys J p prefix ks) (λ _ s. Promoting [] s)
  unfolding promote_keys
  promote_keys-Ensures [] = pure-Ensures Now (Promoting []) (λ _ s. Promoting [] s) tt (λ s h. h)
  promote_keys-Ensures (k ∷ ks) =
      >>=-Ensures Now (Promoting (k ∷ ks)) (promote_key J p prefix k) (λ _ s. Promoting ks s)
        (λ _. promote_keys J p prefix ks) (λ _ s. Promoting [] s) (promote_key-Ensures k ks)
        (λ _. promote_keys-Ensures ks)

  pub promote-Ensures : Ensures Now Now (promote_s3_staging J p prefix) (λ _ s. Promoting [] s)
  unfolding promote_s3_staging
  promote-Ensures =
      >>=-Ensures Now Now (list_s3_keys prefix)
        (λ ks s. Now s × (ks ≡ sort_strings (filterb (λ k. has_prefix k prefix) (keys s))))
        (λ ks. promote_keys J p prefix ks) (λ _ s. Promoting [] s)
        (list-Ensures Now Now (λ s h. h) prefix)
        (λ ks.
          weaken-Ensures Now _ (Promoting ks) _ _ (λ s h. promotion_begins ks s h.0 h.1)
            (promote_keys-Ensures ks))
