-- ===== src/Destination/Parquet/TwoPhase/Staging.antt =====
-- destination/parquet/parquet_2pc.go: what is true of the bucket while a committed chunk of a full refresh
-- is moved to the table, wherever that stops.
use olake.Base.{
  String, ◌≡◌, sym, ap, ◌∙◌, subst, Bool, true, false, not, ◌&&◌, ◌||◌, none, some, List, arith,
  eq_iff, ◌==◌, string_eq, filterb, elem, any, all, Distinct, ◌⊎◌, inl, inr, Bool-cases, ==-refl,
  false≢true, without-Distinct,
}
use mathlib.Core.Option.{some-ne-none}
use olake.Base.Assoc.{
  lookup, insert, delete, keys, lookup-insert, lookup-delete, keys-insert, keys-delete,
  add_key-Distinct,
}
use olake.Base.Search.{elem-filterb, all_at, any_at}
use olake.Utils.Path.{has_prefix}
use olake.Destination.Parquet.Keys.{Parquet, metadata_object_key, final_key, is_skipped}

module _ {B : Type 0} where
  pub unread_insert :
      (k j : String) (b : B) (s : List (String × B))
      → (k == j) ≡ false
      → lookup j (insert k b s) ≡ lookup j s
  unread_insert k j b s ne = ground (arith, lookup-insert k j b s)

  pub read_insert : (k : String) (b : B) (s : List (String × B)) → lookup k (insert k b s) ≡ some b
  read_insert k b s = ground (arith, lookup-insert k k b s, ==-refl k)

  pub unread_delete :
      (k j : String) (s : List (String × B)) → (k == j) ≡ false → lookup j (delete k s) ≡ lookup j s
  unread_delete k j s ne = ground (arith, lookup-delete k j s)

  pub read_delete : (k : String) (s : List (String × B)) → lookup k (delete k s) ≡ none
  read_delete k s = ground (arith, lookup-delete k k s, ==-refl k)

flip : (a b : String) → (a == b) ≡ false → (b == a) ≡ false
flip a b ne = ground (arith, eq_iff a b, eq_iff b a)

-- A staged data file, by its key
abbrev pub is_staged : String → String → Bool
is_staged prefix k = has_prefix k prefix && not (is_skipped prefix k)

abbrev pub staged_keys : {B : Type 0} → String → List (String × B) → List String
staged_keys prefix s = filterb (is_staged prefix) (keys s)

-- The data files of the staging go to keys outside it, other than that of the metadata, no two to one key.
abbrev pub moves_apart : Parquet → String → List String → Bool
moves_apart p prefix ks =
    all
      (λ k.
        not (has_prefix (final_key p prefix k) prefix)
        && not (final_key p prefix k == metadata_object_key p)
        && all (λ j. k == j || not (final_key p prefix k == final_key p prefix j)) ks)
      ks

module _ {B : Type 0} (prefix : String) (s : List (String × B)) where
  pub staged_inside :
      (k : String) → elem k (staged_keys prefix s) ≡ true → has_prefix k prefix ≡ true
  staged_inside k d = ground (arith, elem-filterb (is_staged prefix) k (keys s))

module _ {B : Type 0} (p : Parquet) (prefix : String) where
  module _ (start : List (String × B)) (checkpoint : B) where
    -- What is true at every moment, `start` the bucket at the commit
    pub record Moving (s : List (String × B)) : Type 0 where
      pub distinct : Distinct (keys s)
      pub inside :
          (k : String)
          → has_prefix k prefix ≡ true
          → (lookup k s ≡ none) ⊎ (lookup k s ≡ lookup k start)
      pub moved :
          (k : String)
          → elem k (staged_keys prefix start) ≡ true
          → lookup k s ≡ none
          → lookup (final_key p prefix k) s ≡ lookup k start
      pub at_metadata :
          (lookup (metadata_object_key p) s ≡ lookup (metadata_object_key p) start)
          ⊎ (lookup (metadata_object_key p) s ≡ some checkpoint)
      pub elsewhere :
          (k : String)
          → has_prefix k prefix ≡ false
          → (k == metadata_object_key p) ≡ false
          → any (λ j. final_key p prefix j == k) (staged_keys prefix start) ≡ false
          → lookup k s ≡ lookup k start

    module _ (apart : moves_apart p prefix (staged_keys prefix start) ≡ true)
        (outside : has_prefix (metadata_object_key p) prefix ≡ false) where
      pub final_outside :
          (k : String)
          → elem k (staged_keys prefix start) ≡ true
          → has_prefix (final_key p prefix k) prefix ≡ false
      final_outside k d = ground (arith, all_at _ k (staged_keys prefix start) apart d)

      final_not_metadata :
          (k : String)
          → elem k (staged_keys prefix start) ≡ true
          → (final_key p prefix k == metadata_object_key p) ≡ false
      final_not_metadata k d = ground (arith, all_at _ k (staged_keys prefix start) apart d)

      final_apart :
          (k j : String)
          → elem k (staged_keys prefix start) ≡ true
          → elem j (staged_keys prefix start) ≡ true
          → (k == j) ≡ false
          → (final_key p prefix k == final_key p prefix j) ≡ false
      final_apart k j d f ne = ground (arith, all_at _ j (staged_keys prefix start) (inner k d) f)
        where
          inner :
              (k : String)
              → elem k (staged_keys prefix start) ≡ true
              → all
                  (λ j. k == j || not (final_key p prefix k == final_key p prefix j))
                  (staged_keys prefix start)
                ≡ true
          inner k d = ground (arith, all_at _ k (staged_keys prefix start) apart d)

      pub other_than :
          (a k : String)
          → has_prefix a prefix ≡ false
          → has_prefix k prefix ≡ true
          → (a == k) ≡ false
      other_than a k f t = elim (Bool-cases (a == k)) [
        | inl e ↦ absurd (false≢true (sym f ∙ ap (λ z. has_prefix z prefix) ((eq_iff a k).0 e) ∙ t))
        | inr e ↦ e
      ]

      final_free :
          (k j : String)
          → elem k (staged_keys prefix start) ≡ true
          → any (λ i. final_key p prefix i == j) (staged_keys prefix start) ≡ false
          → (final_key p prefix k == j) ≡ false
      final_free k j d free = elim (Bool-cases (final_key p prefix k == j)) [
        | inl q ↦ absurd (
            false≢true
              (sym free ∙ any_at (λ i. final_key p prefix i == j) k (staged_keys prefix start) d q))
        | inr q ↦ q
      ]

      -- A copy of a data file to the table
      pub copy-Moving :
          (s : List (String × B)) (k : String) (b : B)
          → Moving s
          → elem k (staged_keys prefix start) ≡ true
          → lookup k s ≡ some b
          → Moving (insert (final_key p prefix k) b s)
      copy-Moving s k b h d e =
          let at = final_key p prefix k in
          let same = λ (j : String) (t : has_prefix j prefix ≡ true).
            unread_insert at j b s (other_than at j (final_outside k d) t) in
          record {
            distinct =
                subst Distinct (sym (keys-insert at b s)) (add_key-Distinct at (keys s) h.distinct);
            inside = λ j t. elim (h.inside j t) [
              | inl n ↦ inl (same j t ∙ n)
              | inr n ↦ inr (same j t ∙ n)
            ];
            moved = λ j f n. elim (Bool-cases (k == j)) [
              | inl q ↦ absurd (
                  some-ne-none b (
                    sym e
                    ∙ ap (λ z. lookup z s) ((eq_iff k j).0 q)
                    ∙ sym (same j (staged_inside prefix start j f))
                    ∙ n))
              | inr q ↦
                  unread_insert at (final_key p prefix j) b s (final_apart k j d f q)
                  ∙ h.moved j f (sym (same j (staged_inside prefix start j f)) ∙ n)
            ];
            at_metadata = elim h.at_metadata [
              | inl n ↦ inl (unread_insert at _ b s (final_not_metadata k d) ∙ n)
              | inr n ↦ inr (unread_insert at _ b s (final_not_metadata k d) ∙ n)
            ];
            elsewhere = λ j f ne free.
                unread_insert at j b s (final_free k j d free) ∙ h.elsewhere j f ne free;
          }

      -- A deletion in the staging, of a data file once it is in the table
      pub delete-Moving :
          (s : List (String × B)) (k : String)
          → Moving s
          → has_prefix k prefix ≡ true
          → (elem k (staged_keys prefix start) ≡ true
              → lookup (final_key p prefix k) s ≡ lookup k start)
          → Moving (delete k s)
      delete-Moving s k h t there =
          let same = λ (j : String) (f : has_prefix j prefix ≡ false).
            unread_delete k j s (flip _ _ (other_than j k f t)) in
          record {
            distinct =
                subst Distinct (sym (keys-delete k s)) (without-Distinct k (keys s) h.distinct);
            inside = λ j u. elim (Bool-cases (k == j)) [
              | inl q ↦
                  inl (ap (λ z. lookup z (delete k s)) (sym ((eq_iff k j).0 q)) ∙ read_delete k s)
              | inr q ↦ elim (h.inside j u) [
                | inl n ↦ inl (unread_delete k j s q ∙ n)
                | inr n ↦ inr (unread_delete k j s q ∙ n)
              ]
            ];
            moved = λ j f n.
                same (final_key p prefix j) (final_outside j f) ∙ elim (Bool-cases (k == j)) [
                  | inl q ↦
                      subst (λ z. lookup (final_key p prefix z) s ≡ lookup z start)
                        ((eq_iff k j).0 q)
                        (there (
                          subst (λ z. elem z (staged_keys prefix start) ≡ true)
                            (sym ((eq_iff k j).0 q)) f))
                  | inr q ↦ h.moved j f (sym (unread_delete k j s q) ∙ n)
                ];
            at_metadata = elim h.at_metadata [
              | inl n ↦ inl (same _ outside ∙ n)
              | inr n ↦ inr (same _ outside ∙ n)
            ];
            elsewhere = λ j f ne free. same j f ∙ h.elsewhere j f ne free;
          }

      pub metadata-Moving :
          (s : List (String × B)) → Moving s → Moving (insert (metadata_object_key p) checkpoint s)
      metadata-Moving s h =
          let m = metadata_object_key p in
          let same = λ (j : String) (t : has_prefix j prefix ≡ true).
            unread_insert m j checkpoint s (other_than m j outside t) in
          record {
            distinct =
                subst Distinct (sym (keys-insert m checkpoint s))
                  (add_key-Distinct m (keys s) h.distinct);
            inside = λ j t. elim (h.inside j t) [
              | inl n ↦ inl (same j t ∙ n)
              | inr n ↦ inr (same j t ∙ n)
            ];
            moved = λ j f n.
                unread_insert m (final_key p prefix j) checkpoint s
                  (flip _ _ (final_not_metadata j f))
                ∙ h.moved j f (sym (same j (staged_inside prefix start j f)) ∙ n);
            at_metadata = inr (read_insert m checkpoint s);
            elsewhere = λ j f ne free.
                unread_insert m j checkpoint s (flip _ _ ne) ∙ h.elsewhere j f ne free;
          }
