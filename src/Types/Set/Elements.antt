-- ===== src/Types/Set/Elements.antt =====
-- types/set.go: what Array gives of a well-formed set.
use olake.Base.{
  some, string_eq, ◌⊎◌, suc, String, ◌≡◌, refl, sym, ap, ◌∙◌, subst, true, false, false≢true, List,
  [], ◌∷◌, arith, ◌||◌, length, elem, Distinct, All, Comparable, ◌==◌, eq_iff, Bool-cases, inl, inr,
}
use mathlib.Core.Option.{some-injective}
use olake.Base.Assoc.{lookup, lookup_present, keys, values, insert}
use olake.Types.Set.{Set, Hashing, array, len, hash_of, exists, insert_one, insert_all}
use olake.Types.Set.Invariant.{IsWf, insert_one-IsWf}

length-values {ℓ} : {A : Type ℓ} (m : List (String × A)) → length (values m) ≡ length (keys m)
length-values [] = refl
length-values ((k, v) ∷ m) = ap suc (length-values m)

module _ {ℓ} {A : Type ℓ} ⦃e : Comparable A⦄ (hash : A → String) where
  elem-keys :
      (a : A) (m : List (String × A))
      → All (λ c. hash c.1 ≡ c.0) m
      → elem a (values m) ≡ true
      → elem (hash a) (keys m) ≡ true
  elem-keys a [] w h = absurd (false≢true h)
  elem-keys a ((k, v) ∷ m) w h = elim (Bool-cases (v == a)) [
    | inl hit ↦
        let q : k ≡ hash a = sym w.0 ∙ ap hash ((e.same_iff v a).0 hit) in
        ground (arith, eq_iff k (hash a))
    | inr miss ↦ ground (arith, elem-keys a m w.1 (rw miss at h))
  ]

  values-Distinct :
      (m : List (String × A))
      → All (λ c. hash c.1 ≡ c.0) m
      → Distinct (keys m)
      → Distinct (values m)
  values-Distinct [] w d = tt
  values-Distinct ((k, v) ∷ m) w d =
      (fresh (Bool-cases (elem v (values m))), values-Distinct m w.1 d.1)
    where
      fresh : (elem v (values m) ≡ true) ⊎ (elem v (values m) ≡ false) → elem v (values m) ≡ false
      fresh (inr h) = h
      fresh (inl h) =
          absurd
            (false≢true (sym d.0 ∙ subst (λ j. elem j (keys m) ≡ true) w.0 (elem-keys v m w.1 h)))

module _ {ℓ} {A : Type ℓ} ⦃e : Comparable A⦄ (H : Hashing A) (st : Set A) (w : IsWf H st) where
  -- Array lists every element once.
  pub array-Distinct : Distinct (array st)
  array-Distinct =
      values-Distinct (hash_of H st) st.storage w.hashed (subst Distinct (sym w.synced) w.distinct)

  pub length-array : length (array st) ≡ len st
  length-array = length-values st.storage ∙ ap length w.synced

  -- What Array lists, Exists finds.
  pub exists-array : (a : A) → elem a (array st) ≡ true → exists H st a ≡ true
  unfolding exists
  exists-array a h =
      subst (λ ks. elem (hash_of H st a) ks ≡ true) w.synced
        (elem-keys (hash_of H st) a st.storage w.hashed h)

module _ {ℓ} {A : Type ℓ} ⦃e : Comparable A⦄ where
  values-insert :
      (k : String) (a b : A) (m : List (String × A))
      → elem k (keys m) ≡ false
      → elem b (values (insert k a m)) ≡ (elem b (values m) || a == b)
  unfolding insert
  values-insert k a b [] h = ground arith
  values-insert k a b ((i, v) ∷ m) h = ground (arith, values-insert k a b m)

module _ {ℓ} {A : Type ℓ} ⦃e : Comparable A⦄ (H : Hashing A) where
  elem-insert_one :
      (st : Set A) (a b : A)
      → IsWf H st
      → elem b (array st) ≡ true
      → elem b (array (insert_one H st a)) ≡ true
  unfolding insert_one exists
  elem-insert_one st a b w h = elim (Bool-cases (elem (hash_of H st a) st.hash)) [
    | inl old ↦ rw old h
    | inr new ↦ rw (new, values-insert (hash_of H st a) a b st.storage (rw w.synced new), h) refl
  ]

  -- Insert keeps what Array listed.
  pub elem-insert_all :
      (st : Set A) (as' : List A) (b : A)
      → IsWf H st
      → elem b (array st) ≡ true
      → elem b (array (insert_all H st as')) ≡ true
  unfolding insert_all
  elem-insert_all st [] b w h = h
  elem-insert_all st (a ∷ as') b w h =
      elem-insert_all (insert_one H st a) as' b (insert_one-IsWf H st a w)
        (elem-insert_one st a b w h)

elem_value {ℓ} :
    {A : Type ℓ} ⦃e : Comparable A⦄ (k : String) (a : A) (m : List (String × A))
    → lookup k m ≡ some a
    → elem a (values m) ≡ true
unfolding lookup
elem_value k a [] h = cc
elem_value ⦃e⦄ k a ((i, v) ∷ m) h = elim (Bool-cases (i == k)) [
  | inl hit ↦
      let q : v ≡ a = some-injective v a (rw hit at h) in ground (arith, (e.same_iff v a).1 q)
  | inr miss ↦ ground (arith, elem_value k a m (rw miss at h))
]

module _ {ℓ} {A : Type ℓ} ⦃e : Comparable A⦄ (H : Hashing A) where
  -- In a well-formed set Array lists an element exactly when Exists finds it, if no other has its hash.
  pub elem-array :
      (st : Set A) (a : A)
      → IsWf H st
      → ((b : A) → hash_of H st b ≡ hash_of H st a → b ≡ a)
      → elem a (array st) ≡ exists H st a
  unfolding exists
  elem-array st a w inj = elim (Bool-cases (elem (hash_of H st a) st.hash)) [
    | inr out ↦ ground (arith, exists-array H st w a)
    | inl has ↦
        let (v, found, p) =
          lookup_present (λ j v. hash_of H st v ≡ j) (hash_of H st a) st.storage w.hashed
            (subst (λ ks. elem (hash_of H st a) ks ≡ true) (sym w.synced) has) in
        let q : v ≡ a = inj v p in
        elem_value (hash_of H st a) a st.storage
          (subst (λ u. lookup (hash_of H st a) st.storage ≡ some u) q found)
        ∙ sym has
  ]
