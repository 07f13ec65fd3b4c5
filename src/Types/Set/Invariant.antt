-- ===== src/Types/Set/Invariant.antt =====
-- types/set.go: the two maps of a set stay in step, under every operation.
use olake.Base.{
  string_eq, ◌+◌, String, ◌≡◌, refl, ap, ◌∙◌, true, not, ◌||◌, ◌&&◌, List, [], ◌∷◌, map, arith,
  if◌then◌else◌, elem, without, Distinct, All, ◌==◌, eq_iff, without-Distinct, elem-without,
  length-without, Bool-cases, inl, inr,
}
use olake.Base.Assoc.{
  keys, add_key, keys-insert, keys-delete, insert-All, delete-All, add_key-Distinct, elem-add_key,
  length-add_key, lookup_present,
}
use olake.Types.Set.{
  Set, Hashing, empty, len, hash_of, exists, insert_one, insert_all, new_set, remove, stored,
}

module _ {ℓ} {A : Type ℓ} (H : Hashing A) where
  -- The two maps have the same keys, none twice, and an element is stored under its own hash.
  pub record IsWf (st : Set A) : Type ℓ where
    pub distinct : Distinct st.hash
    pub synced : keys st.storage ≡ st.hash
    pub hashed : All (λ e. hash_of H st e.1 ≡ e.0) st.storage

module _ {ℓ} {A : Type ℓ} (H : Hashing A) where
  pub empty-IsWf : IsWf H empty
  unfolding empty
  empty-IsWf = record { distinct = tt; synced = refl; hashed = tt }

  pub insert_one-IsWf : (st : Set A) (a : A) → IsWf H st → IsWf H (insert_one H st a)
  unfolding insert_one
  insert_one-IsWf st a w = elim (Bool-cases (elem (hash_of H st a) st.hash)) [
    | inl old ↦ rw old w
    | inr new ↦ rw new (record {
      distinct = add_key-Distinct (hash_of H st a) st.hash w.distinct;
      synced = keys-insert (hash_of H st a) a st.storage ∙ ap (add_key (hash_of H st a)) w.synced;
      hashed = insert-All _ (hash_of H st a) a st.storage refl w.hashed;
    })
  ]

  -- Insert keeps the two maps of a set in step, and each element under its hash.
  pub insert_all-IsWf : (st : Set A) (as' : List A) → IsWf H st → IsWf H (insert_all H st as')
  unfolding insert_all
  insert_all-IsWf st [] w = w
  insert_all-IsWf st (a ∷ as') w = insert_all-IsWf (insert_one H st a) as' (insert_one-IsWf st a w)

  pub new_set-IsWf : (initial : List A) → IsWf H (new_set H initial)
  unfolding new_set
  new_set-IsWf initial = insert_all-IsWf empty initial empty-IsWf

  -- So does Remove: the two maps have the same keys, none twice, and elements under their hashes.
  pub remove-IsWf : (st : Set A) (a : A) → IsWf H st → IsWf H (remove H st a)
  unfolding remove
  remove-IsWf st a w = record {
    distinct = without-Distinct (hash_of H st a) st.hash w.distinct;
    synced = keys-delete (hash_of H st a) st.storage ∙ ap (without (hash_of H st a)) w.synced;
    hashed = delete-All _ (hash_of H st a) st.storage w.hashed;
  }

  -- A read at a key of the set gives an element with that hash, never Go's zero value.
  pub stored-hash :
      (st : Set A) (k : String)
      → IsWf H st
      → elem k st.hash ≡ true
      → hash_of H st (stored H st k) ≡ k
  unfolding stored
  stored-hash st k w h =
      let (v, found, p) =
        lookup_present (λ j v. hash_of H st v ≡ j) k st.storage w.hashed (rw w.synced h) in
      rw (found, stored) p

  pub func_hash-insert_one : (st : Set A) (a : A) → (insert_one H st a).func_hash ≡ st.func_hash
  unfolding insert_one
  func_hash-insert_one st a = ground arith

  pub func_hash-insert_all :
      (st : Set A) (as' : List A) → (insert_all H st as').func_hash ≡ st.func_hash
  unfolding insert_all
  func_hash-insert_all st [] = refl
  func_hash-insert_all st (a ∷ as') =
      func_hash-insert_all (insert_one H st a) as' ∙ func_hash-insert_one st a

  pub hash-insert_one :
      (st : Set A) (a : A) (k : String)
      → elem k (insert_one H st a).hash ≡ (hash_of H st a == k || elem k st.hash)
  unfolding insert_one
  hash-insert_one st a k =
      ground (arith, elem-add_key (hash_of H st a) k st.hash, eq_iff (hash_of H st a) k)

  -- Insert adds the hashes of its arguments and no other.
  pub hash-insert_all :
      (st : Set A) (as' : List A) (k : String)
      → elem k (insert_all H st as').hash ≡ (elem k st.hash || elem k (map (hash_of H st) as'))
  unfolding insert_all
  hash-insert_all st [] k = ground arith
  hash-insert_all st (a ∷ as') k =
      hash-insert_all (insert_one H st a) as' k
      ∙ rw (func_hash-insert_one, hash-insert_one) (ground arith)

  -- After Insert an element is there when it was before, or one with its hash was inserted.
  pub exists-insert_all :
      (st : Set A) (as' : List A) (b : A)
      → exists H (insert_all H st as') b
        ≡ (exists H st b || elem (hash_of H st b) (map (hash_of H st) as'))
  unfolding exists
  exists-insert_all st as' b = rw func_hash-insert_all (hash-insert_all st as' (hash_of H st b))

  -- Remove takes out the elements of one hash and no other.
  pub exists-remove :
      (st : Set A) (a b : A)
      → exists H (remove H st a) b ≡ (exists H st b && not (hash_of H st a == hash_of H st b))
  unfolding exists remove
  exists-remove st a b = elem-without (hash_of H st a) (hash_of H st b) st.hash

  pub len-insert_one :
      (st : Set A) (a : A) → len (insert_one H st a) ≡ len st + (if exists H st a then 0 else 1)
  unfolding insert_one
  len-insert_one st a = ground (arith, length-add_key (hash_of H st a) st.hash)

  -- In a well-formed set Remove takes one from the length exactly when the element was there.
  pub len-remove :
      (st : Set A) (a : A)
      → IsWf H st
      → len (remove H st a) + (if exists H st a then 1 else 0) ≡ len st
  unfolding remove exists
  len-remove st a w = length-without (hash_of H st a) st.hash w.distinct
