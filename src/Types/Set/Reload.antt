-- ===== src/Types/Set/Reload.antt =====
-- types/set.go: MarshalJSON and UnmarshalJSON, a set written as its array and read again.
use olake.Base.{
  String, ◌≡◌, refl, sym, ap, ap₂, ◌∙◌, subst, false, none, List, [], ◌∷◌, ◌++◌, map, arith, elem,
  Distinct, All, string_eq, eq_iff, append_assoc, append_nil, elem-append,
}
use olake.Base.Assoc.{keys, values, add_key}
use olake.Types.Set.{
  Set, Hashing, hash_of, hash_with, insert_all, insert_one, empty, exists, array, unmarshal,
}
use olake.Types.Set.Invariant.{IsWf, func_hash-insert_one}

add_key_absent : (k : String) (ks : List String) → elem k ks ≡ false → add_key k ks ≡ ks ++ k ∷ []
add_key_absent k [] h = refl
add_key_absent k (j ∷ ks) h = ground (arith, add_key_absent k ks)

middle_absent : (h : String) (ks js : List String) → Distinct (ks ++ h ∷ js) → elem h ks ≡ false
middle_absent h [] js d = refl
middle_absent h (k ∷ ks) js d =
    ground (arith, elem-append k ks (h ∷ js), eq_iff h k, eq_iff k h, middle_absent h ks js d.1)

map-values :
    {A : Type 0} (hash : A → String) (m : List (String × A))
    → All (λ e. hash e.1 ≡ e.0) m
    → map hash (values m) ≡ keys m
map-values hash [] a = refl
map-values hash ((k, v) ∷ m) a = ap₂ (◌∷◌) a.0 (map-values hash m a.1)

module _ {A : Type 0} (H : Hashing A) where
  hash-insert_one_fresh :
      (st : Set A) (x : A)
      → elem (hash_of H st x) st.hash ≡ false
      → (insert_one H st x).hash ≡ st.hash ++ hash_of H st x ∷ []
  unfolding insert_one exists
  hash-insert_one_fresh st x out = rw out (add_key_absent (hash_of H st x) st.hash out)

  -- Elements with hashes of their own are all inserted, in order.
  hash-insert_all_fresh :
      (st : Set A) (xs : List A)
      → Distinct (st.hash ++ map (hash_of H st) xs)
      → (insert_all H st xs).hash ≡ st.hash ++ map (hash_of H st) xs
  unfolding insert_all
  hash-insert_all_fresh st [] d = sym (append_nil st.hash)
  hash-insert_all_fresh st (x ∷ xs) d =
      let out = middle_absent (hash_of H st x) st.hash (map (hash_of H st) xs) d in
      let e : (insert_one H st x).hash ++ map (hash_of H (insert_one H st x)) xs
          ≡ st.hash ++ hash_of H st x ∷ map (hash_of H st) xs =
        ap₂ (λ ks f. ks ++ map (hash_with H f) xs) (hash-insert_one_fresh st x out)
          (func_hash-insert_one H st x)
        ∙ append_assoc st.hash (hash_of H st x ∷ []) (map (hash_of H st) xs) in
      hash-insert_all_fresh (insert_one H st x) xs (subst Distinct (sym e) d) ∙ e

  -- A well-formed set without a hash function of its own, written as its array and read again, has
  -- the same keys in the same order, and so the same length and elements.
  pub unmarshal-array :
      (st : Set A) → IsWf H st → st.func_hash ≡ none → (unmarshal H (array st)).hash ≡ st.hash
  unfolding unmarshal empty
  unmarshal-array st w plain =
      let e : map (hash_with H none) (array st) ≡ st.hash =
        ap (λ f. map (hash_with H f) (array st)) (sym plain)
        ∙ map-values (hash_of H st) st.storage w.hashed
        ∙ w.synced in
      hash-insert_all_fresh empty (array st) (subst Distinct (sym e) w.distinct) ∙ e
