-- ===== src/Types/Set/Algebra.antt =====
-- types/set.go: Difference, Intersection, Union and the subset tests against membership of keys.
-- The sets that the algebra builds have no hash function of their own, so the laws ask that the
-- operands have none: Insert then finds an element under the key that it had.
use olake.Base.{
  string_eq, ◌<◌, String, ◌≡◌, ◌↔◌, refl, sym, ap, ◌∙◌, subst, true, not, ◌||◌, ◌&&◌, none, List,
  [], ◌∷◌, arith, elem, all, ◌==◌, eq_iff, Bool-cases, inl, inr, ltb_iff, length-le_of_subset,
}
use olake.Types.Set.{
  Set, Hashing, empty, len, hash_with, insert_one, stored, subset_of, proper_subset_of,
  difference_loop, difference, intersection_loop, intersection, union_loop, union,
}
use olake.Types.Set.Invariant.{IsWf, stored-hash, hash-insert_one, func_hash-insert_one}

all-elem :
    (ks js : List String) (k : String)
    → all (λ i. elem i js) ks ≡ true
    → elem k ks ≡ true
    → elem k js ≡ true
all-elem [] js k a h = ground arith
all-elem (i ∷ ks) js k a h = ground (arith, eq_iff i k, all-elem ks js k)

elem-all :
    (ks js : List String)
    → ((k : String) → elem k ks ≡ true → elem k js ≡ true)
    → all (λ i. elem i js) ks ≡ true
elem-all [] js sub = refl
elem-all (i ∷ ks) js sub =
    ground (arith, sub i, eq_iff i i, elem-all ks js (λ k h. sub k (ground arith)))

module _ {ℓ} {A : Type ℓ} (H : Hashing A) where
  -- For a set whose two maps are in step the shortcut on the lengths loses nothing: SubsetOf is
  -- inclusion of the keys.
  pub subset_of_iff :
      (st set : Set A)
      → IsWf H st
      → (subset_of st set ≡ true) ↔ ((k : String) → elem k st.hash ≡ true → elem k set.hash ≡ true)
  unfolding subset_of
  subset_of_iff st set w = (
    λ h k m. all-elem st.hash set.hash k (ground arith) m,
    λ sub.
        let short = length-le_of_subset st.hash set.hash w.distinct sub in
        let inside = elem-all st.hash set.hash sub in ground (arith, ltb_iff (len set) (len st)),
  )

  proper_subset_of_iff :
      (st set : Set A)
      → (proper_subset_of st set ≡ true) ↔ ((subset_of st set ≡ true) × (len st < len set))
  unfolding proper_subset_of
  proper_subset_of_iff st set = ground (arith, ltb_iff (len st) (len set))

  insert_own :
      (acc : Set A) (a : A) (j k : String)
      → acc.func_hash ≡ none
      → hash_with H none a ≡ j
      → elem k (insert_one H acc a).hash ≡ (j == k || elem k acc.hash)
  insert_own acc a j k plain own =
      hash-insert_one H acc a k
      ∙ ap (λ i. i == k || elem k acc.hash) (subst (λ f. hash_with H f a ≡ j) (sym plain) own)

  plain-insert_one :
      (acc : Set A) (a : A) → acc.func_hash ≡ none → (insert_one H acc a).func_hash ≡ none
  plain-insert_one acc a plain = func_hash-insert_one H acc a ∙ plain

module _ {ℓ} {A : Type ℓ} (H : Hashing A) (st : Set A) where
  -- The elements that `st` holds under the keys `ks` have those keys as their hashes.
  abbrev Own : List String → Type 0
  Own ks = (j : String) → elem j ks ≡ true → hash_with H none (stored H st j) ≡ j

  Own-tail : (i : String) (ks : List String) → Own (i ∷ ks) → Own ks
  Own-tail i ks own j h = own j (ground arith)

  Own-head : (i : String) (ks : List String) → Own (i ∷ ks) → hash_with H none (stored H st i) ≡ i
  Own-head i ks own = own i (ground (arith, eq_iff i i))

  Own-hash : IsWf H st → st.func_hash ≡ none → Own st.hash
  Own-hash w plain j h =
      subst (λ f. hash_with H f (stored H st j) ≡ j) plain (stored-hash H st j w h)

  difference_loop-hash :
      (set : Set A) (ks : List String) (acc : Set A) (k : String)
      → Own ks
      → acc.func_hash ≡ none
      → elem k (difference_loop H st set ks acc).hash
        ≡ (elem k acc.hash || (elem k ks && not (elem k set.hash)))
  unfolding difference_loop
  difference_loop-hash set [] acc k own plain = ground arith
  difference_loop-hash set (j ∷ ks) acc k own plain = elim (Bool-cases (elem j set.hash)) [
    | inl held ↦
        rw (held, difference_loop)
          (difference_loop-hash set ks acc k (Own-tail j ks own) plain
            ∙ ground (arith, held, eq_iff j k))
    | inr gone ↦
        rw (gone, difference_loop)
          (difference_loop-hash set ks (insert_one H acc (stored H st j)) k (Own-tail j ks own)
              (plain-insert_one H acc (stored H st j) plain)
            ∙ ground (
              arith,
              gone,
              eq_iff j k,
              insert_own H acc (stored H st j) j k plain (Own-head j ks own),
            ))
  ]

  union_loop-hash :
      (ks : List String) (acc : Set A) (k : String)
      → Own ks
      → acc.func_hash ≡ none
      → (elem k (union_loop H st ks acc).hash ≡ (elem k acc.hash || elem k ks))
        × ((union_loop H st ks acc).func_hash ≡ none)
  unfolding union_loop
  union_loop-hash [] acc k own plain = (ground arith, plain)
  union_loop-hash (j ∷ ks) acc k own plain =
      let ih =
        union_loop-hash ks (insert_one H acc (stored H st j)) k (Own-tail j ks own)
          (plain-insert_one H acc (stored H st j) plain) in
      (
        ih.0
            ∙ ground
                (arith, eq_iff j k, insert_own H acc (stored H st j) j k plain (Own-head j ks own)),
        ih.1,
      )

module _ {ℓ} {A : Type ℓ} (H : Hashing A) (set : Set A) where
  intersection_loop-hash :
      (st : Set A) (ks : List String) (acc : Set A) (k : String)
      → Own H set set.hash
      → acc.func_hash ≡ none
      → elem k (intersection_loop H st set ks acc).hash
        ≡ (elem k acc.hash || (elem k ks && elem k set.hash))
  unfolding intersection_loop
  intersection_loop-hash st [] acc k own plain = ground arith
  intersection_loop-hash st (j ∷ ks) acc k own plain = elim (Bool-cases (elem j set.hash)) [
    | inl held ↦
        rw (held, intersection_loop)
          (intersection_loop-hash st ks (insert_one H acc (stored H set j)) k own
              (plain-insert_one H acc (stored H set j) plain)
            ∙ ground
                (arith, held, eq_iff j k, insert_own H acc (stored H set j) j k plain (own j held)))
    | inr gone ↦
        rw (gone, intersection_loop)
          (intersection_loop-hash st ks acc k own plain ∙ ground (arith, gone, eq_iff j k))
  ]

plain_empty {ℓ} : {A : Type ℓ} → (empty {A = A}).func_hash ≡ none
unfolding empty
plain_empty = refl

module _ {ℓ} {A : Type ℓ} (H : Hashing A) where
  -- For well-formed sets without a hash function of their own, Difference, Intersection and Union
  -- hold exactly the keys that the set operations of those names prescribe.
  pub algebra_keys :
      (st set : Set A) (k : String)
      → IsWf H st
      → IsWf H set
      → st.func_hash ≡ none
      → set.func_hash ≡ none
      → (elem k (difference H st set).hash ≡ (elem k st.hash && not (elem k set.hash)))
        × (elem k (intersection H st set).hash ≡ (elem k st.hash && elem k set.hash))
        × (elem k (union H st set).hash ≡ (elem k st.hash || elem k set.hash))
  unfolding difference intersection union empty
  algebra_keys st set k w w' plain plain' = (
    difference_loop-hash H st set st.hash empty k (Own-hash H st w plain) plain_empty,
    intersection_loop-hash H set st st.hash empty k (Own-hash H set w' plain') plain_empty,
    let first = union_loop-hash H st st.hash empty k (Own-hash H st w plain) plain_empty in
        (union_loop-hash H set set.hash (union_loop H st st.hash empty) k (Own-hash H set w' plain')
          first.1).0
        ∙ ap (λ b. b || elem k set.hash) first.0,
  )
