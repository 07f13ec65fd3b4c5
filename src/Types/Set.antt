-- ===== src/Types/Set.antt =====
-- types/set.go: a set keyed by the hash of its elements, as two maps that are kept in step.
pub mod Invariant
pub mod Algebra
pub mod Elements
pub mod Reload
pub mod Plain
use olake.Base.{
  string_eq, ℕ, String, ◌≡◌, Bool, true, false, Option, none, some, List, [], ◌∷◌, ◌&&◌,
  if◌then◌else◌, length, elem, without, any, all, Distinct, All, leb, ltb,
}
use olake.Base.Assoc.{lookup, insert, delete, add_key, values}

-- What `Hash` finds out about an element type: its `Hash` or `ID` method, and the decimal text of
-- `hashstructure.Hash`, which is a package of its own (`none` is its error). `zero` is Go's zero
-- value, which a map read gives at a missing key.
pub record Hashing {ℓ} (A : Type ℓ) : Type ℓ where
  pub hashable : Option (A → String)
  pub identifiable : Option (A → String)
  pub structure_hash : A → Option String
  pub zero_value : A

-- `hash` is a map to the empty struct, so the list of its keys.
pub record Set {ℓ} (A : Type ℓ) : Type ℓ where
  pub hash : List String
  pub storage : List (String × A)
  pub func_hash : Option (A → String)

module _ {ℓ} {A : Type ℓ} where
  unfoldable pub empty : Set A
  empty = record { hash = []; storage = []; func_hash = none }

  unfoldable pub with_hasher : Set A → (A → String) → Set A
  with_hasher st f = record st { func_hash = some f }

  -- Len
  abbrev pub len : Set A → ℕ
  len st = length st.hash

  -- Array and MarshalJSON, in one of the orders in which Go may range over the map
  abbrev pub array : Set A → List A
  array st = values st.storage

  unfoldable pub clear : Set A → Set A
  clear st = record st { hash = []; storage = [] }

  -- SubsetOf, with its shortcut on the lengths
  unfoldable pub subset_of : Set A → Set A → Bool
  subset_of st set = if ltb (len set) (len st) then false else all (λ k. elem k set.hash) st.hash

  unfoldable pub proper_subset_of : Set A → Set A → Bool
  unfolding subset_of
  proper_subset_of st set = subset_of st set && ltb (len st) (len set)

module _ {ℓ} {A : Type ℓ} (H : Hashing A) where
  -- A hash that fails is the text "false".
  structural : A → String
  structural a = elim (H.structure_hash a) [ none ↦ "false" | some h ↦ h ]

  by_function : Option (A → String) → A → String
  by_function none a = structural a
  by_function (some f) a = f a

  by_identifier : Option (A → String) → Option (A → String) → A → String
  by_identifier none f a = by_function f a
  by_identifier (some i) f a = i a

  by_method : Option (A → String) → Option (A → String) → A → String
  by_method none f a = by_identifier H.identifiable f a
  by_method (some h) f a = h a

  -- Hash
  unfoldable pub hash_with : Option (A → String) → A → String
  unfolding by_method by_identifier by_function structural
  hash_with f a = by_method H.hashable f a

  abbrev pub hash_of : Set A → A → String
  hash_of st a = hash_with st.func_hash a

  unfoldable pub exists : Set A → A → Bool
  exists st a = elem (hash_of st a) st.hash

  -- One round of the loop in Insert
  unfoldable pub insert_one : Set A → A → Set A
  unfolding exists
  insert_one st a = if exists st a then st else record st {
    hash = add_key (hash_of st a) st.hash;
    storage = insert (hash_of st a) a st.storage;
  }

  -- Insert
  unfoldable pub insert_all : Set A → List A → Set A
  insert_all st [] = st
  insert_all st (a ∷ as') = insert_all (insert_one st a) as'

  -- NewSet
  unfoldable pub new_set : List A → Set A
  unfolding empty
  new_set initial = insert_all empty initial

  -- UnmarshalJSON, from the decoded array
  unfoldable pub unmarshal : List A → Set A
  unfolding empty
  unmarshal arr = insert_all empty arr

  unfoldable pub remove : Set A → A → Set A
  remove st a = record st {
    hash = without (hash_of st a) st.hash;
    storage = delete (hash_of st a) st.storage;
  }

  -- `st.storage[k]`
  unfoldable pub stored : Set A → String → A
  stored st k = elim (lookup k st.storage) [ none ↦ H.zero_value | some a ↦ a ]

  unfoldable pub difference_loop : Set A → Set A → List String → Set A → Set A
  difference_loop st set [] acc = acc
  difference_loop st set (k ∷ ks) acc =
      difference_loop st set ks (if elem k set.hash then acc else insert_one acc (stored st k))

  unfoldable pub difference : Set A → Set A → Set A
  unfolding difference_loop empty
  difference st set = difference_loop st set st.hash empty

  unfoldable pub intersection_loop : Set A → Set A → List String → Set A → Set A
  intersection_loop st set [] acc = acc
  intersection_loop st set (k ∷ ks) acc =
      intersection_loop st set ks (if elem k set.hash then insert_one acc (stored set k) else acc)

  unfoldable pub intersection : Set A → Set A → Set A
  unfolding intersection_loop empty
  intersection st set = intersection_loop st set st.hash empty

  unfoldable pub union_loop : Set A → List String → Set A → Set A
  union_loop st [] acc = acc
  union_loop st (k ∷ ks) acc = union_loop st ks (insert_one acc (stored st k))

  unfoldable pub union : Set A → Set A → Set A
  unfolding union_loop empty
  union st set = union_loop set set.hash (union_loop st st.hash empty)
