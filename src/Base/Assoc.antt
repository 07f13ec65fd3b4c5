-- ===== src/Base/Assoc.antt =====
-- Go maps as association lists: reads, writes and deletes, and their laws. The order of the
-- entries stands for the unspecified order of a Go `range` over a map.
use olake.Base.Test.{Comparable, ◌==◌, if◌then◌else◌, Bool-cases}
use olake.Base.Lists.{length, elem, Distinct, without, All}
use Prim.Native.Nat.{◌+◌}
use mathlib.Core.Path.{◌≡◌, refl, sym, subst}
use mathlib.Core.Bool.{true, false, ◌||◌, false≢true}
use mathlib.Core.Logic.{inl, inr}
use mathlib.Core.Option.{Option, none, some, some-injective, some-ne-none}
use mathlib.Core.List.{List, [], ◌∷◌}
use native.Mathlib.Omega.{arith}

module _ {ℓ} {K : Type ℓ} ⦃e : Comparable K⦄ where
  -- A write to a map that holds keys alone.
  abbrev pub add_key : K → List K → List K
  add_key k [] = k ∷ []
  add_key k (j ∷ m) = if j == k then k ∷ m else j ∷ add_key k m

module _ {ℓ κ} {K : Type ℓ} {V : Type κ} where
  abbrev pub keys : List (K × V) → List K
  keys [] = []
  keys ((k, v) ∷ m) = k ∷ keys m

  abbrev pub values : List (K × V) → List V
  values [] = []
  values ((k, v) ∷ m) = v ∷ values m

module _ {ℓ κ} {K : Type ℓ} {V : Type κ} ⦃e : Comparable K⦄ where
  unfoldable pub lookup : K → List (K × V) → Option V
  lookup key [] = none
  lookup key ((other, w) ∷ rest) = if other == key then some w else lookup key rest

  unfoldable pub insert : K → V → List (K × V) → List (K × V)
  insert key v [] = (key, v) ∷ []
  insert key v ((other, w) ∷ rest) =
      if other == key then (key, v) ∷ rest else (other, w) ∷ insert key v rest

  unfoldable pub delete : K → List (K × V) → List (K × V)
  delete key [] = []
  delete key ((other, w) ∷ rest) =
      let left = delete key rest in if other == key then left else (other, w) ∷ left

  pub lookup-insert :
      (key read : K) (v : V) (m : List (K × V))
      → lookup read (insert key v m) ≡ (if key == read then some v else lookup read m)
  unfolding insert lookup
  lookup-insert key read v [] = refl
  lookup-insert key read v ((other, w) ∷ rest) = ground (
    arith,
    lookup-insert key read v rest,
    e.same_iff other key,
    e.same_iff other read,
    e.same_iff key read,
  )

  pub lookup-delete :
      (k j : K) (m : List (K × V)) → lookup j (delete k m) ≡ (if k == j then none else lookup j m)
  unfolding lookup delete
  lookup-delete k j [] = ground arith
  lookup-delete k j ((i, w) ∷ m) =
      ground (arith, e.same_iff k j, e.same_iff i k, e.same_iff i j, lookup-delete k j m)

  pub keys-delete : (k : K) (m : List (K × V)) → keys (delete k m) ≡ without k (keys m)
  unfolding delete
  keys-delete k [] = refl
  keys-delete k ((i, w) ∷ m) = ground (arith, keys-delete k m)

  pub keys-insert : (k : K) (v : V) (m : List (K × V)) → keys (insert k v m) ≡ add_key k (keys m)
  unfolding insert
  keys-insert k v [] = refl
  keys-insert k v ((i, w) ∷ m) = ground (arith, keys-insert k v m)

  pub lookup_absent : (k : K) (m : List (K × V)) → elem k (keys m) ≡ false → lookup k m ≡ none
  unfolding lookup
  lookup_absent k [] h = refl
  lookup_absent k ((i, w) ∷ m) h = ground (arith, lookup_absent k m)

  -- A key that is there has a value, and an entry with a property of its own.
  pub lookup_present :
      (P : K → V → Type 0) (k : K) (m : List (K × V))
      → All (λ e. P e.0 e.1) m
      → elem k (keys m) ≡ true
      → (v : V) × (lookup k m ≡ some v) × P k v
  unfolding lookup
  lookup_present P k [] a h = absurd (false≢true h)
  lookup_present P k ((i, w) ∷ m) a h = elim (Bool-cases (i == k)) [
    | inl hit ↦ (w, rw hit, subst (λ j. P j w) ((e.same_iff i k).0 hit) a.0)
    | inr miss ↦
        let (v, found, p) = lookup_present P k m a.1 (rw miss at h) in (v, rw miss found, p)
  ]

  -- An entry that is found has what every entry has.
  pub lookup-All :
      (P : K → V → Type 0) (k : K) (v : V) (m : List (K × V))
      → All (λ e. P e.0 e.1) m
      → lookup k m ≡ some v
      → P k v
  unfolding lookup
  lookup-All P k v [] a h = absurd (some-ne-none v (sym h))
  lookup-All P k v ((i, w) ∷ m) a h = elim (Bool-cases (i == k)) [
    | inl hit ↦
        let q : w ≡ v = some-injective w v (rw hit at h) in
        subst (P k) q (subst (λ j. P j w) ((e.same_iff i k).0 hit) a.0)
    | inr miss ↦ lookup-All P k v m a.1 (rw miss at h)
  ]

  pub insert-All :
      (P : K × V → Type 0) (k : K) (v : V) (m : List (K × V))
      → P (k, v)
      → All P m
      → All P (insert k v m)
  unfolding insert
  insert-All P k v [] p a = (p, tt)
  insert-All P k v ((i, w) ∷ m) p a = ground (arith, insert-All P k v m p a.1)

  pub delete-All : (P : K × V → Type 0) (k : K) (m : List (K × V)) → All P m → All P (delete k m)
  unfolding delete
  delete-All P k [] a = tt
  delete-All P k ((i, w) ∷ m) a = ground (arith, delete-All P k m a.1)

module _ {ℓ} {K : Type ℓ} ⦃e : Comparable K⦄ where
  pub elem-add_key : (k j : K) (ks : List K) → elem j (add_key k ks) ≡ (k == j || elem j ks)
  elem-add_key k j [] = refl
  elem-add_key k j (i ∷ ks) = ground (arith, e.same_iff i k, elem-add_key k j ks)

  pub add_key-Distinct : (k : K) (ks : List K) → Distinct ks → Distinct (add_key k ks)
  add_key-Distinct k [] d = (refl, tt)
  add_key-Distinct k (i ∷ ks) d =
      ground (arith, add_key-Distinct k ks d.1, elem-add_key k i ks, e.same_iff i k, e.same_iff k i)

  pub length-add_key :
      (k : K) (ks : List K) → length (add_key k ks) ≡ length ks + (if elem k ks then 0 else 1)
  length-add_key k [] = omega arith
  length-add_key k (i ∷ ks) = ground (arith, length-add_key k ks)
