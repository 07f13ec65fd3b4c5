-- ===== src/Utils/Arrays.antt =====
-- utils/utils.go: searches in slices. The index -1 of a failed search is `none`.
use olake.Base.{
  ℕ, zero, suc, ◌<◌, ◌≡◌, refl, sym, Bool, true, false, Option, none, some, List, [], ◌∷◌, arith,
  if◌then◌else◌, length, find,
}
use mathlib.Core.Option
use mathlib.Core.Option.{some-injective, some-ne-none}

module _ {ℓ} {A : Type ℓ} where
  unfoldable pub array_contains : List A → (A → Bool) → Option ℕ
  array_contains [] p = none
  array_contains (x ∷ xs) p = if p x then some 0 else Option.map suc (array_contains xs p)

  -- `append(s[:i], s[i+1:]...)`
  abbrev pub remove_at : ℕ → List A → List A
  remove_at i [] = []
  remove_at zero (x ∷ xs) = xs
  remove_at (suc i) (x ∷ xs) = x ∷ remove_at i xs

  -- `s[i]`, where the index is in range
  abbrev pub get_elem? : List A → ℕ → Option A
  get_elem? [] i = none
  get_elem? (x ∷ xs) zero = some x
  get_elem? (x ∷ xs) (suc i) = get_elem? xs i

  -- A change of `s[i]` in place
  abbrev pub modify : ℕ → (A → A) → List A → List A
  modify i f [] = []
  modify zero f (x ∷ xs) = f x ∷ xs
  modify (suc i) f (x ∷ xs) = x ∷ modify i f xs

  -- The element that a search finds is the first that passes.
  pub get-array_contains :
      (xs : List A) (p : A → Bool) (i : ℕ)
      → array_contains xs p ≡ some i
      → get_elem? xs i ≡ find p xs
  unfolding array_contains
  get-array_contains [] p i h = cc
  get-array_contains (x ∷ xs) p zero h = ground arith
  get-array_contains (x ∷ xs) p (suc i) h = ground (arith, get-array_contains xs p i)

  pub find-none : (xs : List A) (p : A → Bool) → array_contains xs p ≡ none → find p xs ≡ none
  unfolding array_contains
  find-none [] p h = refl
  find-none (x ∷ xs) p h = ground (arith, find-none xs p)

  -- The index that a search gives is in range.
  pub array_contains-get :
      (xs : List A) (p : A → Bool) (i : ℕ)
      → array_contains xs p ≡ some i
      → (get_elem? xs i ≡ none)
      → false ≡ true
  unfolding array_contains
  array_contains-get [] p i h = cc
  array_contains-get (x ∷ xs) p zero h = ground arith
  array_contains-get (x ∷ xs) p (suc i) h = ground (arith, array_contains-get xs p i)

  -- The element at the index that a search gives passes, and the index is in range.
  pub array_contains-passes :
      (xs : List A) (p : A → Bool) (i : ℕ)
      → array_contains xs p ≡ some i
      → (x : A) × (get_elem? xs i ≡ some x) × (p x ≡ true) × (i < length xs)
  unfolding array_contains
  array_contains-passes [] p i h = absurd (some-ne-none i (sym h))
  array_contains-passes (x ∷ xs) p zero h = (x, refl, ground arith, omega arith)
  array_contains-passes (x ∷ xs) p (suc i) h =
      let (y, at, pass, lt) = array_contains-passes xs p i (ground arith) in
      (y, at, pass, omega arith)
