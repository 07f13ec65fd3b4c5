-- ===== src/Base/Search.antt =====
-- What Boolean searches of a list say of its elements.
use olake.Base.Test.{Comparable, ◌==◌, ==-refl, Bool-cases}
use olake.Base.Lists.{elem, Distinct, filterb, all, any, All}
use olake.Base.Assoc.{lookup, keys}
use mathlib.Core.Path.{◌≡◌, refl, ap}
use mathlib.Core.Bool.{Bool, true, ◌&&◌, false≢true}
use mathlib.Core.Logic.{inl, inr}
use mathlib.Core.Option.{some}
use mathlib.Core.List.{List, [], ◌∷◌}
use native.Mathlib.Omega.{arith}

module _ {ℓ} {A : Type ℓ} ⦃e : Comparable A⦄ where
  pub elem-filterb :
      (p : A → Bool) (a : A) (xs : List A) → elem a (filterb p xs) ≡ (p a && elem a xs)
  elem-filterb p a [] = ground arith
  elem-filterb p a (x ∷ xs) = elim (Bool-cases (x == a)) [
    | inl hit ↦ ground (arith, elem-filterb p a xs, ap p ((e.same_iff x a).0 hit))
    | inr miss ↦ ground (arith, elem-filterb p a xs)
  ]

  pub filterb-Distinct : (p : A → Bool) (xs : List A) → Distinct xs → Distinct (filterb p xs)
  filterb-Distinct p [] d = tt
  filterb-Distinct p (x ∷ xs) d = ground (arith, filterb-Distinct p xs d.1, elem-filterb p x xs)

  pub all_at :
      (p : A → Bool) (a : A) (xs : List A) → all p xs ≡ true → elem a xs ≡ true → p a ≡ true
  all_at p a [] h k = absurd (false≢true k)
  all_at p a (x ∷ xs) h k = elim (Bool-cases (x == a)) [
    | inl hit ↦ ground (arith, ap p ((e.same_iff x a).0 hit))
    | inr miss ↦ ground (arith, all_at p a xs)
  ]

  pub any_at :
      (p : A → Bool) (a : A) (xs : List A) → elem a xs ≡ true → p a ≡ true → any p xs ≡ true
  any_at p a [] k h = absurd (false≢true k)
  any_at p a (x ∷ xs) k h = elim (Bool-cases (x == a)) [
    | inl hit ↦ ground (arith, ap p ((e.same_iff x a).0 hit))
    | inr miss ↦ ground (arith, any_at p a xs)
  ]

  pub All_of {κ} : (P : A → Type κ) (xs : List A) → ((a : A) → elem a xs ≡ true → P a) → All P xs
  All_of P [] h = tt
  All_of P (x ∷ xs) h = (h x (ground (arith, ==-refl x)), All_of P xs (λ a k. h a (ground arith)))

module _ {ℓ κ} {K : Type ℓ} {V : Type κ} ⦃e : Comparable K⦄ where
  pub elem_of_lookup :
      (k : K) (v : V) (m : List (K × V)) → lookup k m ≡ some v → elem k (keys m) ≡ true
  unfolding lookup
  elem_of_lookup k v [] h = cc
  elem_of_lookup k v ((i, w) ∷ m) h = elim (Bool-cases (i == k)) [
    | inl hit ↦ rw hit refl
    | inr miss ↦ rw miss (elem_of_lookup k v m (rw miss at h))
  ]

  pub lookup_of_elem :
      (k : K) (m : List (K × V)) → elem k (keys m) ≡ true → (v : V) × (lookup k m ≡ some v)
  unfolding lookup
  lookup_of_elem k [] h = absurd (false≢true h)
  lookup_of_elem k ((i, w) ∷ m) h = elim (Bool-cases (i == k)) [
    | inl hit ↦ (w, rw hit refl)
    | inr miss ↦ let (v, f) = lookup_of_elem k m (rw miss at h) in (v, rw miss f)
  ]
