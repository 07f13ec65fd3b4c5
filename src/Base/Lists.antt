-- ===== src/Base/Lists.antt =====
-- Lists measured by native numbers, and the Boolean searches of Go's `slices` and `utils`.
use Prim.Native.Nat.{ℕ, suc, ◌+◌, ◌≤◌, ◌<◌}
use mathlib.Core.Path.{◌≡◌, refl, ap, sym, ◌∙◌, subst}
use mathlib.Core.Logic.{inl, inr}
use mathlib.Core.Bool.{Bool, true, false, not, ◌&&◌, ◌||◌, false≢true}
use mathlib.Core.List.{List, [], ◌∷◌, ◌++◌, map}
use mathlib.Core.Option.{Option, none, some}
use native.Mathlib.Omega.{arith}
use olake.Base.Test.{Comparable, ◌==◌, if◌then◌else◌, ==-refl, Bool-cases}

module _ {ℓ} {A : Type ℓ} where
  abbrev pub length : List A → ℕ
  length [] = 0
  length (x ∷ xs) = suc (length xs)

  pub length-append : (xs ys : List A) → length (xs ++ ys) ≡ length xs + length ys
  length-append [] ys = omega arith
  length-append (x ∷ xs) ys = omega (arith, length-append xs ys)

  abbrev pub is_nil : List A → Bool
  is_nil [] = true
  is_nil (x ∷ xs) = false

  -- The first element that passes, as `slices.IndexFunc` with the element itself.
  abbrev pub find : (A → Bool) → List A → Option A
  find p [] = none
  find p (x ∷ xs) = if p x then some x else find p xs

  abbrev pub filterb : (A → Bool) → List A → List A
  filterb p [] = []
  filterb p (x ∷ xs) = let rest = filterb p xs in if p x then x ∷ rest else rest

  abbrev pub any : (A → Bool) → List A → Bool
  any p [] = false
  any p (x ∷ xs) = p x || any p xs

  abbrev pub all : (A → Bool) → List A → Bool
  all p [] = true
  all p (x ∷ xs) = p x && all p xs

  -- A predicate on every element, by recursion.
  abbrev pub All {κ} : (A → Type κ) → List A → Type κ
  All P [] = Unit
  All P (x ∷ xs) = P x × All P xs

-- Membership as Go tests it, `slices.Contains`.
module _ {ℓ} {A : Type ℓ} ⦃e : Comparable A⦄ where
  abbrev pub elem : A → List A → Bool
  elem a [] = false
  elem a (x ∷ xs) = x == a || elem a xs

  -- No element stands twice.
  abbrev pub Distinct : List A → Type 0
  Distinct [] = Unit
  Distinct (x ∷ xs) = (elem x xs ≡ false) × Distinct xs

  -- Without the first occurrence.
  abbrev pub without : A → List A → List A
  without a [] = []
  without a (x ∷ xs) = let rest = without a xs in if x == a then rest else x ∷ rest

pub length-map {ℓ κ} :
    {A : Type ℓ} {B : Type κ} (f : A → B) (xs : List A) → length (map f xs) ≡ length xs
length-map f [] = refl
length-map f (x ∷ xs) = ap suc (length-map f xs)

module _ {ℓ} {A : Type ℓ} ⦃e : Comparable A⦄ where
  pub elem-without : (a b : A) (xs : List A) → elem b (without a xs) ≡ (elem b xs && not (a == b))
  elem-without a b [] = refl
  elem-without a b (x ∷ xs) =
      ground (arith, e.same_iff a b, e.same_iff x a, e.same_iff x b, elem-without a b xs)

  pub without-Distinct : (a : A) (xs : List A) → Distinct xs → Distinct (without a xs)
  without-Distinct a [] d = tt
  without-Distinct a (x ∷ xs) d =
      ground (arith, without-Distinct a xs d.1, elem-without a x xs, e.same_iff x a)

  pub without_absent : (a : A) (xs : List A) → elem a xs ≡ false → without a xs ≡ xs
  without_absent a [] h = refl
  without_absent a (x ∷ xs) h = ground (arith, without_absent a xs)

  pub length-without :
      (a : A) (xs : List A)
      → Distinct xs
      → length (without a xs) + (if elem a xs then 1 else 0) ≡ length xs
  length-without a [] d = omega arith
  length-without a (x ∷ xs) d =
      ground (arith, length-without a xs d.1, without_absent a xs, e.same_iff x a)

  length-without-le : (a : A) (xs : List A) → length (without a xs) ≤ length xs
  length-without-le a [] = omega arith
  length-without-le a (x ∷ xs) = ground (arith, length-without-le a xs)

  length-without-lt : (a : A) (xs : List A) → elem a xs ≡ true → length (without a xs) < length xs
  length-without-lt a [] h = cc
  length-without-lt a (x ∷ xs) h = ground (arith, length-without-lt a xs, length-without-le a xs)

  pub ne_of_elem : (a x : A) (xs : List A) → elem x xs ≡ false → elem a xs ≡ true → (x == a) ≡ false
  ne_of_elem a x xs h k = elim (Bool-cases (x == a)) [
    | inl p ↦
        absurd (false≢true (sym h ∙ subst (λ y. elem y xs ≡ true) (sym ((e.same_iff x a).0 p)) k))
    | inr p ↦ p
  ]

  -- A list without repetitions that lies in another is at most as long.
  pub length-le_of_subset :
      (xs ys : List A)
      → Distinct xs
      → ((a : A) → elem a xs ≡ true → elem a ys ≡ true)
      → length xs ≤ length ys
  length-le_of_subset [] ys d sub = omega arith
  length-le_of_subset (x ∷ xs) ys d sub =
      let shorter = length-without-lt x ys (sub x (ground (arith, ==-refl x))) in
      let rest = length-le_of_subset xs (without x ys) d.1 (λ a h.
        ground (arith, sub a, elem-without x a ys, ne_of_elem a x xs d.0 h, e.same_iff x a)) in
      omega arith

module _ {ℓ} {A : Type ℓ} ⦃e : Comparable A⦄ where
  pub elem-append : (a : A) (xs ys : List A) → elem a (xs ++ ys) ≡ (elem a xs || elem a ys)
  elem-append a [] ys = refl
  elem-append a (x ∷ xs) ys = ground (arith, elem-append a xs ys)

  -- An element that is not there yet may go to the end.
  pub snoc-Distinct :
      (a : A) (xs : List A) → Distinct xs → elem a xs ≡ false → Distinct (xs ++ a ∷ [])
  snoc-Distinct a [] d h = (refl, tt)
  snoc-Distinct a (x ∷ xs) d h =
      ground
        (arith, snoc-Distinct a xs d.1, elem-append x xs (a ∷ []), e.same_iff x a, e.same_iff a x)

pub All-append {ℓ κ} :
    {A : Type ℓ} (P : A → Type κ) (xs ys : List A) → All P xs → All P ys → All P (xs ++ ys)
All-append P [] ys hx hy = hy
All-append P (x ∷ xs) ys hx hy = (hx.0, All-append P xs ys hx.1 hy)

module _ {ℓ κ} {A : Type ℓ} (P : A → Type κ) where
  pub All-left : (xs ys : List A) → All P (xs ++ ys) → All P xs
  All-left [] ys a = tt
  All-left (x ∷ xs) ys a = (a.0, All-left xs ys a.1)

  pub All-right : (xs ys : List A) → All P (xs ++ ys) → All P ys
  All-right [] ys a = a
  All-right (x ∷ xs) ys a = All-right xs ys a.1

module _ {ℓ} {A : Type ℓ} where
  abbrev pub reverse : List A → List A
  reverse [] = []
  reverse (x ∷ xs) = reverse xs ++ x ∷ []

  pub append_assoc : (xs ys zs : List A) → (xs ++ ys) ++ zs ≡ xs ++ (ys ++ zs)
  append_assoc [] ys zs = refl
  append_assoc (x ∷ xs) ys zs = ap (◌∷◌ x) (append_assoc xs ys zs)

  pub append_nil : (xs : List A) → xs ++ [] ≡ xs
  append_nil [] = refl
  append_nil (x ∷ xs) = ap (◌∷◌ x) (append_nil xs)

  pub reverse-snoc : (xs : List A) (x : A) → reverse (xs ++ x ∷ []) ≡ x ∷ reverse xs
  reverse-snoc [] x = refl
  reverse-snoc (y ∷ xs) x = ap (λ zs. zs ++ y ∷ []) (reverse-snoc xs x)

  pub reverse-reverse : (xs : List A) → reverse (reverse xs) ≡ xs
  reverse-reverse [] = refl
  reverse-reverse (x ∷ xs) = reverse-snoc (reverse xs) x ∙ ap (◌∷◌ x) (reverse-reverse xs)
