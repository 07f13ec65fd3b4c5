-- ===== src/Drivers/Mysql/Split/Condense.antt =====
-- drivers/mysql/internal/backfill.go: what condenseStrings picks.
use olake.Base.{
  ℕ, zero, suc, ◌+◌, ◌-◌, ◌*◌, ◌/◌, ◌≤◌, ◌<◌, ◌≡◌, refl, sym, ap, ◌∙◌, some, List, [], ◌∷◌, arith,
  nat_eq, length,
}
use native.Mathlib.Nat.{
  div-mul-le_self, le-div_iff_mul-le, div-eq_of_lt, mul-add-div, div-lt_iff_lt-mul,
  mul-le-mul_right,
}
use olake.Utils.Arrays.{get_elem?}
use olake.Drivers.Mysql.Split.{condensed_index, condense_from, condense_strings}

-- The rounded positions begin at the first candidate, …
condensed_index-first : (n e : ℕ) → 1 < e → condensed_index n e 0 ≡ 0
condensed_index-first n e h = div-eq_of_lt (omega arith)

-- … end at the last, …
condensed_index-last : (n e : ℕ) → 1 < e → condensed_index n e (e - 1) ≡ n - 1
condensed_index-last n e h =
    mul-add-div (omega arith) (n - 1) ((e - 1) / 2)
    ∙ ap (λ k. n - 1 + k) (div-eq_of_lt (omega arith))
    ∙ omega arith

advance : (q d x y : ℕ) → q * d ≤ x → x + d ≤ y → suc q * d ≤ y
advance q d x y a b = grind arith

-- … and never stay in place.
condensed_index-lt :
    (n e i : ℕ) → 1 < e → e ≤ n → condensed_index n e i < condensed_index n e (suc i)
condensed_index-lt n e i h le =
    (le-div_iff_mul-le {x = suc (condensed_index n e i)} {y = suc i * (n - 1) + (e - 1) / 2}
        (omega arith)).1
      (let b = div-mul-le_self (i * (n - 1) + (e - 1) / 2) (e - 1) in
        advance (condensed_index n e i) (e - 1) (i * (n - 1) + (e - 1) / 2)
          (suc i * (n - 1) + (e - 1) / 2) b (grind arith))

below : (d i m n : ℕ) → 0 < d → i ≤ d → n ≡ suc m → i * m + d / 2 < n * d
below d i m n pos le q = let p = mul-le-mul_right m le in rw q (omega arith)

picks_cons :
    {A : Type 0} (x : A) (xs ys : List A) (at : ℕ → ℕ) (i left : ℕ)
    → get_elem? xs (at i) ≡ some x
    → ((j : ℕ) → j < left → get_elem? ys j ≡ get_elem? xs (at (suc i + j)))
    → (j : ℕ) → j < suc left
    → get_elem? (x ∷ ys) j ≡ get_elem? xs (at (i + j))
picks_cons x xs ys at i left h picks zero lt = sym h ∙ ap (λ k. get_elem? xs (at k)) (omega arith)
picks_cons x xs ys at i left h picks (suc j) lt =
    picks j (omega arith) ∙ ap (λ k. get_elem? xs (at k)) (omega arith)

index_in_range : (n e i : ℕ) → 1 < e → e ≤ n → i < e → condensed_index n e i < n
index_in_range n e i h le lt =
    (div-lt_iff_lt-mul {x = i * (n - 1) + (e - 1) / 2} {y = n} (omega arith)).1
      (below (e - 1) i (n - 1) n (omega arith) (omega arith) (omega arith))

get_some : {A : Type 0} (xs : List A) (i : ℕ) → i < length xs → (x : A) × (get_elem? xs i ≡ some x)
get_some [] i lt = absurd (omega arith)
get_some (x ∷ xs) zero lt = (x, refl)
get_some (x ∷ xs) (suc i) lt = get_some xs i (omega arith)

condense_from_lem :
    {A : Type 0} (xs : List A) (e i left : ℕ)
    → 1 < e
    → e ≤ length xs
    → i + left ≤ e
    → (ys : List A) × (condense_from xs e i left ≡ some ys)
      × (length ys ≡ left)
      × ((j : ℕ) → j < left → get_elem? ys j ≡ get_elem? xs (condensed_index (length xs) e (i + j)))
unfolding condense_from
condense_from_lem xs e i zero h le room = ([], refl, refl, λ j lt. absurd (omega arith))
condense_from_lem xs e i (suc left) h le room =
    let (x, at) =
      get_some xs (condensed_index (length xs) e i)
        (index_in_range (length xs) e i h le (omega arith)) in
    let (ys, run, size, picks) = condense_from_lem xs e (suc i) left h le (omega arith) in
    (
      x ∷ ys,
      rw (condense_from, at, run) refl,
      omega arith,
      picks_cons x xs ys (condensed_index (length xs) e) i left at picks,
    )

-- From more candidates than are wanted, and more than one wanted, as many are picked, in order and
-- none twice: the one at place `i` is the candidate at `condensed_index i`, and these positions
-- grow, from the first candidate to the last.
pub condense_strings_lem :
    {A : Type 0} (xs : List A) (e : ℕ)
    → 1 < e
    → e < length xs
    → (ys : List A) × (condense_strings xs e ≡ some ys)
      × (length ys ≡ e)
      × ((i : ℕ) → i < e → get_elem? ys i ≡ get_elem? xs (condensed_index (length xs) e i))
      × ((i : ℕ) → condensed_index (length xs) e i < condensed_index (length xs) e (suc i))
      × (condensed_index (length xs) e 0 ≡ 0)
      × (condensed_index (length xs) e (e - 1) ≡ length xs - 1)
unfolding condense_strings
condense_strings_lem xs e h lt =
    let (ys, run, size, picks) = condense_from_lem xs e 0 e h (omega arith) (omega arith) in
    (
      ys,
      ground (arith, run),
      size,
      λ i l. picks i l ∙ ap (λ k. get_elem? xs (condensed_index (length xs) e k)) (omega arith),
      λ i. condensed_index-lt (length xs) e i h (omega arith),
      condensed_index-first (length xs) e h,
      condensed_index-last (length xs) e h,
    )
