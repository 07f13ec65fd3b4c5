-- ===== src/Drivers/Mysql/Split.antt =====
-- drivers/mysql/internal/backfill.go: the chunks of a numeric key, and the choice among boundaries.
-- An int64 is kept as its distance from the least int64, so its order is that of ℕ and a sum wraps
-- at 2 ^ 64. A chunk has an open end where Go has a nil; `text` is utils.ConvertToString.
pub mod Evenly
pub mod Condense
use olake.Base.{
  ℕ, zero, suc, ◌+◌, ◌-◌, ◌*◌, ◌/◌, ◌%◌, ◌^◌, ◌≡◌, String, Bool, true, false, Option, none, some,
  List, [], ◌∷◌, ◌++◌, map, if◌then◌else◌, ◌==◌, nat_eq, leb, ltb, length,
}
use olake.Utils.Arrays.{get_elem?}
use olake.Types.Set.{Set, Hashing, insert_all, empty}
use olake.Types.State.{Chunk}

abbrev pub Int64 : Type 0
Int64 = ℕ

abbrev pub int64_range : ℕ
int64_range = 18446744073709551616

-- NumericChunkBounds; the step is a positive int64 itself
pub record NumericChunkBounds : Type 0 where
  pub chunk_step : ℕ
  pub min_boundary : Int64
  pub max_boundary : Int64

abbrev pub add_int64 : Int64 → ℕ → Int64
add_int64 x step = (x + step) % int64_range

abbrev pub IntChunk : Type 0
IntChunk = Chunk (Option Int64)

abbrev pub chunk : Option Int64 → Option Int64 → IntChunk
chunk l u = record { lower = l; upper = u }

pub data Split (A : Type 0) : Type 0 where
  overflow : Split A
  out_of_fuel : Split A
  done : A → Split A

-- The loop of splitEvenlyForInt: `prev` and `next` are its variables, and the chunks are in the
-- order in which it inserts them.
pub split_loop : ℕ → Int64 → ℕ → Int64 → Int64 → List IntChunk → Split (List IntChunk)
split_loop zero max step prev next acc = out_of_fuel
split_loop (suc fuel) max step prev next acc =
    let rest =
      split_loop fuel max step next (add_int64 next step)
        (acc ++ chunk (some prev) (some next) ∷ []) in
    if leb next max
    then if leb next prev then overflow else rest
    else done (acc ++ chunk (some prev) none ∷ [])

-- A round of the loop gets `prev` nearer to the upper bound.
unfoldable pub int_chunks : NumericChunkBounds → Split (List IntChunk)
unfolding split_loop
int_chunks b =
    split_loop (suc (b.max_boundary - b.min_boundary)) b.max_boundary b.chunk_step b.min_boundary
      (add_int64 b.min_boundary b.chunk_step) (chunk none (some b.min_boundary) ∷ [])

abbrev pub bound_text : {T : Type 0} → (Int64 → T) → Option Int64 → Option T
bound_text text none = none
bound_text text (some x) = some (text x)

abbrev pub text_chunk : {T : Type 0} → (Int64 → T) → IntChunk → Chunk (Option T)
text_chunk text c = record { lower = bound_text text c.lower; upper = bound_text text c.upper }

pub as_chunks :
    {T : Type 0}
    → Hashing (Chunk (Option T))
    → (Int64 → T)
    → Split (List IntChunk)
    → Split (Set (Chunk (Option T)))
as_chunks HC text overflow = overflow
as_chunks HC text out_of_fuel = out_of_fuel
as_chunks HC text (done cs) = done (insert_all HC empty (map (text_chunk text) cs))

-- splitEvenlyForInt
unfoldable pub split_evenly_for_int :
    {T : Type 0}
    → Hashing (Chunk (Option T))
    → (Int64 → T)
    → NumericChunkBounds
    → Split (Set (Chunk (Option T)))
unfolding int_chunks as_chunks
split_evenly_for_int HC text b = as_chunks HC text (int_chunks b)

-- condenseStrings. The positions 0 to `count - 1` are read in turn; an index that is out of range,
-- where Go would panic, is `none`.
abbrev pub condensed_index : ℕ → ℕ → ℕ → ℕ
condensed_index candidates expected i = (i * (candidates - 1) + (expected - 1) / 2) / (expected - 1)

pub condense_from : {A : Type 0} → List A → ℕ → ℕ → ℕ → Option (List A)
condense_from xs expected i zero = some []
condense_from xs expected i (suc left) =
    elim (get_elem? xs (condensed_index (length xs) expected i)) [
      | none ↦ none
      | some x ↦ elim (condense_from xs expected (suc i) left) [
        | none ↦ none
        | some ys ↦ some (x ∷ ys)
      ]
    ]

first_only : {A : Type 0} → List A → Option (List A)
first_only [] = none
first_only (x ∷ xs) = some (x ∷ [])

unfoldable pub condense_strings : {A : Type 0} → List A → ℕ → Option (List A)
unfolding condense_from first_only
condense_strings xs expected =
    if leb (length xs) expected
    then some xs
    else if expected == 1
    then first_only xs
    else condense_from xs expected 0 expected
