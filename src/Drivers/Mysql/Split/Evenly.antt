-- ===== src/Drivers/Mysql/Split/Evenly.antt =====
-- drivers/mysql/internal/backfill.go: the chunks of splitEvenlyForInt have no gap and no overlap.
use olake.Base.{
  ℕ, zero, suc, ◌+◌, ◌-◌, ◌*◌, ◌/◌, ◌≤◌, ◌<◌, ◌≡◌, refl, sym, ap, ◌∙◌, subst, Bool, true, false,
  ◌&&◌, Option, none, some, List, [], ◌∷◌, ◌++◌, arith, if◌then◌else◌, leb, ltb, append_assoc,
  false≢true, Bool-cases, inl, inr,
}
use native.Mathlib.Nat.{div-le_self, div-mul-le_self, lt-div-mul-add}
use olake.Drivers.Mysql.Split.{
  Int64, int64_range, NumericChunkBounds, add_int64, IntChunk, chunk, Split, overflow, done,
  split_loop, int_chunks,
}

-- The last of the boundaries `prev`, `prev + step`, … after `k` steps
pub reach : ℕ → Int64 → ℕ → Int64
reach step prev zero = prev
reach step prev (suc k) = reach step (prev + step) k

-- The chunks from a boundary on
pub pieces : ℕ → Int64 → ℕ → List IntChunk
pieces step prev zero = chunk (some prev) none ∷ []
pieces step prev (suc k) = chunk (some prev) (some (prev + step)) ∷ pieces step (prev + step) k

reach_lem : (step prev k : ℕ) → reach step prev k ≡ prev + k * step
unfolding reach
reach_lem step prev zero = omega arith
reach_lem step prev (suc k) = reach_lem step (prev + step) k ∙ grind arith

reach-le : (step prev k : ℕ) → prev ≤ reach step prev k
reach-le step prev k = rw (reach_lem step prev k) (grind arith)

split_loop-round :
    (fuel max step prev next : ℕ) (acc : List IntChunk)
    → next ≤ max
    → prev < next
    → split_loop (suc fuel) max step prev next acc
      ≡ split_loop fuel max step next
          (add_int64 next step)
          (acc ++ chunk (some prev) (some next) ∷ [])
unfolding split_loop
split_loop-round fuel max step prev next acc le lt = ground arith

split_loop_lem :
    (k fuel max step prev : ℕ) (acc : List IntChunk)
    → k < fuel
    → 0 < step
    → step < int64_range
    → max < int64_range
    → reach step prev k ≤ max
    → max < reach step prev k + step
    → split_loop fuel max step prev (add_int64 prev step) acc ≡ (
        if ltb (reach step prev k + step) int64_range
        then done (acc ++ pieces step prev k)
        else overflow)
unfolding split_loop reach pieces
split_loop_lem k zero max step prev acc f s0 s1 m r0 r1 = absurd (omega arith)
split_loop_lem zero (suc fuel) max step prev acc f s0 s1 m r0 r1 = ground arith
split_loop_lem (suc k) (suc fuel) max step prev acc f s0 s1 m r0 r1 =
    let below = reach-le step (prev + step) k in
    let next : add_int64 prev step ≡ prev + step = omega arith in
    ap (λ n. split_loop (suc fuel) max step prev n acc) next
    ∙ split_loop-round fuel max step prev (prev + step) acc (omega arith) (omega arith)
    ∙ split_loop_lem k fuel max step (prev + step)
        (acc ++ chunk (some prev) (some (prev + step)) ∷ []) (omega arith) s0 s1 m r0 r1
    ∙ ap (λ cs. if ltb (reach step (prev + step) k + step) int64_range then done cs else overflow)
        (append_assoc acc (chunk (some prev) (some (prev + step)) ∷ [])
          (pieces step (prev + step) k))

-- The number of steps from the lower bound that stay below the upper bound
abbrev pub steps : NumericChunkBounds → ℕ
steps b = (b.max_boundary - b.min_boundary) / b.chunk_step

abbrev pub last_boundary : NumericChunkBounds → ℕ
last_boundary b = reach b.chunk_step b.min_boundary (steps b)

-- With ordered int64 bounds and a positive int64 step the loop ends: with the chunks below the
-- lower bound, between the boundaries at each step, and from the last of these on, if a further
-- step from there is an int64, and with the overflow error if it is not.
pub int_chunks_lem :
    (b : NumericChunkBounds)
    → 0 < b.chunk_step
    → b.chunk_step < int64_range
    → b.min_boundary ≤ b.max_boundary
    → b.max_boundary < int64_range
    → int_chunks b ≡ (
        if ltb (last_boundary b + b.chunk_step) int64_range
        then done (chunk none (some b.min_boundary) ∷ pieces b.chunk_step b.min_boundary (steps b))
        else overflow)
unfolding int_chunks
int_chunks_lem b s0 s1 mm m =
    split_loop_lem (steps b) (suc (b.max_boundary - b.min_boundary)) b.max_boundary b.chunk_step
      b.min_boundary (chunk none (some b.min_boundary) ∷ [])
      (omega (arith, div-le_self (b.max_boundary - b.min_boundary) b.chunk_step)) s0 s1 m
      (rw (reach_lem b.chunk_step b.min_boundary (steps b))
        (omega (arith, div-mul-le_self (b.max_boundary - b.min_boundary) b.chunk_step)))
      (rw (reach_lem b.chunk_step b.min_boundary (steps b))
        (omega (arith, lt-div-mul-add {a = b.max_boundary - b.min_boundary} s0)))

-- Whether a value lies in a chunk, from its lower bound up to its upper bound
abbrev above : Option Int64 → Int64 → Bool
above none v = true
above (some l) v = leb l v

abbrev below : Option Int64 → Int64 → Bool
below none v = true
below (some u) v = ltb v u

abbrev pub contains : Int64 → IntChunk → Bool
contains v c = above c.lower v && below c.upper v

abbrev pub count : Int64 → List IntChunk → ℕ
count v [] = 0
count v (c ∷ cs) = (if contains v c then 1 else 0) + count v cs

count-pieces :
    (k step prev : ℕ) (v : Int64)
    → 0 < step
    → count v (pieces step prev k) ≡ (if leb prev v then 1 else 0)
unfolding pieces
count-pieces zero step prev v s0 = ground arith
count-pieces (suc k) step prev v s0 = ground (arith, count-pieces k step (prev + step) v s0)

abbrev results : Split (List IntChunk) → List IntChunk
results (done cs) = cs
results other = []

abbrev is_done : Split (List IntChunk) → Bool
is_done (done cs) = true
is_done other = false

-- With ordered int64 bounds and a positive int64 step, when the loop ends without the overflow
-- error, each value lies in exactly one of its chunks.
pub int_chunks-cover :
    (b : NumericChunkBounds) (cs : List IntChunk) (v : Int64)
    → 0 < b.chunk_step
    → b.chunk_step < int64_range
    → b.min_boundary ≤ b.max_boundary
    → b.max_boundary < int64_range
    → int_chunks b ≡ done cs
    → count v cs ≡ 1
int_chunks-cover b cs v s0 s1 mm m h =
    elim (Bool-cases (ltb (last_boundary b + b.chunk_step) int64_range)) [
      | inl fits ↦
          let q : int_chunks b
              ≡ done (
                  chunk none (some b.min_boundary) ∷ pieces b.chunk_step b.min_boundary (steps b)) =
            int_chunks_lem b s0 s1 mm m ∙ rw fits refl in
          subst (λ ds. count v ds ≡ 1) (ap results (sym q ∙ h))
            (ground (arith, count-pieces (steps b) b.chunk_step b.min_boundary v s0))
      | inr full ↦
          let q : int_chunks b ≡ overflow = int_chunks_lem b s0 s1 mm m ∙ rw full refl in
          absurd (false≢true (ap is_done (sym q ∙ h)))
    ]
