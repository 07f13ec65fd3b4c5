-- ===== src/Drivers/Abstract/Backfill/Once.antt =====
-- drivers/abstract/backfill.go: retries load a chunk once.
use olake.Base.{
  ℕ, ◌+◌, String, ◌≡◌, refl, Bool, true, false, List, [], ◌∷◌, ◌++◌, arith, if◌then◌else◌, not,
  ◌&&◌, ◌||◌, ◌==◌, string_eq, nat_eq, elem, eq_iff, elem-append, ==-refl,
}
use olake.Drivers.Abstract.Backfill.{
  Trouble, no_writer, read_fails, close_fails, close_answer_lost, nothing_fails, cancelled_early,
  cancelled_late, Ending, with_error, context_done, well, Site, commit, load_rows, skip_rows,
}

-- How often the rows of a thread are in the table
abbrev pub occurrences : String → List String → ℕ
occurrences t [] = 0
occurrences t (x ∷ xs) = (if x == t then 1 else 0) + occurrences t xs

occurrences-append :
    (t : String) (xs ys : List String)
    → occurrences t (xs ++ ys) ≡ occurrences t xs + occurrences t ys
occurrences-append t [] ys = omega arith
occurrences-append t (x ∷ xs) ys = omega (arith, occurrences-append t xs ys)

abbrev pub is_fine : Trouble → Bool
is_fine nothing_fails = true
is_fine _ = false

abbrev pub is_cancelled : Trouble → Bool
is_cancelled cancelled_early = true
is_cancelled cancelled_late = true
is_cancelled _ = false

-- Nothing fails in some attempt, and the context of the group is not cancelled before
unfoldable pub gets_through : List Trouble → Bool
gets_through [] = false
gets_through (t ∷ ts) = let later = gets_through ts in is_fine t || (not (is_cancelled t) && later)

abbrev pub is_well : Ending → Bool
is_well well = true
is_well _ = false

abbrev pub is_cut_off : Ending → Bool
is_cut_off context_done = true
is_cut_off _ = false

module _ {C V : Type 0} where
  -- The table has the rows of exactly the threads that are committed, once each.
  abbrev pub IsSound : Site C V → Type 0
  IsSound s = (t : String) → occurrences t s.table ≡ (if elem t s.committed then 1 else 0)

  commit-IsSound :
      (s : Site C V) (thread : String)
      → IsSound s
      → elem thread s.committed ≡ false
      → IsSound (commit thread s)
  commit-IsSound s thread h new t = ground (
    arith,
    h t,
    occurrences-append t s.table (thread ∷ []),
    elem-append t s.committed (thread ∷ []),
    eq_iff thread t,
  )

  commit_others :
      (s : Site C V) (thread t : String)
      → (thread == t) ≡ false
      → occurrences t (commit thread s).table ≡ occurrences t s.table
  commit_others s thread t ne = ground (arith, occurrences-append t s.table (thread ∷ []))

  committed_now : (s : Site C V) (thread : String) → elem thread (commit thread s).committed ≡ true
  committed_now s thread =
      ground (arith, elem-append thread s.committed (thread ∷ []), ==-refl thread)

  -- What the rows of an attempt do, before the chunk leaves the state
  pub record Loads (thread : String) (s : Site C V) (r : Site C V × Ending) : Type 0 where
    pub sound : IsSound r.0
    pub others :
        (t : String) → (thread == t) ≡ false → occurrences t r.0.table ≡ occurrences t s.table
    pub state_same : r.0.state ≡ s.state
    pub backfilled_same : r.0.backfilled ≡ s.backfilled
    pub done : is_well r.1 ≡ true → elem thread r.0.committed ≡ true

  unchanged-Loads :
      (thread : String) (s : Site C V) (b : Ending)
      → IsSound s
      → (is_well b ≡ true → elem thread s.committed ≡ true)
      → Loads thread s (s, b)
  unchanged-Loads thread s b h d = record {
    sound = h;
    others = λ t ne. refl;
    state_same = refl;
    backfilled_same = refl;
    done = d;
  }

  commit-Loads :
      (thread : String) (s : Site C V) (b : Ending)
      → IsSound s
      → elem thread s.committed ≡ false
      → Loads thread s (commit thread s, b)
  commit-Loads thread s b h new = record {
    sound = commit-IsSound s thread h new;
    others = λ t ne. commit_others s thread t ne;
    state_same = refl;
    backfilled_same = refl;
    done = λ _. committed_now s thread;
  }

  pub load_rows-Loads :
      (trouble : Trouble) (thread : String) (s : Site C V)
      → IsSound s
      → elem thread s.committed ≡ false
      → Loads thread s (load_rows trouble thread s)
  unfolding load_rows
  load_rows-Loads no_writer thread s h new = unchanged-Loads thread s with_error h (λ e. cc)
  load_rows-Loads read_fails thread s h new = unchanged-Loads thread s with_error h (λ e. cc)
  load_rows-Loads close_fails thread s h new = unchanged-Loads thread s with_error h (λ e. cc)
  load_rows-Loads close_answer_lost thread s h new = commit-Loads thread s with_error h new
  load_rows-Loads cancelled_early thread s h new = unchanged-Loads thread s context_done h (λ e. cc)
  load_rows-Loads cancelled_late thread s h new = commit-Loads thread s context_done h new
  load_rows-Loads nothing_fails thread s h new = commit-Loads thread s well h new

  pub skip_rows-Loads :
      (trouble : Trouble) (thread : String) (s : Site C V)
      → IsSound s
      → elem thread s.committed ≡ true
      → Loads thread s (skip_rows trouble s)
  unfolding skip_rows
  skip_rows-Loads no_writer thread s h old = unchanged-Loads thread s with_error h (λ e. old)
  skip_rows-Loads read_fails thread s h old = unchanged-Loads thread s well h (λ e. old)
  skip_rows-Loads close_fails thread s h old = unchanged-Loads thread s with_error h (λ e. old)
  skip_rows-Loads close_answer_lost thread s h old =
      unchanged-Loads thread s with_error h (λ e. old)
  skip_rows-Loads cancelled_early thread s h old =
      unchanged-Loads thread s context_done h (λ e. old)
  skip_rows-Loads cancelled_late thread s h old = unchanged-Loads thread s context_done h (λ e. old)
  skip_rows-Loads nothing_fails thread s h old = unchanged-Loads thread s well h (λ e. old)
