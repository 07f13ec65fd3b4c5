-- ===== src/Utils/Retry/Skip.antt =====
-- utils/utils.go: RetryWithSkip, over the same oracles as RetryOnBackoff, with a test of its own for the
-- errors that are retried (`none` for a nil one). The test for a non-retryable error of the oracles plays no part in it.
use olake.Base.{
  ℕ, zero, suc, ◌+◌, ◌*◌, ◌%◌, ◌≤◌, ◌<◌, ◌≡◌, refl, sym, ap, ◌∙◌, Bool, true, false, not, Option,
  none, some, List, [], ◌∷◌, arith, if◌then◌else◌, ◌==◌, nat_eq, Option-cases, Bool-cases, inl, inr,
}
use olake.Utils.Retry.{Run, succeeded, failed, context_done, run, called, slept, last_error, Oracle}

-- `shouldRetry != nil && !shouldRetry(err)`
abbrev pub surfaces : {E : Type 0} → Option (E → Bool) → E → Bool
surfaces none e = false
surfaces (some should_retry) e = not (should_retry e)

-- `time.Duration(cur+1) * sleep`
abbrev pub linear_backoff : ℕ → ℕ → ℕ
linear_backoff cur sleep = (cur + 1) * sleep % 18446744073709551616

module _ {E : Type 0} (O : Oracle E) (should_retry : Option (E → Bool)) where
  -- The rest of a round after an error, where `rest` are the rounds after it
  after_skip_error : ℕ → ℕ → ℕ → E → Run E → Run E
  after_skip_error max_retries cur sleep e rest =
      if surfaces should_retry e
      then run (failed e) 0 []
      else if not (cur == max_retries)
      then (if O.done_asleep cur
          then run context_done 0 []
          else slept (linear_backoff cur sleep) rest)
      else rest

  skip_loop : ℕ → ℕ → ℕ → ℕ → Option E → Run E
  unfolding after_skip_error
  skip_loop zero max_retries cur sleep err = run (last_error err) 0 []
  skip_loop (suc left) max_retries cur sleep err =
      let next = λ (e : E). skip_loop left max_retries (suc cur) sleep (some e) in
      if O.done_before cur then run context_done 0 [] else elim (O.attempt cur) [
        | none ↦ run succeeded 1 []
        | some e ↦ called (after_skip_error max_retries cur sleep e (next e))
      ]

  -- RetryWithSkip
  unfoldable pub retry_with_skip : ℕ → ℕ → Run E
  unfolding skip_loop
  retry_with_skip max_retries sleep = skip_loop (max_retries + 1) max_retries 0 sleep none

  -- An attempt that ends the retries: a success, or an error that is surfaced
  abbrev pub surfaced : Option E → Bool
  surfaced none = true
  surfaced (some e) = surfaces should_retry e

-- The sleeps from attempt `cur` on: attempt `i` is followed by `i + 1` times the base
abbrev pub linear : ℕ → ℕ → ℕ → List ℕ
linear sleep cur zero = []
linear sleep cur (suc k) = linear_backoff cur sleep ∷ linear sleep (suc cur) k

at_last : (cur max_retries : ℕ) → cur ≡ max_retries → not (cur == max_retries) ≡ false
at_last cur max_retries e = ground arith

suc_of : (n : ℕ) → n + 1 ≡ suc n
suc_of n = omega arith

before_last :
    (cur left max_retries : ℕ) → cur + suc left ≡ max_retries → not (cur == max_retries) ≡ true
before_last cur left max_retries e = ground arith

module _ {E : Type 0} (O : Oracle E) (should_retry : Option (E → Bool)) where
  skipped :
      (o : Option E)
      → surfaced O should_retry o ≡ false
      → (x : E) × (o ≡ some x) × (surfaces should_retry x ≡ false)
  skipped none d = absurd (ground arith)
  skipped (some x) d = (x, refl, d)

  module _ (before : (i : ℕ) → O.done_before i ≡ false)
      (asleep : (i : ℕ) → O.done_asleep i ≡ false) where
    skip_success :
        (left cur sleep : ℕ) (err : Option E) (max_retries : ℕ)
        → O.attempt cur ≡ none
        → skip_loop O should_retry (suc left) max_retries cur sleep err ≡ run succeeded 1 []
    unfolding skip_loop after_skip_error
    skip_success left cur sleep err max_retries n = rw (before cur, n)

    skip_surfaced :
        (left cur sleep : ℕ) (err : Option E) (max_retries : ℕ) (x : E)
        → O.attempt cur ≡ some x
        → surfaces should_retry x ≡ true
        → skip_loop O should_retry (suc left) max_retries cur sleep err ≡ run (failed x) 1 []
    unfolding skip_loop after_skip_error
    skip_surfaced left cur sleep err max_retries x n r = rw (before cur, n, r)

    skip_last :
        (cur sleep : ℕ) (err : Option E) (max_retries : ℕ) (x : E)
        → O.attempt cur ≡ some x
        → surfaces should_retry x ≡ false
        → cur ≡ max_retries
        → skip_loop O should_retry 1 max_retries cur sleep err ≡ run (failed x) 1 []
    unfolding skip_loop after_skip_error
    skip_last cur sleep err max_retries x n r e = rw (before cur, n, r, at_last cur max_retries e)

    skip_sleep :
        (left cur sleep : ℕ) (err : Option E) (max_retries : ℕ) (x : E)
        → O.attempt cur ≡ some x
        → surfaces should_retry x ≡ false
        → cur + suc left ≡ max_retries
        → skip_loop O should_retry (suc (suc left)) max_retries cur sleep err
          ≡ called (
              slept
                (linear_backoff cur sleep)
                (skip_loop O should_retry (suc left) max_retries (suc cur) sleep (some x)))
    unfolding skip_loop after_skip_error
    skip_sleep left cur sleep err max_retries x n r e =
        rw (before cur, n, r, before_last cur left max_retries e, asleep cur)

    skip_error :
        (left cur sleep : ℕ) (err : Option E) (max_retries : ℕ) (x : E)
        → O.attempt cur ≡ some x
        → cur + left ≡ max_retries
        → (surfaces should_retry x ≡ false → left ≡ 0)
        → skip_loop O should_retry (suc left) max_retries cur sleep err ≡ run (failed x) 1 []
    skip_error left cur sleep err max_retries x n e last =
        elim (Bool-cases (surfaces should_retry x)) [
          | inl r ↦ skip_surfaced left cur sleep err max_retries x n r
          | inr r ↦
              ap (λ l. skip_loop O should_retry (suc l) max_retries cur sleep err) (last r)
              ∙ skip_last cur sleep err max_retries x n r (let z = last r in omega arith)
        ]

    skip_decided :
        (left cur sleep : ℕ) (err : Option E) (max_retries : ℕ)
        → cur + left ≡ max_retries
        → (surfaced O should_retry (O.attempt cur) ≡ false → left ≡ 0)
        → skip_loop O should_retry (suc left) max_retries cur sleep err
          ≡ run (last_error (O.attempt cur)) 1 []
    skip_decided left cur sleep err max_retries e last =
        elim (Option-cases (O.attempt cur))
          as (λ _.
            skip_loop O should_retry (suc left) max_retries cur sleep err
            ≡ run (last_error (O.attempt cur)) 1 []) [
              | inl n ↦
                  skip_success left cur sleep err max_retries n
                  ∙ ap (λ o. run (last_error o) 1 []) (sym n)
              | inr (x, n) ↦
                  skip_error left cur sleep err max_retries x n e
                    (λ r. last (ap (surfaced O should_retry) n ∙ r))
                  ∙ ap (λ o. run (last_error o) 1 []) (sym n)
            ]

    last_skip :
        (left cur n max_retries : ℕ)
        → cur ≡ n
        → cur + left ≡ max_retries
        → n ≡ max_retries
        → left ≡ 0
    last_skip left cur n max_retries at e s = omega arith

    skip_loop_lem :
        (k left cur n sleep : ℕ) (err : Option E) (max_retries : ℕ)
        → cur + k ≡ n
        → cur + left ≡ max_retries
        → n ≤ max_retries
        → ((i : ℕ) → i < n → cur ≤ i → surfaced O should_retry (O.attempt i) ≡ false)
        → (surfaced O should_retry (O.attempt n) ≡ false → n ≡ max_retries)
        → skip_loop O should_retry (suc left) max_retries cur sleep err
          ≡ run (last_error (O.attempt n)) (suc k) (linear sleep cur k)
    skip_loop_lem zero left cur n sleep err max_retries at e le early last =
        let at : cur ≡ n = omega arith in
        skip_decided left cur sleep err max_retries e (λ h.
          last_skip left cur n max_retries at e
            (last (ap (λ m. surfaced O should_retry (O.attempt m)) (sym at) ∙ h)))
        ∙ ap (λ m. run (last_error (O.attempt m)) 1 []) at
    skip_loop_lem (suc k) zero cur n sleep err max_retries at e le early last = absurd (omega arith)
    skip_loop_lem (suc k) (suc left) cur n sleep err max_retries at e le early last =
        let (x, g, r) = skipped (O.attempt cur) (early cur (omega arith) (omega arith)) in
        skip_sleep left cur sleep err max_retries x g r e
        ∙ ap (λ r. called (slept (linear_backoff cur sleep) r))
            (skip_loop_lem k left (suc cur) n sleep (some x) max_retries (omega arith) (omega arith)
              le (λ i b a. early i b (omega arith)) last)

    -- Where the context is never done: if every attempt before attempt `n` fails with an error that
    -- `shouldRetry` accepts (or that is retried because there is no such test), and attempt `n` succeeds,
    -- fails with an error that is surfaced or is the last of `maxRetries + 1`, then RetryWithSkip calls the
    -- work `n + 1` times, returns what attempt `n` gives, and sleeps once, twice, ... `n` times the base.
    pub retry_with_skip_lem :
        (n max_retries sleep : ℕ)
        → n ≤ max_retries
        → ((i : ℕ) → i < n → surfaced O should_retry (O.attempt i) ≡ false)
        → (surfaced O should_retry (O.attempt n) ≡ false → n ≡ max_retries)
        → retry_with_skip O should_retry max_retries sleep
          ≡ run (last_error (O.attempt n)) (suc n) (linear sleep 0 n)
    unfolding retry_with_skip
    retry_with_skip_lem n max_retries sleep le early last =
        ap (λ l. skip_loop O should_retry l max_retries 0 sleep none) (suc_of max_retries)
        ∙ skip_loop_lem n max_retries 0 n sleep none max_retries (omega arith) (omega arith) le
            (λ i b a. early i b) last
