-- ===== src/Utils/Retry/Attempts.antt =====
-- utils/utils.go: how often RetryOnBackoff calls the work, how it ends, and how long it sleeps.
use olake.Base.{
  ℕ, zero, suc, ◌+◌, ◌-◌, ◌≤◌, ◌<◌, ◌≡◌, refl, sym, ap, ◌∙◌, Bool, true, false, Option, none, some,
  List, [], ◌∷◌, arith, ltb, ◌==◌, nat_eq, not, ◌&&◌, Option-cases, Bool-cases, inl, inr,
}
use olake.Utils.Retry.{
  succeeded, failed, run, called, slept, double_duration, last_error, Oracle, after_error,
  retry_loop, retry_on_backoff,
}

-- The sleeps after the first attempts: each is twice the one before
abbrev pub doubling : ℕ → ℕ → List ℕ
doubling sleep zero = []
doubling sleep (suc k) = sleep ∷ doubling (double_duration sleep) k

no_more :
    (cur attempts : ℕ) → cur + 1 ≡ attempts → (ltb 1 attempts && not (cur == attempts - 1)) ≡ false
no_more cur attempts e = ground arith

more_left :
    (cur left attempts : ℕ)
    → cur + suc (suc left) ≡ attempts
    → (ltb 1 attempts && not (cur == attempts - 1)) ≡ true
more_left cur left attempts e = ground arith

last_round : (left cur attempts : ℕ) → left ≡ 0 → cur + suc left ≡ attempts → cur + 1 ≡ attempts
last_round left cur attempts z e = omega arith

last_left :
    (left cur n attempts : ℕ) → cur ≡ n → cur + suc left ≡ attempts → suc n ≡ attempts → left ≡ 0
last_left left cur n attempts at e s = omega arith

last_attempt : (n attempts : ℕ) → n ≡ attempts → suc n ≡ attempts + 1
last_attempt n attempts e = omega arith

module _ {E : Type 0} (O : Oracle E) where
  -- An attempt that decides the run: a success, or an error that is not to be retried
  abbrev pub decides : Option E → Bool
  decides none = true
  decides (some e) = O.is_non_retryable e

  retryable :
      (o : Option E) → decides o ≡ false → (x : E) × (o ≡ some x) × (O.is_non_retryable x ≡ false)
  retryable none d = absurd (ground arith)
  retryable (some x) d = (x, refl, d)

  module _ (before : (i : ℕ) → O.done_before i ≡ false)
      (asleep : (i : ℕ) → O.done_asleep i ≡ false) where
    round_success :
        (left cur sleep : ℕ) (err : Option E) (attempts : ℕ)
        → O.attempt cur ≡ none
        → retry_loop O (suc left) attempts cur sleep err ≡ run succeeded 1 []
    unfolding retry_loop after_error
    round_success left cur sleep err attempts n = rw (before cur, n)

    round_non_retryable :
        (left cur sleep : ℕ) (err : Option E) (attempts : ℕ) (x : E)
        → O.attempt cur ≡ some x
        → O.is_non_retryable x ≡ true
        → retry_loop O (suc left) attempts cur sleep err ≡ run (failed x) 1 []
    unfolding retry_loop after_error
    round_non_retryable left cur sleep err attempts x n r = rw (before cur, n, r)

    round_last :
        (cur sleep : ℕ) (err : Option E) (attempts : ℕ) (x : E)
        → O.attempt cur ≡ some x
        → O.is_non_retryable x ≡ false
        → cur + 1 ≡ attempts
        → retry_loop O 1 attempts cur sleep err ≡ run (failed x) 1 []
    unfolding retry_loop after_error
    round_last cur sleep err attempts x n r e = rw (before cur, n, r, no_more cur attempts e)

    round_sleep :
        (left cur sleep : ℕ) (err : Option E) (attempts : ℕ) (x : E)
        → O.attempt cur ≡ some x
        → O.is_non_retryable x ≡ false
        → cur + suc (suc left) ≡ attempts
        → retry_loop O (suc (suc left)) attempts cur sleep err
          ≡ called (
              slept sleep
                (retry_loop O (suc left) attempts (suc cur) (double_duration sleep) (some x)))
    unfolding retry_loop after_error
    round_sleep left cur sleep err attempts x n r e =
        rw (before cur, n, r, more_left cur left attempts e, asleep cur)

    round_error :
        (left cur sleep : ℕ) (err : Option E) (attempts : ℕ) (x : E)
        → O.attempt cur ≡ some x
        → cur + suc left ≡ attempts
        → (O.is_non_retryable x ≡ false → left ≡ 0)
        → retry_loop O (suc left) attempts cur sleep err ≡ run (failed x) 1 []
    round_error left cur sleep err attempts x n e last = elim (Bool-cases (O.is_non_retryable x)) [
      | inl r ↦ round_non_retryable left cur sleep err attempts x n r
      | inr r ↦
          ap (λ l. retry_loop O (suc l) attempts cur sleep err) (last r)
          ∙ round_last cur sleep err attempts x n r (last_round left cur attempts (last r) e)
    ]

    round_decided :
        (left cur sleep : ℕ) (err : Option E) (attempts : ℕ)
        → cur + suc left ≡ attempts
        → (decides (O.attempt cur) ≡ false → left ≡ 0)
        → retry_loop O (suc left) attempts cur sleep err ≡ run (last_error (O.attempt cur)) 1 []
    round_decided left cur sleep err attempts e last =
        elim (Option-cases (O.attempt cur))
          as (λ _.
            retry_loop O (suc left) attempts cur sleep err
            ≡ run (last_error (O.attempt cur)) 1 []) [
              | inl n ↦
                  round_success left cur sleep err attempts n
                  ∙ ap (λ o. run (last_error o) 1 []) (sym n)
              | inr (x, n) ↦
                  round_error left cur sleep err attempts x n e (λ r. last (ap decides n ∙ r))
                  ∙ ap (λ o. run (last_error o) 1 []) (sym n)
            ]

    retry_loop_lem :
        (k left cur n sleep : ℕ) (err : Option E) (attempts : ℕ)
        → cur + k ≡ n
        → cur + left ≡ attempts
        → n < attempts
        → ((i : ℕ) → i < n → cur ≤ i → decides (O.attempt i) ≡ false)
        → (decides (O.attempt n) ≡ false → suc n ≡ attempts)
        → retry_loop O left attempts cur sleep err
          ≡ run (last_error (O.attempt n)) (suc k) (doubling sleep k)
    retry_loop_lem k zero cur n sleep err attempts at e lt early last = absurd (omega arith)
    retry_loop_lem zero (suc left) cur n sleep err attempts at e lt early last =
        let at : cur ≡ n = omega arith in
        round_decided left cur sleep err attempts e (λ h.
          last_left left cur n attempts at e (last (ap (λ m. decides (O.attempt m)) (sym at) ∙ h)))
        ∙ ap (λ m. run (last_error (O.attempt m)) 1 []) at
    retry_loop_lem (suc k) (suc zero) cur n sleep err attempts at e lt early last =
        absurd (omega arith)
    retry_loop_lem (suc k) (suc (suc left)) cur n sleep err attempts at e lt early last =
        let (x, g, r) = retryable (O.attempt cur) (early cur (omega arith) (omega arith)) in
        round_sleep left cur sleep err attempts x g r e
        ∙ ap (λ r. called (slept sleep r))
            (retry_loop_lem k (suc left) (suc cur) n (double_duration sleep) (some x) attempts
              (omega arith) (omega arith) lt (λ i b a. early i b (omega arith)) last)

    -- Where the context is never done: if every attempt before attempt `n` fails with an error that may be
    -- retried, and attempt `n` decides the run or is the last one that is allowed (`attempts` after
    -- the first), then RetryOnBackoff calls the work `n + 1` times, returns what attempt `n` gives, and
    -- sleeps `n` times, each time twice as long as the time before.
    pub retry_on_backoff_lem :
        (n attempts sleep : ℕ)
        → n ≤ attempts
        → ((i : ℕ) → i < n → decides (O.attempt i) ≡ false)
        → (decides (O.attempt n) ≡ false → n ≡ attempts)
        → retry_on_backoff O attempts sleep
          ≡ run (last_error (O.attempt n)) (suc n) (doubling sleep n)
    unfolding retry_on_backoff
    retry_on_backoff_lem n attempts sleep le early last =
        retry_loop_lem n (attempts + 1) 0 n sleep none (attempts + 1) (omega arith) (omega arith)
          (omega arith) (λ i b a. early i b) (λ h. last_attempt n attempts (last h))
