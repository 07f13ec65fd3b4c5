-- ===== src/Utils/Retry.antt =====
-- utils/utils.go: RetryOnBackoff. The work that is retried and the context are oracles: what the call
-- at an attempt gives (`none` without an error), and whether the context is done at a look before the
-- call of an attempt, or during the sleep after it. A duration is the 64 bits of its int64.
pub mod Attempts
pub mod Skip
use olake.Base.{
  ℕ, zero, suc, ◌+◌, ◌-◌, ◌*◌, ◌%◌, Bool, true, false, not, Option, none, some, List, [], ◌∷◌, ◌&&◌,
  if◌then◌else◌, ◌==◌, nat_eq, ltb,
}

pub data Outcome (E : Type 0) : Type 0 where
  succeeded : Outcome E
  failed : E → Outcome E
  context_done : Outcome E

-- What a run did: how it ended, how often it called the work, and how long it slept in between
pub record Run (E : Type 0) : Type 0 where
  pub outcome : Outcome E
  pub calls : ℕ
  pub sleeps : List ℕ

abbrev pub run : {E : Type 0} → Outcome E → ℕ → List ℕ → Run E
run o n ss = record { outcome = o; calls = n; sleeps = ss }

abbrev pub called : {E : Type 0} → Run E → Run E
called r = record r { calls = suc r.calls }

abbrev pub slept : {E : Type 0} → ℕ → Run E → Run E
slept s r = record r { sleeps = s ∷ r.sleeps }

-- `sleep * 2`
abbrev pub double_duration : ℕ → ℕ
double_duration s = s * 2 % 18446744073709551616

abbrev pub last_error : {E : Type 0} → Option E → Outcome E
last_error none = succeeded
last_error (some e) = failed e

pub record Oracle (E : Type 0) : Type 0 where
  pub attempt : ℕ → Option E
  pub done_before : ℕ → Bool
  pub done_asleep : ℕ → Bool
  pub is_non_retryable : E → Bool

module _ {E : Type 0} (O : Oracle E) where
  -- The rest of a round after an error, where `rest` are the rounds after it without and with a sleep
  pub after_error : ℕ → ℕ → ℕ → E → Run E → Run E → Run E
  after_error attempts cur sleep e rest rest_slept =
      if O.is_non_retryable e
      then run (failed e) 0 []
      else if ltb 1 attempts && not (cur == attempts - 1)
      then (if O.done_asleep cur then run context_done 0 [] else slept sleep rest_slept)
      else rest

  pub retry_loop : ℕ → ℕ → ℕ → ℕ → Option E → Run E
  unfolding after_error
  retry_loop zero attempts cur sleep err = run (last_error err) 0 []
  retry_loop (suc left) attempts cur sleep err =
      let next = λ (s : ℕ) (e : Option E). retry_loop left attempts (suc cur) s e in
      if O.done_before cur then run context_done 0 [] else elim (O.attempt cur) [
        | none ↦ run succeeded 1 []
        | some e ↦ called (
            after_error attempts cur sleep e (next sleep (some e))
              (next (double_duration sleep) (some e)))
      ]

  -- RetryOnBackoff
  unfoldable pub retry_on_backoff : ℕ → ℕ → Run E
  unfolding retry_loop
  retry_on_backoff attempts sleep = retry_loop (attempts + 1) (attempts + 1) 0 sleep none
