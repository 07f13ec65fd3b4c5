-- ===== src/Tests/Retries.antt =====
-- Retries: utils/utils.go.
use olake.Base.{
  ℕ, zero, suc, ◌==◌, string_eq, ◌≡◌, ◌<◌, refl, arith, Bool, false, Option, none, some, String, [],
  ◌∷◌, ltb, if◌then◌else◌,
}
use olake.Utils.Retry.{succeeded, run, Oracle, retry_on_backoff}
use olake.Utils.Retry.Attempts.{decides, retry_on_backoff_lem}
use olake.Utils.Retry.Skip.{surfaced, retry_with_skip, retry_with_skip_lem}

abbrev refused : String
refused = "refused"

-- A connection that is up from the third call on
abbrev late : Oracle String
late = record {
  attempt = λ i. if ltb i 2 then some refused else none;
  done_before = λ _. false;
  done_asleep = λ _. false;
  is_non_retryable = λ _. false;
}

late_failures : (i : ℕ) → i < 2 → decides late (late.attempt i) ≡ false
late_failures i h = ground arith

retry_on_backoff_lem_example : retry_on_backoff late 5 60 ≡ run succeeded 3 (60 ∷ 120 ∷ [])
retry_on_backoff_lem_example =
    retry_on_backoff_lem late (λ _. refl) (λ _. refl) 2 5 60 (omega arith) late_failures
      (λ h. absurd (ground arith))

-- Only a refused connection is retried.
abbrev only_refused : Option (String → Bool)
only_refused = some (λ e. e == refused)

late_refusals : (i : ℕ) → i < 2 → surfaced late only_refused (late.attempt i) ≡ false
late_refusals zero h = refl
late_refusals (suc zero) h = refl
late_refusals (suc (suc i)) h = absurd (omega arith)

retry_with_skip_lem_example :
    retry_with_skip late only_refused 5 60 ≡ run succeeded 3 (60 ∷ 120 ∷ [])
retry_with_skip_lem_example =
    retry_with_skip_lem late only_refused (λ _. refl) (λ _. refl) 2 5 60 (omega arith) late_refusals
      (λ h. absurd (ground arith))
