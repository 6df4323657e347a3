-- ===== src/Retry/Tests.antt =====
-- Runs of Do of common/retry/operation.go.
use qiu_market.Retry.Attempts.{do_first_success, do_exhausted}
use qiu_market.Prelude.Text.{Text, bytes}
use qiu_market.Retry.Operation.{Attempt, do_attempts, errs, returned, failed_permanently, succeeds}
use qiu_market.Prelude.{ℕ, ◌≡◌, ◌<◌, ◌+◌, refl, none, if◌then◌else◌, ltb, length, arith}

-- An operation that fails twice.
abbrev third_time : ℕ → Attempt ℕ
third_time i = if ltb i 2 then errs (bytes "timeout") else succeeds i

abbrev never : ℕ → Attempt ℕ
never i = errs (bytes "timeout")

third_time_fails : (j : ℕ) → j < 2 → (t : Text) × (third_time j ≡ errs t)
third_time_fails j h = (bytes "timeout", ground arith)

do_first_success_example :
    ((do_attempts 5 (λ i. none) third_time).outcome ≡ returned 2)
    × ((do_attempts 5 (λ i. none) third_time).calls ≡ 2 + 1)
    × (length (do_attempts 5 (λ i. none) third_time).sleeps ≡ 2)
do_first_success_example =
    do_first_success (λ i. none) third_time (λ i. refl) 5 2 2 (ground arith) third_time_fails refl

do_exhausted_example :
    (t : Text) × (never 3 ≡ errs t)
    × ((do_attempts 4 (λ i. none) never).outcome ≡ failed_permanently 4 t)
    × ((do_attempts 4 (λ i. none) never).calls ≡ 4)
    × (length (do_attempts 4 (λ i. none) never).sleeps ≡ 3)
do_exhausted_example = do_exhausted (λ i. none) never (λ i. refl) 3 (λ j h. (bytes "timeout", refl))
