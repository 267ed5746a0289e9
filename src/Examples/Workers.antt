-- ===== src/Examples/Workers.antt =====
-- A pool's worker with a handler that fails twice.
use eventbus.Base.{
  ℕ, zero, suc, ◌≤◌, [], ◌∷◌, ◌++◌, ◌≡◌, ◌⊎◌, arith, refl, true, false, none, some, codes,
}
use eventbus.Base.Order.{pos}
use eventbus.Errors.{Error, plain, default_retry_classifier}
use eventbus.Backoff.{HandlerResult, succeeded, failed}
use eventbus.Pool.Options.{Options, default_options}
use eventbus.Pool.Process.{Attempts, handled, slept, process, attempts_from}
use eventbus.Pool.Process.Outcome.{all_retry, retries_at, tried, last_try, process_lem}
use eventbus.Backoff.{retry_sleep}
use eventbus.Examples.Deliveries.{order}

abbrev pub busy : Error
busy = plain (codes "busy")

abbrev pub fails_twice : ℕ → HandlerResult
fails_twice zero = failed busy
fails_twice (suc zero) = failed busy
fails_twice (suc (suc n)) = succeeded

abbrev pub options : Options
options = record default_options { max_retries = pos 3; dead_letter_func = some 1 }

abbrev pub attempts : Attempts
attempts = record { result = fails_twice; canceled = λ j. false }

process_lem_example :
    (k : ℕ) × (k ≤ 3)
    × (all_retry options order attempts 0 k ≡ true)
    × ((retries_at options order attempts k ≡ false) ⊎ (k ≡ 3))
    × (process options order attempts ≡ tried options 0 k ++ last_try options order attempts k)
process_lem_example = process_lem options order attempts 3 refl (omega arith)

-- Two waits, of one and of two seconds, and a third call that succeeds.
three_calls :
    process options order attempts
    ≡ handled none ∷ slept 1_000_000_000 ∷ handled none ∷ slept 2_000_000_000 ∷ handled none ∷ []
unfolding process attempts_from retry_sleep default_retry_classifier
three_calls = refl
