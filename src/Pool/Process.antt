-- ===== src/Pool/Process.antt =====
-- ConsumerPool.process: one event, its attempts, and what becomes of it.
pub mod Outcome
use eventbus.Base.{
  ℕ, zero, suc, ◌+◌, List, [], ◌∷◌, Bool, true, false, Option, none, some, ltb, if◌then◌else◌,
}
use eventbus.Base.Order.{ℤ, rounds_upto, eq_int}
use eventbus.Errors.{Error, RetryDecision, dead_letter, drop}
use eventbus.Event.{Event}
use eventbus.Backoff.{HandlerResult, succeeded, failed, panics, retry_sleep}
use eventbus.Pool.Options.{Options, classifier_of}

-- What the handler and the pool's context do: the result of each attempt, and whether the context is
-- cancelled in the wait after it.
pub record Attempts : Type 0 where
  pub result : ℕ → HandlerResult
  pub canceled : ℕ → Bool

-- What a worker does with an event.
pub data Act : Type 0 where
  -- A call of the handler, with the timeout of its context.
  handled : Option ℕ → Act
  slept : ℕ → Act
  -- A call of DeadLetterFunc.
  dead_lettered : ℕ → Event → Act

-- deadLetter.
abbrev pub dead_letter_acts : Option ℕ → Event → List Act
dead_letter_acts none e = []
dead_letter_acts (some f) e = dead_lettered f e ∷ []

abbrev pub timeout_of : ℕ → Option ℕ
timeout_of d = if ltb 0 d then some d else none

-- The loop over the attempts; `rounds` of them are left.
unfoldable pub attempts_from : Options → Event → Attempts → ℕ → ℕ → List Act
attempts_from o e env zero attempt = []
attempts_from o e env (suc rounds) attempt =
    let more = attempts_from o e env rounds (attempt + 1) in
    let dead = dead_letter_acts o.dead_letter_func e in
    let again =
      if eq_int attempt o.max_retries
      then dead
      else if env.canceled attempt
      then dead
      else slept (retry_sleep o.retry_backoff attempt) ∷ more in
    let call = handled (timeout_of o.handler_timeout) in
    elim (env.result attempt) [
      | succeeded ↦ call ∷ []
      | panics ↦ call ∷ dead
      | failed err ↦ elim (classifier_of o.retry_classifier e err) [
        | dead_letter ↦ call ∷ dead
        | drop ↦ call ∷ []
        | _ ↦ call ∷ again
      ]
    ]

-- process.
unfoldable pub process : Options → Event → Attempts → List Act
unfolding attempts_from
process o e env = attempts_from o e env (rounds_upto o.max_retries) 0
