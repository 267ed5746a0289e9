-- ===== src/Amqp/Consumer.antt =====
-- ext/amqp/consumer.go: the reliable one-to-one consumer.
pub mod Outcome
use eventbus.Base.{
  ℕ, zero, suc, ◌+◌, List, [], ◌∷◌, ◌++◌, Bool, true, false, Option, none, some, ltb, codes,
  if◌then◌else◌,
}
use eventbus.Base.Order.{ℤ, pos, negsuc, ge_int}
use eventbus.Errors.{Error, plain, RetryDecision, dead_letter, drop}
use eventbus.Event.{Event}
use eventbus.Backoff.{HandlerResult, succeeded, failed, panics, retry_sleep}
use eventbus.Pool.Options.{RetryClassifier, classifier_of}
use eventbus.Amqp.Message.{Message, Delivery, Settlement, acked, nacked, event_from_message}

-- ConsumerOptions; a hook of AfterCommit is a number, or nil.
pub record ConsumerOptions : Type 0 where
  pub process_timeout : ℕ
  pub max_retries : ℤ
  pub retry_backoff : ℕ
  pub retry_classifier : Option RetryClassifier
  pub after_commit : List (Option ℕ)

-- ConsumerOption.
pub data ConsumerOption : Type 0 where
  with_process_timeout with_retry_backoff : ℕ → ConsumerOption
  with_max_retries : ℤ → ConsumerOption
  with_retry_classifier : Option RetryClassifier → ConsumerOption
  with_after_commit : Option ℕ → ConsumerOption

unfoldable pub apply_option : ConsumerOption → ConsumerOptions → ConsumerOptions
apply_option (with_process_timeout d) o = record o { process_timeout = d }
apply_option (with_retry_backoff d) o = record o { retry_backoff = d }
apply_option (with_max_retries n) o = record o { max_retries = n }
apply_option (with_retry_classifier f) o = record o { retry_classifier = f }
apply_option (with_after_commit f) o = record o { after_commit = o.after_commit ++ f ∷ [] }

abbrev pub default_options : ConsumerOptions
default_options = record {
  process_timeout = 0;
  max_retries = pos 3;
  retry_backoff = 1_000_000_000;
  retry_classifier = none;
  after_commit = [];
}

-- The options of newConsumer.
unfoldable pub apply_options : List ConsumerOption → ConsumerOptions → ConsumerOptions
unfolding apply_option
apply_options [] o = o
apply_options (p ∷ ps) o = apply_options ps (apply_option p o)

-- What the handler and the consumer's context do: the result of each attempt, whether the context is
-- done right after it, and whether it is cancelled in the wait that follows.
pub record Attempts : Type 0 where
  pub result : ℕ → HandlerResult
  pub done_after : ℕ → Bool
  pub done_in_wait : ℕ → Bool

pub data Act : Type 0 where
  -- A call of the handler, with the timeout of its context.
  handled : Option ℕ → Act
  hooked slept : ℕ → Act
  settled : Settlement → Act

abbrev pub timeout_of : ℕ → Option ℕ
timeout_of d = if ltb 0 d then some d else none

-- callHandler: a panic becomes an error.
abbrev pub call_handler : HandlerResult → Option Error
call_handler succeeded = none
call_handler (failed err) = some err
call_handler panics = some (plain (codes "amqp consumer: handler panic"))

-- runAfterCommit: the hooks that are not nil, in order; their errors are only logged.
unfoldable pub run_after_commit : List (Option ℕ) → List Act
run_after_commit [] = []
run_after_commit (none ∷ hooks) = run_after_commit hooks
run_after_commit (some h ∷ hooks) = hooked h ∷ run_after_commit hooks

abbrev pub prepend : List Act → Option (List Act) → Option (List Act)
prepend acts none = none
prepend acts (some more) = some (acts ++ more)

-- The loop of handle, which has no bound of its own; none when the fuel runs out.
unfoldable pub attempts_from : ConsumerOptions → Event → Attempts → ℕ → ℕ → Option (List Act)
unfolding run_after_commit
attempts_from o e env zero attempt = none
attempts_from o e env (suc fuel) attempt =
    let more = attempts_from o e env fuel (attempt + 1) in
    let call = handled (timeout_of o.process_timeout) in
    let finish = λ (s : Settlement). some (call ∷ settled s ∷ []) in
    let wait =
      if ge_int attempt o.max_retries
      then finish (nacked false)
      else if env.done_in_wait attempt
      then finish (nacked true)
      else prepend (call ∷ slept (retry_sleep o.retry_backoff attempt) ∷ []) more in
    elim (call_handler (env.result attempt)) [
      | none ↦ some (call ∷ run_after_commit o.after_commit ++ settled acked ∷ [])
      | some err ↦
          if env.done_after attempt
          then finish (nacked true)
          else elim (classifier_of o.retry_classifier e err) [
            | drop ↦ finish acked
            | dead_letter ↦ finish (nacked false)
            | _ ↦ wait
          ]
    ]

-- The rounds that the loop can take at most.
abbrev pub enough_rounds : ℤ → ℕ
enough_rounds (pos n) = suc n
enough_rounds (negsuc n) = 1

-- handle, for a delivery that is nil, or has no message, or has one.
unfoldable pub handle :
    ConsumerOptions → (now draw : ℕ) → Attempts → Option Delivery → Option (List Act)
unfolding attempts_from
handle o now draw env none = some []
handle o now draw env (some none) = some (settled (nacked false) ∷ [])
handle o now draw env (some (some m)) =
    attempts_from o (event_from_message now draw m) env (enough_rounds o.max_retries) 0
