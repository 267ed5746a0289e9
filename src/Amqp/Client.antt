-- ===== src/Amqp/Client.antt =====
-- ext/amqp/amqpclt/publish.go: a message is published until the broker confirms it, with waits
-- between the attempts. The client library's channel and the JSON encoder are arguments.
pub mod Retries
pub mod Messages
pub mod Batches
pub mod Opening
use eventbus.Base.{
  ℕ, zero, suc, ◌+◌, List, [], ◌∷◌, ◌++◌, Bool, true, false, Option, none, some, Text, codes,
  text_eq, ltb, if◌then◌else◌,
}
use eventbus.Base.Order.{ℤ, pos, negsuc, max_int, rounds_upto}
use eventbus.Errors.{Error, plain, wrap}
use eventbus.Backoff.{backoff}
use eventbus.Bus.Decimal.{format_uint}
use eventbus.Amqp.Message.{Message}

-- Publish, without the channel; a timeout of 0 is none.
pub record Publish : Type 0 where
  pub exchange : Text
  pub max_retries : ℤ
  pub retry_backoff : ℕ
  pub confirm_timeout : ℕ

-- PublishOption.
pub data PublishOption : Type 0 where
  with_max_retries : ℤ → PublishOption
  with_retry_backoff with_publish_timeout : ℕ → PublishOption

unfoldable pub apply_option : PublishOption → Publish → Publish
apply_option (with_max_retries n) p = record p { max_retries = n }
apply_option (with_retry_backoff d) p = record p { retry_backoff = d }
apply_option (with_publish_timeout d) p = record p { confirm_timeout = d }

unfoldable pub apply_options : List PublishOption → Publish → Publish
unfolding apply_option
apply_options [] p = p
apply_options (o ∷ os) p = apply_options os (apply_option o p)

-- NewPublisher, where the broker has no objection.
unfoldable pub new_publish : Text → List PublishOption → Publish
unfolding apply_options
new_publish exchange os = apply_options os (record {
  exchange = exchange;
  max_retries = pos 3;
  retry_backoff = 100_000_000;
  confirm_timeout = 0;
})

-- What an attempt comes to: the channel returns an error, or the wait for the confirm does, or the
-- broker confirms or refuses the message.
pub data Answer : Type 0 where
  not_sent unconfirmed : Error → Answer
  confirmed refused : Answer

-- The broker's answers to the attempts, and the error of the context if it is done in the wait after
-- an attempt.
pub record Broker : Type 0 where
  pub answer : ℕ → Answer
  pub done_in_wait : ℕ → Option Error

-- amqp.Publishing, as far as it depends on the message.
pub record Publishing : Type 0 where
  pub correlation_id : Text
  pub body : Text

pub data Act : Type 0 where
  -- A publication: exchange, routing key, message, and the timeout of the wait for its confirm.
  published : Text → Text → Publishing → Option ℕ → Act
  slept : ℕ → Act

-- p.maxRetries + 1 in the texts.
abbrev format_rounds : ℤ → Text
format_rounds (pos n) =
    if ltb n max_int then format_uint (n + 1) else codes "-" ++ format_uint (max_int + 1)
format_rounds (negsuc zero) = format_uint 0
format_rounds (negsuc (suc n)) = codes "-" ++ format_uint (n + 1)

abbrev attempt_text : Publish → ℕ → Text
attempt_text p attempt =
    codes "attempt " ++ format_uint (attempt + 1) ++ codes "/" ++ format_rounds p.max_retries

-- The error of an attempt that is to be repeated.
abbrev pub attempt_error : Publish → ℕ → Option Error → Error
attempt_error p attempt (some err) =
    wrap (codes "publish (" ++ attempt_text p attempt ++ codes ")") err
attempt_error p attempt none =
    plain (codes "publish nacked by broker (" ++ attempt_text p attempt ++ codes ")")

-- The error at the end, which wraps the last one; it is nil if there was no attempt.
abbrev pub final_error : Publish → Option Error → Error
final_error p (some err) =
    wrap (codes "publish failed after " ++ format_rounds p.max_retries ++ codes " retries") err
final_error p none =
    plain (codes "publish failed after " ++ format_rounds p.max_retries ++ codes " retries")

-- waitForConfirm: the timeout of its own, if there is one.
abbrev pub confirm_timeout_of : Publish → Option ℕ
confirm_timeout_of p = if ltb 0 p.confirm_timeout then some p.confirm_timeout else none

abbrev pub less_than : ℕ → ℤ → Bool
less_than a (pos n) = ltb a n
less_than a (negsuc n) = false

abbrev pub after_acts : List Act → List Act × Option Error → List Act × Option Error
after_acts acts (more, err) = (acts ++ more, err)

module _ (p : Publish) (key : Text) (msg : Publishing) (broker : Broker) where
  abbrev pub one_try : Act
  one_try = published p.exchange key msg (confirm_timeout_of p)

  -- The loop of publishWithRetry, with the last error; `rounds` are left.
  unfoldable pub rounds_from : ℕ → ℕ → Option Error → List Act × Option Error
  rounds_from zero attempt last = ([], some (final_error p last))
  rounds_from (suc rounds) attempt last =
      let after_error = rounds_from rounds (attempt + 1) in
      let again = λ (cause : Option Error).
        let rest = after_error (some (attempt_error p attempt cause)) in
        if less_than attempt p.max_retries
        then elim (broker.done_in_wait attempt) [
          | some err ↦ (one_try ∷ [], some err)
          | none ↦ after_acts (one_try ∷ slept (backoff p.retry_backoff attempt) ∷ []) rest
        ]
        else after_acts (one_try ∷ []) rest in
      elim (broker.answer attempt) [
        | confirmed ↦ (one_try ∷ [], none)
        | unconfirmed err ↦ (one_try ∷ [], some err)
        | not_sent err ↦ again (some err)
        | refused ↦ again none
      ]

  -- publishWithRetry.
  unfoldable pub publish_with_retry : List Act × Option Error
  unfolding rounds_from
  publish_with_retry = rounds_from (rounds_upto p.max_retries) 0 none
