-- ===== src/Pool/Options.antt =====
-- The options of a pool. A callback is a number; what is called is listed in the order of the calls.
use eventbus.Base.{ℕ, List, [], ◌∷◌, Option, none, some}
use eventbus.Base.Order.{ℤ, pos}
use eventbus.Errors.{Error, RetryDecision, default_retry_classifier}
use eventbus.Event.{Event}

-- RetryClassifier, of a consumer that does not read the context.
abbrev pub RetryClassifier : Type 0
RetryClassifier = Event → Error → RetryDecision

-- Options. A duration is a number of nanoseconds.
pub record Options : Type 0 where
  pub queue_size : ℤ
  pub handler_timeout : ℕ
  pub max_retries : ℤ
  pub retry_backoff : ℕ
  pub retry_classifier : Option RetryClassifier
  pub fail_handler : ℕ
  pub dead_letter_func : Option ℕ

-- Option.
pub data PoolOption : Type 0 where
  with_queue_size with_max_retries : ℤ → PoolOption
  with_handler_timeout with_retry_backoff : ℕ → PoolOption
  with_retry_classifier : Option RetryClassifier → PoolOption
  with_fail_handler : ℕ → PoolOption
  with_dead_letter_func : Option ℕ → PoolOption

-- The functions that the With… functions return.
unfoldable pub apply_option : PoolOption → Options → Options
apply_option (with_queue_size n) o = record o { queue_size = n }
apply_option (with_max_retries n) o = record o { max_retries = n }
apply_option (with_handler_timeout d) o = record o { handler_timeout = d }
apply_option (with_retry_backoff d) o = record o { retry_backoff = d }
apply_option (with_retry_classifier f) o = record o { retry_classifier = f }
apply_option (with_fail_handler f) o = record o { fail_handler = f }
apply_option (with_dead_letter_func f) o = record o { dead_letter_func = f }

-- The number of the default FailHandler, which logs.
abbrev pub log_dropped : ℕ
log_dropped = 0

-- The options that SubscribeWithPool begins with.
abbrev pub default_options : Options
default_options = record {
  queue_size = pos 1000;
  handler_timeout = 0;
  max_retries = pos 0;
  retry_backoff = 1_000_000_000;
  retry_classifier = none;
  fail_handler = log_dropped;
  dead_letter_func = none;
}

unfoldable pub apply_options : List PoolOption → Options → Options
unfolding apply_option
apply_options [] o = o
apply_options (p ∷ ps) o = apply_options ps (apply_option p o)

-- The classifier in use.
abbrev pub classifier_of : Option RetryClassifier → RetryClassifier
classifier_of none = λ _ err. default_retry_classifier err
classifier_of (some f) = f
