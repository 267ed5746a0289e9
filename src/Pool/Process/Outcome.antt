-- ===== src/Pool/Process/Outcome.antt =====
-- How process ends: after which attempt, and with what.
use eventbus.Base.{
  ℕ, zero, suc, ◌+◌, ◌-◌, ◌≤◌, ◌<◌, List, [], ◌∷◌, ◌++◌, ◌≡◌, refl, ◌⊎◌, inl, inr, Bool, true,
  false, not, ◌&&◌, arith, Bool-cases, if◌then◌else◌,
}
use eventbus.Base.Order.{pos, max_int, rounds_upto, rounds_upto-pos}
use eventbus.Errors.{RetryDecision, retry, dead_letter, drop, other}
use eventbus.Event.{Event}
use eventbus.Backoff.{HandlerResult, succeeded, failed, panics, retry_sleep}
use eventbus.Pool.Options.{Options, RetryClassifier, classifier_of}
use eventbus.Pool.Process.{
  Attempts, Act, handled, slept, dead_letter_acts, timeout_of, attempts_from, process,
}

abbrev goes_on : RetryDecision → Bool
goes_on retry = true
goes_on dead_letter = false
goes_on drop = false
goes_on (other n) = true

abbrev is_drop : RetryDecision → Bool
is_drop drop = true
is_drop _ = false

abbrev wants_retry : RetryClassifier → Event → HandlerResult → Bool
wants_retry f e succeeded = false
wants_retry f e panics = false
wants_retry f e (failed err) = goes_on (f e err)

abbrev is_over : RetryClassifier → Event → HandlerResult → Bool
is_over f e succeeded = true
is_over f e panics = false
is_over f e (failed err) = is_drop (f e err)

-- The attempt failed with an error that the classifier wants to be tried again, and the context was
-- alive to the end of the wait.
pub retries_at : Options → Event → Attempts → ℕ → Bool
retries_at o e env j =
    wants_retry (classifier_of o.retry_classifier) e (env.result j) && not (env.canceled j)

-- The attempt succeeded, or failed with an error that the classifier drops.
pub ends_well : Options → Event → Attempts → ℕ → Bool
ends_well o e env j = is_over (classifier_of o.retry_classifier) e (env.result j)

pub all_retry : Options → Event → Attempts → ℕ → ℕ → Bool
all_retry o e env a zero = true
all_retry o e env a (suc m) = retries_at o e env a && all_retry o e env (a + 1) m

-- `m` failed attempts from `a` on, each with its wait.
pub tried : Options → ℕ → ℕ → List Act
tried o a zero = []
tried o a (suc m) =
    handled (timeout_of o.handler_timeout)
    ∷ slept (retry_sleep o.retry_backoff a)
    ∷ tried o (a + 1) m

-- The last attempt: the dead letter follows unless it has ended well.
unfoldable pub last_try : Options → Event → Attempts → ℕ → List Act
unfolding ends_well
last_try o e env k =
    handled (timeout_of o.handler_timeout)
    ∷ (if ends_well o e env k then [] else dead_letter_acts o.dead_letter_func e)

pub one_more :
    (o : Options) (e : Event) (env : Attempts) (n r a : ℕ)
    → o.max_retries ≡ pos n
    → a < n
    → retries_at o e env a ≡ true
    → attempts_from o e env (suc r) a
      ≡ handled (timeout_of o.handler_timeout)
        ∷ slept (retry_sleep o.retry_backoff a)
        ∷ attempts_from o e env r (a + 1)
unfolding attempts_from retries_at
one_more o e env n r a max lt h = ground arith

pub the_last :
    (o : Options) (e : Event) (env : Attempts) (n r a : ℕ)
    → o.max_retries ≡ pos n
    → (retries_at o e env a ≡ false) ⊎ (a ≡ n)
    → attempts_from o e env (suc r) a ≡ last_try o e env a
unfolding attempts_from retries_at last_try
the_last o e env n r a max h = ground arith

attempts_from-tried :
    (o : Options) (e : Event) (env : Attempts) (n m a k r : ℕ)
    → o.max_retries ≡ pos n
    → a + m ≡ k
    → k + r ≡ n
    → all_retry o e env a m ≡ true
    → (retries_at o e env k ≡ false) ⊎ (k ≡ n)
    → attempts_from o e env (m + suc r) a ≡ tried o a m ++ last_try o e env k
unfolding all_retry tried
attempts_from-tried o e env n zero a k r max ek en every stop =
    let same : a ≡ k = omega arith in
    let rounds : 0 + suc r ≡ suc r = omega arith in
    rw (rounds, same) (the_last o e env n r k max stop)
attempts_from-tried o e env n (suc m) a k r max ek en every stop =
    let rounds : suc m + suc r ≡ suc (m + suc r) = omega arith in
    let ih = attempts_from-tried o e env n m (a + 1) k r max (omega arith) en (ground arith) stop in
    rw (rounds, one_more o e env n (m + suc r) a max (omega arith) (ground arith), ih)

process-tried :
    (o : Options) (e : Event) (env : Attempts) (n k : ℕ)
    → o.max_retries ≡ pos n
    → n < max_int
    → k ≤ n
    → all_retry o e env 0 k ≡ true
    → (retries_at o e env k ≡ false) ⊎ (k ≡ n)
    → process o e env ≡ tried o 0 k ++ last_try o e env k
unfolding process
process-tried o e env n k max small le every stop =
    let rounds : rounds_upto o.max_retries ≡ k + suc (n - k) =
      rw (max, rounds_upto-pos n small) (omega arith) in
    rw rounds
      (attempts_from-tried o e env n k 0 k (n - k) max (omega arith) (omega arith) every stop)

-- The attempt that is the last of those from `a` on, `m` attempts later.
abbrev LastAfter : Options → Event → Attempts → ℕ → ℕ → Type 0
LastAfter o e env n a =
    (m : ℕ) × (k : ℕ) × (a + m ≡ k)
    × (all_retry o e env a m ≡ true)
    × ((retries_at o e env k ≡ false) ⊎ (k ≡ n))
    × (k ≤ n)

find_last :
    (o : Options) (e : Event) (env : Attempts) (n fuel a : ℕ) → a + fuel ≡ n → LastAfter o e env n a
unfolding all_retry
find_last o e env n zero a h = (0, a, omega arith, refl, inr (omega arith), omega arith)
find_last o e env n (suc fuel) a h = elim (Bool-cases (retries_at o e env a)) [
  | inr stop ↦ (0, a, omega arith, refl, inl stop, omega arith)
  | inl again ↦
      let (m, k, at, every, stop, le) = find_last o e env n fuel (a + 1) (omega arith) in
      (suc m, k, omega arith, rw again every, stop, le)
]

-- With MaxRetries = n, not negative and below math.MaxInt, process makes k + 1 attempts for some k up to n: the first k fail
-- with errors to be retried, each followed by its wait, and number k is the last, since it wants no
-- retry or since k is n. DeadLetterFunc, if there is one, gets the event after the last attempt,
-- exactly if that neither succeeded nor failed with an error that the classifier drops.
pub process_lem :
    (o : Options) (e : Event) (env : Attempts) (n : ℕ)
    → o.max_retries ≡ pos n
    → n < max_int
    → (k : ℕ) × (k ≤ n)
      × (all_retry o e env 0 k ≡ true)
      × ((retries_at o e env k ≡ false) ⊎ (k ≡ n))
      × (process o e env ≡ tried o 0 k ++ last_try o e env k)
process_lem o e env n max small =
    let (m, k, at, every, stop, le) = find_last o e env n n 0 (omega arith) in
    let same : m ≡ k = omega arith in
    let all : all_retry o e env 0 k ≡ true = rw (← same) every in
    (k, le, all, stop, process-tried o e env n k max small le all stop)
