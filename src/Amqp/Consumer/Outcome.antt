-- ===== src/Amqp/Consumer/Outcome.antt =====
-- How Consumer.handle ends: after boundedly many attempts, with one settlement, and an Ack only for a
-- message that was processed or is to be dropped.
use eventbus.Base.{
  ℕ, zero, suc, ◌+◌, ◌≤◌, List, [], ◌∷◌, ◌++◌, ◌≡◌, refl, ap, ◌∙◌, inl, inr, Bool, true, false, not,
  ◌&&◌, Option, none, some, arith, Bool-cases,
}
use eventbus.Base.Order.{ℤ, pos, negsuc, ge_int}
use eventbus.Errors.{Error, RetryDecision, retry, dead_letter, drop, other}
use eventbus.Event.{Event}
use eventbus.Backoff.{retry_sleep}
use eventbus.Pool.Options.{classifier_of}
use eventbus.Amqp.Message.{Message, Settlement, acked, nacked, event_from_message}
use eventbus.Amqp.Consumer.{
  ConsumerOptions, Attempts, Act, handled, slept, settled, timeout_of, call_handler,
  run_after_commit, prepend, attempts_from, enough_rounds, handle,
}

-- What the classifier's answer asks for.
abbrev goes_on : RetryDecision → Bool
goes_on retry = true
goes_on dead_letter = false
goes_on drop = false
goes_on (other n) = true

abbrev is_drop : RetryDecision → Bool
is_drop drop = true
is_drop _ = false

-- The number of the last attempt that the retries allow.
abbrev pub allowed : ℤ → ℕ
allowed (pos n) = n
allowed (negsuc n) = 0

module _ (o : ConsumerOptions) (e : Event) (env : Attempts) where
  abbrev error_wants_retry : Option Error → Bool
  error_wants_retry none = false
  error_wants_retry (some err) = goes_on (classifier_of o.retry_classifier e err)

  -- The attempt is followed by another one.
  pub retries_at : ℕ → Bool
  retries_at j =
      error_wants_retry (call_handler (env.result j))
      && (not (env.done_after j) && (not (ge_int j o.max_retries) && not (env.done_in_wait j)))

  abbrev settle_error : Bool → Bool → Bool → RetryDecision → Settlement
  settle_error true exhausted canceled d = nacked true
  settle_error false exhausted canceled drop = acked
  settle_error false exhausted canceled dead_letter = nacked false
  settle_error false true canceled d = nacked false
  settle_error false false canceled d = nacked true

  -- The settlement after the last attempt: an Ack for a success and for what the classifier drops; a
  -- Nack with requeue where the context is done; a Nack without for dead letters and when the retries
  -- are used up.
  pub settlement : ℕ → Settlement
  settlement k = elim (call_handler (env.result k)) [
    | none ↦ acked
    | some err ↦
        settle_error (env.done_after k) (ge_int k o.max_retries) (env.done_in_wait k)
          (classifier_of o.retry_classifier e err)
  ]

  abbrev pub hooks_after : Option Error → List Act
  hooks_after none = run_after_commit o.after_commit
  hooks_after (some err) = []

  -- The last attempt: the hooks only after a success, and before the settlement.
  unfoldable pub last_try : ℕ → List Act
  unfolding settlement
  last_try k =
      handled (timeout_of o.process_timeout) ∷ hooks_after (call_handler (env.result k))
      ++ settled (settlement k) ∷ []

  unfoldable pub tried : ℕ → ℕ → List Act
  tried a zero = []
  tried a (suc m) =
      handled (timeout_of o.process_timeout)
      ∷ slept (retry_sleep o.retry_backoff a)
      ∷ tried (a + 1) m

  pub all_retry : ℕ → ℕ → Bool
  all_retry a zero = true
  all_retry a (suc m) = retries_at a && all_retry (a + 1) m

  one_more :
      (f a : ℕ)
      → retries_at a ≡ true
      → attempts_from o e env (suc f) a
        ≡ prepend
            (handled (timeout_of o.process_timeout) ∷ slept (retry_sleep o.retry_backoff a) ∷ [])
            (attempts_from o e env f (a + 1))
  unfolding attempts_from retries_at
  one_more f a h = ground arith

  the_last : (f a : ℕ) → retries_at a ≡ false → attempts_from o e env (suc f) a ≡ some (last_try a)
  unfolding attempts_from retries_at last_try
  the_last f a h = ground arith

  -- The attempt that is the last of those from `a` on, if there must be one by `n`.
  abbrev LastFrom : ℕ → ℕ → ℕ → Type 0
  LastFrom n fuel a =
      (m : ℕ) × (k : ℕ) × (a + m ≡ k)
      × (k ≤ n)
      × (all_retry a m ≡ true)
      × (retries_at k ≡ false)
      × (attempts_from o e env (suc fuel) a ≡ some (tried a m ++ last_try k))

  attempts_from_lem : (n fuel a : ℕ) → a + fuel ≡ n → retries_at n ≡ false → LastFrom n fuel a
  unfolding all_retry tried
  attempts_from_lem n zero a an over =
      let same : n ≡ a = omega arith in
      let stop : retries_at a ≡ false = rw (← same) over in
      (0, a, omega arith, omega arith, refl, stop, the_last 0 a stop)
  attempts_from_lem n (suc fuel) a an over = elim (Bool-cases (retries_at a)) [
    | inr stop ↦ (0, a, omega arith, omega arith, refl, stop, the_last (suc fuel) a stop)
    | inl again ↦
        let (m, k, at, le, every, stop, run) =
          attempts_from_lem n fuel (a + 1) (omega arith) over in
        (
          suc m,
          k,
          omega arith,
          le,
          rw again every,
          stop,
          rw (one_more (suc fuel) a again, run) refl,
        )
  ]

  retries_at-allowed : retries_at (allowed o.max_retries) ≡ false
  unfolding retries_at
  retries_at-allowed = ground arith

-- The loop of handle ends: for a message that arrives, there is some k, MaxRetries at most (0 if that
-- is negative), so that the first k attempts fail with errors to be retried, each followed by its
-- wait, and number k is the last; then come the hooks, if it succeeded, and one Ack or Nack, which
-- ends the run: an Ack for a success or an error that the classifier drops, a Nack with requeue where
-- the context is done, and a Nack without requeue for a dead letter or when the retries are used up.
pub handle_lem :
    (o : ConsumerOptions) (now draw : ℕ) (env : Attempts) (m : Message)
    → (k : ℕ) × (k ≤ allowed o.max_retries)
      × (all_retry o (event_from_message now draw m) env 0 k ≡ true)
      × (retries_at o (event_from_message now draw m) env k ≡ false)
      × (handle o now draw env (some (some m))
          ≡ some (
              tried o (event_from_message now draw m) env 0 k
              ++ last_try o (event_from_message now draw m) env k))
unfolding handle
handle_lem o now draw env m =
    let e = event_from_message now draw m in
    let n = allowed o.max_retries in
    let rounds : enough_rounds o.max_retries ≡ suc n = ground arith in
    let (j, k, at, le, every, stop, run) =
      attempts_from_lem o e env n n 0 (omega arith) (retries_at-allowed o e env) in
    let same : j ≡ k = omega arith in
    (
      k,
      le,
      rw (← same) every,
      stop,
      ap (λ r. attempts_from o e env r 0) rounds
          ∙ run
          ∙ ap (λ i. some (tried o e env 0 i ++ last_try o e env k)) same,
    )
