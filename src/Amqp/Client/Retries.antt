-- ===== src/Amqp/Client/Retries.antt =====
-- How publishWithRetry ends: after boundedly many attempts, and without an error exactly if the
-- broker has confirmed the last one.
use eventbus.Base.{
  ◌<◌, ℕ, zero, suc, ◌+◌, ◌≤◌, List, [], ◌∷◌, ◌++◌, ◌≡◌, refl, ap, ◌∙◌, ◌↔◌, inl, inr, Bool, true,
  false, ◌&&◌, Option, none, some, Text, arith, Bool-cases, if◌then◌else◌,
}
use eventbus.Base.Order.{pos, max_int, rounds_upto, rounds_upto-pos}
use eventbus.Errors.{Error}
use eventbus.Backoff.{backoff}
use eventbus.Amqp.Client.{
  Publish, Publishing, Broker, Answer, not_sent, unconfirmed, confirmed, refused, Act, slept,
  attempt_error, final_error, less_than, after_acts, one_try, rounds_from, publish_with_retry,
}

module _ (p : Publish) (key : Text) (msg : Publishing) (broker : Broker) where
  abbrev not_taken : Answer → Bool
  not_taken (not_sent err) = true
  not_taken (unconfirmed err) = false
  not_taken confirmed = false
  not_taken refused = true

  abbrev cause_of : Answer → Option Error
  cause_of (not_sent err) = some err
  cause_of (unconfirmed err) = none
  cause_of confirmed = none
  cause_of refused = none

  abbrev is_none : Option Error → Bool
  is_none none = true
  is_none (some err) = false

  -- The attempt is followed by another one.
  pub retries_at : ℕ → Bool
  retries_at j =
      not_taken (broker.answer j) && (less_than j p.max_retries && is_none (broker.done_in_wait j))

  -- What Publish returns if the attempt is the last: nothing if the broker has confirmed it, the error
  -- of the wait or of the context, or the error that says the retries are used up.
  pub verdict : ℕ → Option Error
  verdict j = elim (broker.answer j) [
    | confirmed ↦ none
    | unconfirmed err ↦ some err
    | not_sent err ↦
        if less_than j p.max_retries
        then broker.done_in_wait j
        else some (final_error p (some (attempt_error p j (some err))))
    | refused ↦
        if less_than j p.max_retries
        then broker.done_in_wait j
        else some (final_error p (some (attempt_error p j none)))
  ]

  pub all_retry : ℕ → ℕ → Bool
  all_retry a zero = true
  all_retry a (suc m) = retries_at a && all_retry (a + 1) m

  -- `m` attempts from `a` on, each with its wait.
  pub tried : ℕ → ℕ → List Act
  tried a zero = []
  tried a (suc m) = one_try p key msg broker ∷ slept (backoff p.retry_backoff a) ∷ tried (a + 1) m

  one_more :
      (r a : ℕ) (last : Option Error)
      → retries_at a ≡ true
      → rounds_from p key msg broker (suc r) a last
        ≡ after_acts (one_try p key msg broker ∷ slept (backoff p.retry_backoff a) ∷ []) (
            rounds_from p key msg broker r
              (a + 1)
              (some (attempt_error p a (cause_of (broker.answer a)))))
  unfolding rounds_from retries_at
  one_more r a last h = ground arith

  the_last :
      (n r a : ℕ) (last : Option Error)
      → p.max_retries ≡ pos n
      → a + r ≡ n
      → retries_at a ≡ false
      → rounds_from p key msg broker (suc r) a last ≡ (one_try p key msg broker ∷ [], verdict a)
  unfolding rounds_from retries_at verdict
  the_last n zero a last max an h = ground arith
  the_last n (suc r) a last max an h = ground arith

  last_allowed : (n a : ℕ) → p.max_retries ≡ pos n → a ≡ n → retries_at a ≡ false
  unfolding retries_at
  last_allowed n a max an = ground arith

  confirmed_at :
      (n k : ℕ)
      → p.max_retries ≡ pos n
      → retries_at k ≡ false
      → (verdict k ≡ none) ↔ (broker.answer k ≡ confirmed)
  unfolding retries_at verdict
  confirmed_at n k max h = ground arith

  -- The attempt that is the last of those from `a` on.
  abbrev LastFrom : ℕ → ℕ → ℕ → Option Error → Type 0
  LastFrom n r a last =
      (m : ℕ) × (k : ℕ) × (a + m ≡ k)
      × (k ≤ n)
      × (all_retry a m ≡ true)
      × (retries_at k ≡ false)
      × (rounds_from p key msg broker (suc r) a last
          ≡ (tried a m ++ one_try p key msg broker ∷ [], verdict k))

  rounds_from_lem :
      (n r a : ℕ) (last : Option Error) → p.max_retries ≡ pos n → a + r ≡ n → LastFrom n r a last
  unfolding all_retry tried
  rounds_from_lem n zero a last max an =
      let over : retries_at a ≡ false = last_allowed n a max (omega arith) in
      (0, a, omega arith, omega arith, refl, over, the_last n 0 a last max an over)
  rounds_from_lem n (suc r) a last max an = elim (Bool-cases (retries_at a)) [
    | inr over ↦ (0, a, omega arith, omega arith, refl, over, the_last n (suc r) a last max an over)
    | inl again ↦
        let cause = some (attempt_error p a (cause_of (broker.answer a))) in
        let (m, k, at, le, every, over, run) =
          rounds_from_lem n r (a + 1) cause max (omega arith) in
        (
          suc m,
          k,
          omega arith,
          le,
          rw again every,
          over,
          one_more (suc r) a last again
              ∙ ap (after_acts (one_try p key msg broker ∷ slept (backoff p.retry_backoff a) ∷ []))
                  run,
        )
  ]

-- With maxRetries = n, not negative and below math.MaxInt, publishWithRetry makes k + 1 attempts for some k up to n: the
-- first k are not sent or refused, each is followed by its wait, and number k is the last; what is
-- returned is its verdict, which is nil exactly if the broker has confirmed that attempt.
pub publish_with_retry_lem :
    (p : Publish) (key : Text) (msg : Publishing) (broker : Broker) (n : ℕ)
    → p.max_retries ≡ pos n
    → n < max_int
    → (k : ℕ) × (k ≤ n)
      × (all_retry p key msg broker 0 k ≡ true)
      × (retries_at p key msg broker k ≡ false)
      × (publish_with_retry p key msg broker ≡ (
        tried p key msg broker 0 k ++ one_try p key msg broker ∷ [],
        verdict p key msg broker k,
      ))
      × (((publish_with_retry p key msg broker).1 ≡ none) ↔ (broker.answer k ≡ confirmed))
unfolding publish_with_retry
publish_with_retry_lem p key msg broker n max small =
    let (j, k, at, le, every, over, run) =
      rounds_from_lem p key msg broker n n 0 none max (omega arith) in
    let same : j ≡ k = omega arith in
    let all : publish_with_retry p key msg broker ≡ (
      tried p key msg broker 0 k ++ one_try p key msg broker ∷ [],
      verdict p key msg broker k,
    ) =
      ap (λ i. rounds_from p key msg broker (rounds_upto i) 0 none) max
      ∙ ap (λ r. rounds_from p key msg broker r 0 none) (rounds_upto-pos n small)
      ∙ run
      ∙ ap
          (λ i. (
            tried p key msg broker 0 i ++ one_try p key msg broker ∷ [],
            verdict p key msg broker k,
          ))
          same in
    (k, le, rw (← same) every, over, all, rw all (confirmed_at p key msg broker n k max over))
