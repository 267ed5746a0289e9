-- ===== src/Pool/Lifecycle/Settled.antt =====
-- The goroutines of a pool together with what process does with each event that a worker takes.
use eventbus.Base.{
  ◌<◌, ℕ, zero, suc, ◌+◌, List, [], ◌∷◌, ◌++◌, ◌≡◌, refl, inl, inr, Bool, some, arith, Bool-cases,
  if◌then◌else◌,
}
use eventbus.Base.Order.{pos, max_int, rounds_upto, rounds_upto-pos}
use eventbus.Event.{Event}
use eventbus.Event.Counts.{one_if, count}
use eventbus.Pool.Options.{Options}
use eventbus.Pool.Process.{Attempts, Act, handled, slept, dead_lettered, attempts_from, process}
use eventbus.Pool.Process.Outcome.{retries_at, ends_well, last_try, one_more, the_last}
use eventbus.Pool.Lifecycle.{Line, subscribe_with_pool, Steps}
use eventbus.Pool.Lifecycle.Conservation.{count_failed, count_line, Steps-count_line}

-- The events that DeadLetterFunc gets.
abbrev pub count_dead : (Event → Bool) → List Act → ℕ
count_dead test [] = 0
count_dead test (handled d ∷ acts) = count_dead test acts
count_dead test (slept d ∷ acts) = count_dead test acts
count_dead test (dead_lettered f e ∷ acts) = one_if (test e) + count_dead test acts

count_dead-append :
    (test : Event → Bool) (xs ys : List Act)
    → count_dead test (xs ++ ys) ≡ count_dead test xs + count_dead test ys
count_dead-append test [] ys = omega arith
count_dead-append test (handled d ∷ xs) ys = count_dead-append test xs ys
count_dead-append test (slept d ∷ xs) ys = count_dead-append test xs ys
count_dead-append test (dead_lettered f e ∷ xs) ys = omega (arith, count_dead-append test xs ys)

module _ (o : Options) where
  -- The last attempt from number `a` on, where `more` could come behind that.
  unfoldable pub last_attempt : Event → Attempts → (more a : ℕ) → ℕ
  last_attempt e env zero a = a
  last_attempt e env (suc more) a =
      let later = last_attempt e env more (a + 1) in if retries_at o e env a then later else a

  -- What the workers have done: the i-th event that was processed met with `envs i`.
  abbrev pub work : (ℕ → Attempts) → ℕ → List Event → List Act
  work envs i [] = []
  work envs i (e ∷ es) = process o e (envs i) ++ work envs (i + 1) es

  -- The events whose last attempt of n + 1 succeeded, or failed with an error that is dropped.
  abbrev pub count_well : (Event → Bool) → (n : ℕ) → (ℕ → Attempts) → ℕ → List Event → ℕ
  count_well test n envs i [] = 0
  count_well test n envs i (e ∷ es) =
      let rest = count_well test n envs (i + 1) es in
      if ends_well o e (envs i) (last_attempt e (envs i) n 0) then one_if (test e) + rest else rest

  module _ (n f : ℕ) (max : o.max_retries ≡ pos n) (small : n < max_int)
      (func : o.dead_letter_func ≡ some f) where
    count_dead-last_try :
        (test : Event → Bool) (e : Event) (env : Attempts) (k : ℕ)
        → count_dead test (last_try o e env k)
          ≡ (if ends_well o e env k then 0 else one_if (test e))
    unfolding last_try
    count_dead-last_try test e env k = ground (arith, func)

    count_dead-attempts_from :
        (test : Event → Bool) (e : Event) (env : Attempts) (more a : ℕ)
        → a + more ≡ n
        → count_dead test (attempts_from o e env (suc more) a)
          ≡ (if ends_well o e env (last_attempt e env more a) then 0 else one_if (test e))
    unfolding last_attempt
    count_dead-attempts_from test e env zero a h =
        rw (the_last o e env n zero a max (inr (omega arith))) (count_dead-last_try test e env a)
    count_dead-attempts_from test e env (suc more) a h = elim (Bool-cases (retries_at o e env a)) [
      | inl again ↦
          rw (again, one_more o e env n (suc more) a max (omega arith) again)
            (count_dead-attempts_from test e env more (a + 1) (omega arith))
      | inr stop ↦
          rw (stop, the_last o e env n (suc more) a max (inl stop))
            (count_dead-last_try test e env a)
    ]

    count_dead-process :
        (test : Event → Bool) (e : Event) (env : Attempts)
        → count_dead test (process o e env)
          ≡ (if ends_well o e env (last_attempt e env n 0) then 0 else one_if (test e))
    unfolding process
    count_dead-process test e env =
        let rounds : rounds_upto o.max_retries ≡ suc n = rw max (rounds_upto-pos n small) in
        rw rounds (count_dead-attempts_from test e env n 0 (omega arith))

    count_dead-work :
        (test : Event → Bool) (envs : ℕ → Attempts) (i : ℕ) (es : List Event)
        → count_well test n envs i es + count_dead test (work envs i es) ≡ count test es
    count_dead-work test envs i [] = refl
    count_dead-work test envs i (e ∷ es) = ground (
      arith,
      count_dead-append test (process o e (envs i)) (work envs (i + 1) es),
      count_dead-process test e (envs i),
      count_dead-work test envs (i + 1) es,
    )

-- Whatever the goroutines of a pool have done since SubscribeWithPool, and whatever the handler did in
-- each attempt, each event that the bus put into the pool's channel is, once: handled, with an attempt
-- that succeeded or whose error the classifier drops; given to DeadLetterFunc; given to FailHandler;
-- with a worker; or waiting in the channel or the queue. Hypotheses: MaxRetries is not negative and not math.MaxInt, and
-- there is a DeadLetterFunc.
pub Steps-settle :
    {l : Line} {es : List Event} (queue_size workers : ℕ) (o : Options) (n f : ℕ)
    (envs : ℕ → Attempts) (test : Event → Bool)
    → o.max_retries ≡ pos n
    → n < max_int
    → o.dead_letter_func ≡ some f
    → Steps (subscribe_with_pool queue_size workers) es l
    → count_well o test n envs 0 l.processed
        + count_dead test (work o envs 0 l.processed)
        + count_failed test l.failed
        + count test l.busy
        + count test l.inbox
        + count test l.queue
      ≡ count test es
unfolding count_line
Steps-settle {l} queue_size workers o n f envs test max small func run =
    omega (
      arith,
      Steps-count_line test run,
      count_dead-work o n f max small func test envs 0 l.processed,
    )
