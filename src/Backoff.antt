-- ===== src/Backoff.antt =====
-- The waits between attempts, as ext/pool, ext/amqp and ext/amqp/amqpclt compute them; and what a
-- handler's call can come to.
use eventbus.Base.{ℕ, ◌*◌, ◌^◌, ◌≤◌, ◌<◌, ◌≡◌, ap, arith, ltb, min, if◌then◌else◌}
use native.Mathlib.Nat.{pow-le-pow_right, one-le-pow}
use eventbus.Base.Order.{u64}
use eventbus.Errors.{Error}

-- A call of Handle: nil, an error, or a panic.
pub data HandlerResult : Type 0 where
  succeeded : HandlerResult
  failed : Error → HandlerResult
  panics : HandlerResult

-- `base * (1 << min(attempt, 10))`, as a word of 64 bits. (A time.Duration is signed: from 2^63 on
-- the word stands for a negative one.)
unfoldable pub retry_sleep : ℕ → ℕ → ℕ
retry_sleep base attempt = u64 (base * 2 ^ min attempt 10)

-- The same with the test of publish.go.
unfoldable pub backoff : ℕ → ℕ → ℕ
backoff base attempt =
    let capped = if ltb 10 attempt then 10 else attempt in u64 (base * 2 ^ capped)

two_pow_bounds : (k : ℕ) → k ≤ 10 → (1 ≤ 2 ^ k) × (2 ^ k ≤ 1024)
two_pow_bounds k h = (one-le-pow k 2 (omega arith), pow-le-pow_right (omega arith) h)

product_bounds : (base p : ℕ) → 1 ≤ p → p ≤ 1024 → (base ≤ base * p) × (base * p ≤ base * 1024)
product_bounds base p lo hi = (grind arith, grind arith)

word_of_product :
    (base p : ℕ)
    → (base ≤ base * p) × (base * p ≤ base * 1024)
    → base * 1024 < 2 ^ 63
    → (u64 (base * p) ≡ base * p)
      × (base ≤ u64 (base * p))
      × (u64 (base * p) ≤ base * 1024)
      × (u64 (base * p) < 2 ^ 63)
word_of_product base p b h = omega arith

backoff-retry_sleep : (base attempt : ℕ) → backoff base attempt ≡ retry_sleep base attempt
unfolding backoff retry_sleep
backoff-retry_sleep base attempt = ap (λ k. u64 (base * 2 ^ k)) (capped attempt)
  where
    capped : (n : ℕ) → (if ltb 10 n then 10 else n) ≡ min n 10
    capped n = ground arith

-- The two computations agree. While the base leaves room for ten doublings in a signed word, the wait
-- is the base doubled with each attempt, ten times at most: it is no shorter than the base, and never
-- longer than 1024 times the base, and never negative.
pub backoff_lem :
    (base attempt : ℕ)
    → base * 1024 < 2 ^ 63
    → (backoff base attempt ≡ retry_sleep base attempt)
      × (retry_sleep base attempt ≡ base * 2 ^ min attempt 10)
      × (base ≤ retry_sleep base attempt)
      × (retry_sleep base attempt ≤ base * 1024)
      × (retry_sleep base attempt < 2 ^ 63)
unfolding retry_sleep
backoff_lem base attempt h =
    let (lo, hi) = two_pow_bounds (min attempt 10) (omega arith) in
    let word =
      word_of_product base (2 ^ min attempt 10) (product_bounds base (2 ^ min attempt 10) lo hi)
        h in
    (backoff-retry_sleep base attempt, word.0, word.1, word.2, word.3)
