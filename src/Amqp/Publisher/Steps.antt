-- ===== src/Amqp/Publisher/Steps.antt =====
-- The interleavings of enqueue, Close, mqWorker and the fallback goroutines: nothing is lost or sent
-- twice, and the buffers keep their sizes.
use eventbus.Base.{
  false, true, ℕ, suc, ◌+◌, ◌≤◌, List, [], ◌∷◌, ◌++◌, ◌≡◌, ap, Bool, none, some, length,
  length-append, arith,
}
use eventbus.Event.{Event}
use eventbus.Event.Counts.{one_if, count, count-append, count_hand}
use eventbus.Amqp.Publisher.{
  Publisher, queue_size, fallback_size, new_publisher, enqueue, close_publisher,
}

-- What a call of amqpPub.Publish comes to. Without a confirmTimeout its wait for the broker's confirm
-- has no bound for mqWorker, whose context is context.Background(), so it may never return; and it
-- panics for an event with a nil payload.
pub data Reply : Type 0 where
  returns hangs panics : Reply

-- A step, and the events that it hands to enqueue; none after a panic.
pub data Step (replies : Event → Reply) : Publisher → List Event → Publisher → Type 0 where
  enqueues : (e : Event) (p : Publisher) → p.crashed ≡ false → Step replies p (e ∷ []) (enqueue e p)
  -- mqWorker receives, and calls sendToMQ.
  takes :
      (e : Event) (es : List Event) (p : Publisher)
      → p.queue ≡ e ∷ es
      → p.in_hand ≡ none
      → p.crashed ≡ false
      → Step replies p [] (record p { queue = es; in_hand = some e })
  -- Publish returns to mqWorker.
  sends :
      (e : Event) (p : Publisher)
      → p.in_hand ≡ some e
      → replies e ≡ returns
      → p.crashed ≡ false
      → Step replies p [] (record p { in_hand = none; sent = p.sent ++ e ∷ [] })
  -- Publish returns to a fallback goroutine, which gives its slot back.
  falls :
      (before : List Event) (e : Event) (after : List Event) (p : Publisher)
      → p.fallback ≡ before ++ e ∷ after
      → replies e ≡ returns
      → p.crashed ≡ false
      → Step replies p [] (record p { fallback = before ++ after; sent = p.sent ++ e ∷ [] })
  closes : (p : Publisher) → p.crashed ≡ false → Step replies p [] (close_publisher p)
  -- Publish panics, in mqWorker or in a fallback goroutine; neither recovers.
  crashes_worker :
      (e : Event) (p : Publisher)
      → p.in_hand ≡ some e
      → replies e ≡ panics
      → p.crashed ≡ false
      → Step replies p [] (record p { crashed = true })
  crashes_fallback :
      (before : List Event) (e : Event) (after : List Event) (p : Publisher)
      → p.fallback ≡ before ++ e ∷ after
      → replies e ≡ panics
      → p.crashed ≡ false
      → Step replies p [] (record p { crashed = true })

-- Steps, and all the events that they hand to enqueue.
pub data Steps (replies : Event → Reply) : Publisher → List Event → Publisher → Type 0 where
  done : {p : Publisher} → Steps replies p [] p
  next :
      {p q r : Publisher} {es fs : List Event}
      → Step replies p es q
      → Steps replies q fs r
      → Steps replies p (es ++ fs) r

-- The events of a publisher that the test holds of, wherever they are.
unfoldable pub count_everywhere : (Event → Bool) → Publisher → ℕ
count_everywhere test p =
    count test p.queue
    + count_hand test p.in_hand
    + count test p.fallback
    + count test p.sent
    + count test p.discarded

Step-count :
    {replies : Event → Reply} {p q : Publisher} {es : List Event} (test : Event → Bool)
    → Step replies p es q
    → count_everywhere test q ≡ count_everywhere test p + count test es
unfolding enqueue count_everywhere close_publisher
Step-count test (enqueues e p alive) = ground (
  arith,
  count-append test p.queue (e ∷ []),
  count-append test p.fallback (e ∷ []),
  count-append test p.discarded (e ∷ []),
)
Step-count test (takes e es p queue hand alive) =
    let a : count test p.queue ≡ one_if (test e) + count test es = ap (count test) queue in
    let b : count_hand test p.in_hand ≡ 0 = ap (count_hand test) hand in omega arith
Step-count test (sends e p hand r alive) =
    let a : count_hand test p.in_hand ≡ one_if (test e) = ap (count_hand test) hand in
    omega (arith, count-append test p.sent (e ∷ []))
Step-count test (falls before e after p fallback r alive) =
    let a : count test p.fallback ≡ count test (before ++ e ∷ after) = ap (count test) fallback in
    omega (
      arith,
      count-append test p.sent (e ∷ []),
      count-append test before (e ∷ after),
      count-append test before after,
    )
Step-count test (closes p alive) = omega arith
Step-count test (crashes_worker e p hand r alive) = omega arith
Step-count test (crashes_fallback before e after p fallback r alive) = omega arith

-- However the goroutines take turns, each event that is handed to enqueue is in one place, once: in
-- the queue, in the worker's hands, with a fallback goroutine, among the sent or among the dropped.
pub Steps-count :
    {replies : Event → Reply} {p q : Publisher} {es : List Event} (test : Event → Bool)
    → Steps replies p es q
    → count_everywhere test q ≡ count_everywhere test p + count test es
Steps-count test done = omega arith
Steps-count test (next {es} {fs} s more) =
    omega (arith, Step-count test s, Steps-count test more, count-append test es fs)

-- mqQueue and fallbackSem never hold more than they can.
unfoldable pub IsBounded : Publisher → Type 0
IsBounded p = (length p.queue ≤ queue_size) × (length p.fallback ≤ fallback_size)

Step-IsBounded :
    {replies : Event → Reply} {p q : Publisher} {es : List Event}
    → Step replies p es q
    → IsBounded p
    → IsBounded q
unfolding enqueue close_publisher IsBounded
Step-IsBounded (enqueues e p alive) h =
    ground (arith, length-append p.queue (e ∷ []), length-append p.fallback (e ∷ []))
Step-IsBounded (takes e es p queue hand alive) h =
    let a : length p.queue ≡ suc (length es) = ap length queue in (omega arith, h.1)
Step-IsBounded (sends e p hand r alive) h = h
Step-IsBounded (falls before e after p fallback r alive) h =
    let a : length p.fallback ≡ length (before ++ e ∷ after) = ap length fallback in
    (h.0, omega (arith, length-append before (e ∷ after), length-append before after))
Step-IsBounded (closes p alive) h = h
Step-IsBounded (crashes_worker e p hand r alive) h = h
Step-IsBounded (crashes_fallback before e after p fallback r alive) h = h

-- However the goroutines take turns: a publisher with at most 1000 events queued and at most 100
-- fallback goroutines keeps to these bounds. (A new one has none of either.)
pub Steps-IsBounded :
    {replies : Event → Reply} {p q : Publisher} {es : List Event}
    → Steps replies p es q
    → IsBounded p
    → IsBounded q
Steps-IsBounded done h = h
Steps-IsBounded (next s more) h = Steps-IsBounded more (Step-IsBounded s h)

pub new_publisher-IsBounded : (configured : Bool) → IsBounded (new_publisher configured)
unfolding new_publisher IsBounded
new_publisher-IsBounded configured = (omega arith, omega arith)
