-- ===== src/Amqp/Publisher.antt =====
-- Publisher of ext/amqp/publisher.go: scopes, the queue to RabbitMQ, its worker and the fallback
-- goroutines. The goroutines run as steps, in any order.
pub mod Steps
pub mod Closing
pub mod Ending
use eventbus.Base.{
  ℕ, List, [], ◌∷◌, ◌++◌, ◌≡◌, Bool, true, false, Option, none, some, Text, codes, length, ltb,
  if◌then◌else◌,
}
use eventbus.Errors.{Error, sentinel}
use eventbus.Event.{Event, new_event}
use eventbus.Delivery.{Context}
use eventbus.Bus.Chain.{EventBus, publish}

-- Publisher; `configured` says that amqpPub is not nil.
pub record Publisher : Type 0 where
  pub configured : Bool
  pub closed : Bool
  -- mqQueue, and the event for which mqWorker is in sendToMQ.
  pub queue : List Event
  pub in_hand : Option Event
  -- The events of the fallback goroutines; each holds a slot of fallbackSem.
  pub fallback : List Event
  -- The events for which amqpPub.Publish has returned, and those that the log says are dropped.
  pub sent : List Event
  pub discarded : List Event
  -- A goroutine has panicked, which ends the process.
  pub crashed : Bool

-- errNoAMQP.
abbrev pub err_no_amqp : Error
err_no_amqp = sentinel 4

abbrev pub queue_size : ℕ
queue_size = 1000

abbrev pub fallback_size : ℕ
fallback_size = 100

-- newPublisher.
unfoldable pub new_publisher : Bool → Publisher
new_publisher configured = record {
  configured = configured;
  closed = false;
  queue = [];
  in_hand = none;
  fallback = [];
  sent = [];
  discarded = [];
  crashed = false;
}

abbrev discard : Event → Publisher → Publisher
discard e p = record p { discarded = p.discarded ++ e ∷ [] }

-- enqueue.
unfoldable pub enqueue : Event → Publisher → Publisher
enqueue e p =
    if p.closed
    then discard e p
    else if ltb (length p.queue) queue_size
    then record p { queue = p.queue ++ e ∷ [] }
    else if ltb (length p.fallback) fallback_size
    then record p { fallback = p.fallback ++ e ∷ [] }
    else discard e p

-- Close, up to its wait.
unfoldable pub close_publisher : Publisher → Publisher
close_publisher p = record p { closed = true }

-- The wait of Close is over: the worker has seen the end of the closed queue, and no goroutine is
-- left.
pub record IsFinished (p : Publisher) : Type 0 where
  pub closed : p.closed ≡ true
  pub queue : p.queue ≡ []
  pub in_hand : p.in_hand ≡ none
  pub fallback : p.fallback ≡ []

-- Local, at a clock reading and a random number for the new event.
unfoldable pub publish_local : (now draw : ℕ) → Context → Text → ℕ → EventBus → EventBus
publish_local now draw ctx topic payload eb =
    publish ctx (record (new_event now draw topic payload) { source = codes "local" }) eb

-- Distributed; it returns nil always.
unfoldable pub publish_distributed :
    (now draw : ℕ) → Context → Text → ℕ → EventBus × Publisher → EventBus × Publisher
unfolding publish_local
publish_distributed now draw ctx topic payload (eb, p) =
    let e = record (new_event now draw topic payload) { source = codes "distributed" } in
    if p.configured
    then (publish ctx e eb, enqueue e p)
    else (publish_local now draw ctx topic payload eb, p)

-- MQOnly.
unfoldable pub publish_mq_only : (now draw : ℕ) → Text → ℕ → Publisher → Publisher × Option Error
publish_mq_only now draw topic payload p =
    if p.configured
    then (enqueue (record (new_event now draw topic payload) { source = codes "amqp" }) p, none)
    else (p, some err_no_amqp)
