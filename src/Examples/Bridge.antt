-- ===== src/Examples/Bridge.antt =====
-- The bridge to RabbitMQ: a consumer, a listener and a publisher.
use eventbus.Event.{Event}
use eventbus.Base.{
  ℕ, ◌+◌, ◌≤◌, [], ◌∷◌, ◌++◌, ◌≡◌, ◌⊎◌, refl, true, false, some, codes, if◌then◌else◌,
}
use eventbus.Bus.Chain.{returned}
use eventbus.Bus.Dispatch.Targets.{targets}
use eventbus.Bus.Dispatch.Receipts.{expected}
use eventbus.Amqp.Message.{Message, event_from_message, acked, nacked}
use eventbus.Amqp.Consumer.{Attempts, default_options, handle}
use eventbus.Amqp.Consumer.Outcome.{all_retry, retries_at, tried, last_try, allowed, handle_lem}
use eventbus.Amqp.Listener.{Recorder, confirmed, listen}
use eventbus.Amqp.Listener.Confirms.{records, accepts, listen_lem}
use eventbus.Amqp.Publisher.{Publisher, IsFinished, new_publisher, enqueue, close_publisher}
use eventbus.Event.Counts.{count}
use eventbus.Amqp.Publisher.Steps.{
  Reply, returns, enqueues, takes, sends, closes, Steps, done, next,
}
use eventbus.Amqp.Publisher.Closing.{finished_lem}
use eventbus.Amqp.Publisher.Ending.{moves, work, CanMove, IsInCall, close_publisher-ends}
use eventbus.Examples.Deliveries.{background, order, shop, shop-BusInv}
use eventbus.Examples.Workers.{busy, fails_twice}

abbrev message : Message
message = record {
  correlation_id = [];
  event = codes "order.created";
  payload_type = [];
  payload = 42;
  timestamp = 9;
}

abbrev attempts : Attempts
attempts = record { result = fails_twice; done_after = λ j. false; done_in_wait = λ j. false }

handle_lem_example :
    let e = event_from_message 5 6 message in
    (k : ℕ) × (k ≤ allowed default_options.max_retries)
    × (all_retry default_options e attempts 0 k ≡ true)
    × (retries_at default_options e attempts k ≡ false)
    × (handle default_options 5 6 attempts (some (some message))
        ≡ some (tried default_options e attempts 0 k ++ last_try default_options e attempts k))
handle_lem_example = handle_lem default_options 5 6 attempts message

-- A recorder that refuses everything.
abbrev full_disk : Recorder
full_disk receipts = some busy

listen_lem_example :
    let (eb', acts, outcome) = listen (some full_disk) 5 6 background (some (some message)) shop in
    let w = shop.core in
    let e = event_from_message 5 6 message in
    let receipts = expected w.channels w.clock w.readings e (targets w e.topic) in
    (outcome ≡ returned)
    × (acts
        ≡ records (some full_disk) receipts
          ++ confirmed (if accepts (some full_disk) receipts then acked else nacked true) ∷ [])
listen_lem_example =
    listen_lem (some full_disk) 5 6 background message shop shop-BusInv.core_inv.valid
      shop-BusInv.core_inv.one shop-BusInv.plain

-- A broker that confirms at once.
abbrev prompt : Event → Reply
prompt e = returns

abbrev fresh : Publisher
fresh = new_publisher true

abbrev one_queued : Publisher
one_queued = record fresh { queue = order ∷ [] }

abbrev one_held : Publisher
one_held = record fresh { in_hand = some order }

abbrev one_sent : Publisher
one_sent = record fresh { sent = order ∷ [] }

abbrev closed : Publisher
closed = record one_sent { closed = true }

-- An event is queued, received and sent, and the publisher is closed.
run : Steps prompt fresh (order ∷ []) closed
unfolding new_publisher enqueue close_publisher
run = next (enqueues order fresh refl) (
    next (takes order [] one_queued refl refl refl)
      (next (sends order one_held refl refl refl) (next (closes one_sent refl) done)))

finished : IsFinished closed
unfolding new_publisher
finished = record { closed = refl; queue = refl; in_hand = refl; fallback = refl }

finished_lem_example :
    count (λ e. true) closed.sent + count (λ e. true) closed.discarded
    ≡ count (λ e. true) (order ∷ [])
finished_lem_example = finished_lem true (λ e. true) run finished

-- An event is in the queue when Close is called, and a worker takes it then.
abbrev closing : Publisher
closing = record one_queued { closed = true }

drains :
    Steps prompt
      (close_publisher one_queued)
      []
      (record closing { queue = []; in_hand = some order })
unfolding close_publisher new_publisher
drains = next (takes order [] closing refl refl refl) done

close_publisher-ends_example :
    let p = record closing { queue = []; in_hand = some order } in
    (moves drains + work p ≡ work one_queued)
    × (IsFinished p ⊎ ((p.crashed ≡ true) ⊎ (CanMove prompt p ⊎ IsInCall prompt p)))
close_publisher-ends_example = close_publisher-ends one_queued drains
