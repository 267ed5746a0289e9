-- ===== src/Examples/Pools.antt =====
-- A pool with one worker handles one event, and is unsubscribed.
use eventbus.Event.{Event, new_event}
use eventbus.Base.{
  all, text_eq, List, ◌++◌, ◌&&◌, Text, none, some, get_elem?, ◌+◌, [], ◌∷◌, ◌≡◌, refl, true, false,
  inl, arith,
}
use eventbus.Event.Counts.{count}
use eventbus.Pool.Lifecycle.{
  Line, over, removed, stopping, subscribe_with_pool, delivers, unsubscribes, hands_over,
  forwarder_stops, finishes, leaves, removes, stops, ends, Steps, done, next,
}
use eventbus.Pool.Lifecycle.Conservation.{count_failed}
use eventbus.Pool.Lifecycle.Ending.Reached.{teardown_over}
use eventbus.Pool.Lifecycle.Settled.{count_well, count_dead, work, Steps-settle}
use eventbus.Delivery.{Context}
use eventbus.Wildcard.{is_wildcard_pattern}
use eventbus.Channel.{make}
use eventbus.Bus.Dispatch.{deliver, wildcard_hits}
use eventbus.Bus.Chain.{new}
use eventbus.Bus.Lifecycle.{subscribe_bus, subscribe_async}
use eventbus.Bus.Lifecycle.Reachable.{call, calls}
use eventbus.Bus.Table.{
  subscribe, next_channel, add_channel, remove_channel, new_subscription, subs_of, put_subs,
}
use eventbus.Bus.Dispatch.Targets.{targets, receives}
use eventbus.Bus.Dispatch.Receipts.{on_list}
use eventbus.Pool.Attached.{own_channel, look_up, Sending, receive_sent, brought}
use eventbus.Pool.Attached.Moves.{Joint, Moves, looks_up, sends_one, detaches, works, rests, moves}
use eventbus.Pool.Attached.Joint.{just_attached, pool_on_bus}
use eventbus.Examples.Subscriptions.{station, station-BusInv}
use eventbus.Examples.Deliveries.{order}
use eventbus.Examples.Workers.{options, attempts}

abbrev start : Line
start = subscribe_with_pool 5 1

abbrev delivered : Line
delivered = record start { inbox = order ∷ [] }

abbrev held : Line
held = record start { idle = 0; busy = order ∷ [] }

abbrev handled : Line
handled = record start { processed = order ∷ [] }

abbrev told : Line
told = record handled { forward_done = true }

abbrev quiet : Line
quiet = record told { forwarding = false }

abbrev off_the_bus : Line
off_the_bus = record quiet { registered = false; teardown = removed }

abbrev stopped : Line
stopped = record off_the_bus { pool_done = true; teardown = stopping }

abbrev empty : Line
empty = record stopped { idle = 0 }

abbrev ended : Line
ended = record empty { inbox_closed = true; teardown = over }

first_half : Steps start (order ∷ []) told
first_half = next (delivers order start refl (omega arith)) (
    next (hands_over order [] 0 delivered refl refl refl refl)
      (next (finishes [] order [] held refl) (next (unsubscribes handled) done)))

whole : Steps start (order ∷ []) ended
whole = next (delivers order start refl (omega arith)) (
    next (hands_over order [] 0 delivered refl refl refl refl) (
      next (finishes [] order [] held refl) (
        next (unsubscribes handled) (
          next (forwarder_stops told refl (inl refl)) (
            next (removes quiet refl refl) (
              next (stops off_the_bus refl)
                (next (leaves 0 stopped refl refl) (next (ends empty refl refl refl) done))))))))

teardown_over_example :
    (ended.forwarding ≡ false)
    × (ended.idle ≡ 0)
    × (ended.busy ≡ [])
    × (ended.pool_done ≡ true)
    × (ended.inbox_closed ≡ true)
    × (ended.registered ≡ false)
    × (count (λ e. true) ended.processed
          + count_failed (λ e. true) ended.failed
          + count (λ e. true) ended.inbox
          + count (λ e. true) ended.queue
        ≡ count (λ e. true) (order ∷ []))
teardown_over_example = teardown_over 5 1 (λ e. true) whole refl

Steps-settle_example :
    count_well options (λ e. true) 3 (λ i. attempts) 0 ended.processed
      + count_dead (λ e. true) (work options (λ i. attempts) 0 ended.processed)
      + count_failed (λ e. true) ended.failed
      + count (λ e. true) ended.busy
      + count (λ e. true) ended.inbox
      + count (λ e. true) ended.queue
    ≡ count (λ e. true) (order ∷ [])
Steps-settle_example =
    Steps-settle 5 1 options 3 1 (λ i. attempts) (λ e. true) refl (omega arith) refl whole

-- A pool on a bus with other subscribers: somebody dispatches an order, and Unsubscribe is called
-- between the lookup and the first send.
abbrev quiet_context : Context
quiet_context = record { collector = none; done = false }

abbrev manned : Joint
manned = just_attached order.topic station.core [] 5 1

abbrev order_sending : Sending
order_sending = record { collector = none; sub = new_subscription 3 order.topic 2; event = order }

abbrev looked_up : Joint
looked_up = record manned { in_flight = look_up quiet_context order manned.core }

one_waits : looked_up.in_flight ≡ order_sending ∷ []
unfolding look_up call calls new subscribe_bus subscribe_async subscribe add_channel
    new_subscription subs_of put_subs is_wildcard_pattern make text_eq wildcard_hits new_event
one_waits = refl

abbrev detached_line : Line
detached_line = record start { forward_done = true; forwarding = false }

abbrev told_line : Line
told_line = record start { forward_done = true }

abbrev waiting : Line → Joint
waiting l = record looked_up { line = l }

abbrev afterwards : Joint
afterwards = record {
  core = remove_channel order.topic (next_channel station.core) manned.core;
  in_flight = looked_up.in_flight;
  line = record detached_line { registered = false; teardown = removed };
}

abbrev evening : Joint
evening = record {
  core = deliver none order_sending.sub order afterwards.core;
  in_flight = [];
  line = receive_sent (next_channel station.core) afterwards.line order_sending;
}

abbrev late : List Event
late = brought (next_channel station.core) afterwards.line order_sending

afternoon : Moves order.topic (next_channel station.core) manned (late ++ []) evening
afternoon = moves (looks_up quiet_context order manned) (
    moves (works looked_up told_line (unsubscribes start) refl refl refl) (
      moves
        (works (waiting told_line) detached_line (forwarder_stops told_line refl (inl refl)) refl
          refl refl)
        (moves (detaches (waiting detached_line) refl refl)
          (moves (sends_one [] order_sending [] afterwards one_waits) rests))))

pool_on_bus_example :
    Steps start (late ++ []) evening.line
    × (all (λ (e : Event). receives order.topic e.topic) (late ++ []) ≡ true)
    × (get_elem? evening.core.channels (next_channel station.core)
        ≡ some (own_channel evening.line))
    × ((t : Text)
        → on_list (next_channel station.core) (targets evening.core t)
          ≡ (evening.line.registered && receives order.topic t))
pool_on_bus_example =
    pool_on_bus order.topic station.core [] 5 1 station-BusInv.core_inv refl afternoon

-- The event of the dispatch that was late has entered the channel.
it_entered : late ≡ order ∷ []
unfolding call calls new subscribe_bus subscribe_async subscribe add_channel new_subscription
    subs_of put_subs is_wildcard_pattern make text_eq
it_entered = refl
