-- ===== src/Pool/Lifecycle/Ending/Reached.antt =====
-- Teardown can always come to its end, and then everything is released.
use eventbus.Base.{
  ℕ, zero, suc, ◌+◌, List, [], ◌∷◌, ◌++◌, ◌≡◌, refl, ap, inl, inr, Bool, true, false, Bool-cases,
  arith,
}
use eventbus.Event.{Event}
use eventbus.Event.Counts.{count}
use eventbus.Pool.Lifecycle.{
  Line, Teardown, not_begun, removed, stopping, over, subscribe_with_pool, forwarder_stops,
  finishes, leaves, removes, stops, ends, Steps, done, next,
}
use eventbus.Pool.Lifecycle.Conservation.{count_line, count_failed, Steps-count_line}
use eventbus.Pool.Lifecycle.Ending.{IsOrderly, begun, stopped, run-IsOrderly}

abbrev Ends : Line → Type 0
Ends l = (m : Line) × (Steps l [] m) × (m.teardown ≡ over)

-- The workers leave, one after the other.
workers_leave :
    (n : ℕ) (l : Line)
    → l.idle ≡ n
    → l.busy ≡ []
    → l.pool_done ≡ true
    → l.teardown ≡ stopping
    → Ends l
workers_leave zero l idle busy canceled stage =
    (record l { inbox_closed = true; teardown = over }, next (ends l stage idle busy) done, refl)
workers_leave (suc n) l idle busy canceled stage =
    let (m, rest, end) = workers_leave n (record l { idle = n }) refl busy canceled stage in
    (m, next (leaves n l idle canceled) rest, end)

-- The events in process are finished first.
workers_finish :
    (es : List Event) (l : Line) → l.busy ≡ es → l.pool_done ≡ true → l.teardown ≡ stopping → Ends l
workers_finish [] l busy canceled stage = workers_leave l.idle l refl busy canceled stage
workers_finish (e ∷ es) l busy canceled stage =
    let after = record l { idle = suc l.idle; busy = es; processed = l.processed ++ e ∷ [] } in
    let (m, rest, end) = workers_finish es after refl canceled stage in
    (m, next (finishes [] e es l busy) rest, end)

from_removed : (l : Line) → l.teardown ≡ removed → Ends l
from_removed l stage =
    let after = record l { pool_done = true; teardown = stopping } in
    let (m, rest, end) = workers_finish l.busy after refl refl refl in
    (m, next (stops l stage) rest, end)

from_not_begun : (l : Line) → l.forwarding ≡ false → l.teardown ≡ not_begun → Ends l
from_not_begun l gone stage =
    let (m, rest, end) = from_removed (record l { registered = false; teardown = removed }) refl in
    (m, next (removes l gone stage) rest, end)

from_stage :
    (t : Teardown) (l : Line) → l.teardown ≡ t → l.forwarding ≡ false → IsOrderly l → Ends l
from_stage not_begun l stage gone h = from_not_begun l gone stage
from_stage removed l stage gone h = from_removed l stage
from_stage stopping l stage gone h =
    workers_finish l.busy l refl (h.canceled (ap stopped stage)) stage
from_stage over l stage gone h = (l, done, stage)

from_forwarding : (l : Line) → l.forwarding ≡ true → l.forward_done ≡ true → IsOrderly l → Ends l
from_forwarding l on told h =
    let after = record l { forwarding = false } in
    let (m, rest, end) = from_stage l.teardown after refl refl (record {
      forwarder_gone = λ t. refl;
      unregistered = h.unregistered;
      canceled = h.canceled;
      no_worker = h.no_worker;
    }) in
    (m, next (forwarder_stops l on (inl told)) rest, end)

-- Whatever the goroutines of a pool have done since SubscribeWithPool, once Unsubscribe has been called
-- or the context is cancelled, they can bring teardown to its end.
pub teardown-Ends :
    {l : Line} {es : List Event} (queue_size workers : ℕ)
    → Steps (subscribe_with_pool queue_size workers) es l
    → l.forward_done ≡ true
    → (m : Line) × (Steps l [] m) × (m.teardown ≡ over)
teardown-Ends {l} queue_size workers run told =
    let h = run-IsOrderly queue_size workers run in
    elim (Bool-cases l.forwarding) [
      | inl on ↦ from_forwarding l on told h
      | inr gone ↦ from_stage l.teardown l refl gone h
    ]

-- Whatever the goroutines of a pool have done since SubscribeWithPool, when teardown is over the
-- forwarder and all workers are gone, the pool's context is done, the channel is closed and not in the
-- tables of the bus, and each event that the bus put into it was processed or handed to FailHandler,
-- or is left in the channel or in the queue, once.
pub teardown_over :
    {l : Line} {es : List Event} (queue_size workers : ℕ) (test : Event → Bool)
    → Steps (subscribe_with_pool queue_size workers) es l
    → l.teardown ≡ over
    → (l.forwarding ≡ false)
      × (l.idle ≡ 0)
      × (l.busy ≡ [])
      × (l.pool_done ≡ true)
      × (l.inbox_closed ≡ true)
      × (l.registered ≡ false)
      × (count test l.processed
            + count_failed test l.failed
            + count test l.inbox
            + count test l.queue
          ≡ count test es)
unfolding count_line
teardown_over {l} queue_size workers test run stage =
    let h = run-IsOrderly queue_size workers run in
    let (idle, busy, closed) = h.no_worker stage in
    let nobody : count test l.busy ≡ 0 = ap (count test) busy in
    (
      h.forwarder_gone (ap begun stage),
      idle,
      busy,
      h.canceled (ap stopped stage),
      closed,
      h.unregistered (ap begun stage),
      omega (arith, Steps-count_line test run),
    )
