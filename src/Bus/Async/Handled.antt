-- ===== src/Bus/Async/Handled.antt =====
-- Each event that the bus puts into an asynchronous subscription's channel is in one place, once.
use eventbus.Base.{ℕ, ◌+◌, List, [], ◌∷◌, ◌≡◌, ap, Bool, arith}
use eventbus.Event.{Event}
use eventbus.Event.Counts.{count, count-append}
use eventbus.Bus.Async.{
  Async, Step, delivers, parent_cancels, tracks, watcher_blocks, watcher_sees_parent,
  watcher_sees_sub, watcher_unsubscribes, watcher_joins, unsubscribes, takes, finishes, leaves,
  removes, shuts, untracks, bus_closes, Steps, done, next,
}

-- The events of a subscription that the test holds of, wherever they are.
unfoldable pub count_async : (Event → Bool) → Async → ℕ
count_async test s = count test s.inbox + count test s.busy + count test s.handled

Step-count_async :
    {s t : Async} {es : List Event} (test : Event → Bool)
    → Step s es t
    → count_async test t ≡ count_async test s + count test es
unfolding count_async
Step-count_async test (delivers e s c room) = omega (arith, count-append test s.inbox (e ∷ []))
Step-count_async test (parent_cancels s h) = omega arith
Step-count_async test (tracks s h) = omega arith
Step-count_async test (watcher_blocks s h p q) = omega arith
Step-count_async test (watcher_sees_parent s h p) = omega arith
Step-count_async test (watcher_sees_sub s h p) = omega arith
Step-count_async test (watcher_unsubscribes s h p) = omega arith
Step-count_async test (watcher_joins s h p) = omega arith
Step-count_async test (unsubscribes s h p) = omega arith
Step-count_async test (takes e es n s idle inbox) =
    omega (arith, ap (count test) inbox, count-append test s.busy (e ∷ []))
Step-count_async test (finishes before e after s busy) = omega (
  arith,
  ap (count test) busy,
  count-append test s.handled (e ∷ []),
  count-append test before (e ∷ after),
  count-append test before after,
)
Step-count_async test (leaves n s idle why) = omega arith
Step-count_async test (removes s h i b) = omega arith
Step-count_async test (shuts s h) = omega arith
Step-count_async test (untracks s h) = omega arith
Step-count_async test (bus_closes s) = omega arith

-- However the goroutines of a subscription take turns, each event that the bus puts into its channel is
-- counted once: in the channel, with a worker, or among those for which the handler was called and
-- has returned or panicked.
pub Steps-count_async :
    {s t : Async} {es : List Event} (test : Event → Bool)
    → Steps s es t
    → count_async test t ≡ count_async test s + count test es
Steps-count_async test done = omega arith
Steps-count_async test (next {es} {fs} s more) =
    omega (arith, Step-count_async test s, Steps-count_async test more, count-append test es fs)
