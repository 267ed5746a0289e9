-- ===== src/Examples/Asyncs.antt =====
-- An asynchronous subscription with one worker, which handles one event before its context is cancelled.
use eventbus.Base.{◌+◌, [], ◌∷◌, ◌≡◌, refl, inl, true, false, arith}
use eventbus.Event.Counts.{count}
use eventbus.Bus.Async.{
  Async, subscribe_async, blocked, calling, gone, waiting, removed, shut, over, delivers,
  parent_cancels, tracks, watcher_blocks, watcher_unsubscribes, takes, finishes, leaves, removes,
  shuts, untracks, Steps, done, next,
}
use eventbus.Bus.Async.Ending.{over_lem}
use eventbus.Bus.Async.Watching.{WillEnd, CanEnd, canceled-WillEnd}
use eventbus.Bus.Async.Leak.{IsLeaked, subscribe_async-may_leak}
use eventbus.Examples.Deliveries.{order}

abbrev start : Async
start = subscribe_async false 1

abbrev watched : Async
watched = record start { watcher = blocked; returned = true; tracked = true }

abbrev taken : Async
taken = record watched { idle = 0; busy = order ∷ [] }

abbrev handled : Async
handled = record watched { handled = order ∷ [] }

abbrev canceled : Async
canceled = record handled { parent_done = true; sub_done = true; watcher = calling }

abbrev unsubscribing : Async
unsubscribing = record canceled { watcher = gone; stage = waiting }

abbrev empty : Async
empty = record unsubscribing { idle = 0 }

abbrev off_the_bus : Async
off_the_bus = record empty { registered = false; stage = removed }

abbrev closed : Async
closed = record off_the_bus { inbox_closed = true; stage = shut }

abbrev ended : Async
ended = record closed { tracked = false; stage = over }

until_watched : Steps start [] watched
until_watched =
    next (tracks start refl)
      (next (watcher_blocks (record start { returned = true; tracked = true }) refl refl refl) done)

until_canceled : Steps watched (order ∷ []) canceled
until_canceled = next (delivers order watched refl (omega arith)) (
    next (takes order [] 0 (record watched { inbox = order ∷ [] }) refl refl)
      (next (finishes [] order [] taken refl) (next (parent_cancels handled refl) done)))

whole : Steps start (order ∷ []) ended
whole = next (tracks start refl) (
    next (watcher_blocks (record start { returned = true; tracked = true }) refl refl refl) (
      next (delivers order watched refl (omega arith)) (
        next (takes order [] 0 (record watched { inbox = order ∷ [] }) refl refl) (
          next (finishes [] order [] taken refl) (
            next (parent_cancels handled refl) (
              next (watcher_unsubscribes canceled refl refl) (
                next (leaves 0 unsubscribing refl (inl refl)) (
                  next (removes empty refl refl refl)
                    (next (shuts off_the_bus refl) (next (untracks closed refl) done))))))))))

over_lem_example :
    (ended.idle ≡ 0)
    × (ended.busy ≡ [])
    × (ended.sub_done ≡ true)
    × (ended.registered ≡ false)
    × (ended.inbox_closed ≡ true)
    × (count (λ e. true) ended.handled + count (λ e. true) ended.inbox
        ≡ count (λ e. true) (order ∷ []))
over_lem_example = over_lem false 1 (λ e. true) whole refl

canceled-WillEnd_example : WillEnd canceled × CanEnd canceled
canceled-WillEnd_example = canceled-WillEnd 1 until_watched refl refl until_canceled refl

subscribe_async-may_leak_example : (s : Async) × (Steps (subscribe_async true 4) [] s) × IsLeaked s
subscribe_async-may_leak_example = subscribe_async-may_leak 4
