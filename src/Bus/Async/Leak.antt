-- ===== src/Bus/Async/Leak.antt =====
-- A context that is done before the watcher is at its select: the clean-up may be left out.
use eventbus.Base.{ℕ, zero, suc, [], ◌≡◌, refl, inl, true, false}
use eventbus.Bus.Async.{
  gone, not_begun, Async, subscribe_async, Step, tracks, watcher_sees_sub, leaves, Steps, done,
  next,
}

-- A state in which nothing of the subscription runs any more, and its channel is still on the bus.
abbrev pub IsLeaked : Async → Type 0
IsLeaked s =
    (s.parent_done ≡ true)
    × (s.idle ≡ 0)
    × (s.busy ≡ [])
    × (s.watcher ≡ gone)
    × (s.returned ≡ true)
    × (s.stage ≡ not_begun)
    × (s.registered ≡ true)
    × (s.inbox_closed ≡ false)

abbrev Leaks : Async → Type 0
Leaks s = (t : Async) × (Steps s [] t) × IsLeaked t

after_step : {s t : Async} → Step s [] t → Leaks t → Leaks s
after_step st (u, run, h) = (u, next st run, h)

-- The state when the watcher is gone and `m` workers are left.
abbrev left : ℕ → Async
left m = record (subscribe_async true m) { returned = true; tracked = true; watcher = gone }

workers_leave : (m : ℕ) → Leaks (left m)
workers_leave zero = (left zero, done, (refl, refl, refl, refl, refl, refl, refl, refl))
workers_leave (suc m) = after_step (leaves m (left (suc m)) refl (inl refl)) (workers_leave m)

-- Called with a context that is done already, SubscribeAsync, with any number of workers, may end so
-- that all its goroutines are gone while its channel is open and in the tables of the bus: the
-- watcher's select finds both contexts done, and may take the case that does not unsubscribe.
pub subscribe_async-may_leak :
    (n : ℕ) → (s : Async) × (Steps (subscribe_async true n) [] s) × IsLeaked s
subscribe_async-may_leak n =
    let tracking = record (subscribe_async true n) { returned = true; tracked = true } in
    after_step (tracks (subscribe_async true n) refl)
      (after_step (watcher_sees_sub tracking refl refl) (workers_leave n))
