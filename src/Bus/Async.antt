-- ===== src/Bus/Async.antt =====
-- The goroutines of one SubscribeAsync of bus.go: its workers with safeHandle, the watcher that
-- unsubscribes when the context is cancelled, and the function behind the sync.Once of Unsubscribe;
-- each as the steps that it takes, in any order.
pub mod Handled
pub mod Ending
pub mod Watching
pub mod Leak
use eventbus.Base.{ℕ, zero, suc, ◌+◌, ◌<◌, ◌≡◌, ◌⊎◌, List, [], ◌∷◌, ◌++◌, Bool, true, false, length}
use eventbus.Event.{Event}
use eventbus.Bus.Table.{channel_size}

-- The watcher: not at its select yet, waiting there, about to call Unsubscribe, or gone.
pub data Watcher : Type 0 where
  fresh blocked calling gone : Watcher

-- How far the function of the sync.Once has come: not begun, at its wait, removeChannel done,
-- closeSafe done, untrackSub done.
pub data Stage : Type 0 where
  not_begun waiting removed shut over : Stage

pub record Async : Type 0 where
  -- The channel, and whether it is in the tables of the bus.
  pub inbox : List Event
  pub inbox_closed : Bool
  pub registered : Bool
  -- ctx and subCtx, which derives from it.
  pub parent_done : Bool
  pub sub_done : Bool
  -- The workers at their select, and the events of those in safeHandle.
  pub idle : ℕ
  pub busy : List Event
  pub watcher : Watcher
  pub stage : Stage
  -- SubscribeAsync has called trackSub; the subscription is in activeSubs.
  pub returned : Bool
  pub tracked : Bool
  -- The events for which safeHandle has returned.
  pub handled : List Event

-- SubscribeAsync when its goroutines are started; the context may be done already.
abbrev pub subscribe_async : (canceled : Bool) → (concurrency : ℕ) → Async
subscribe_async canceled concurrency = record {
  inbox = [];
  inbox_closed = false;
  registered = true;
  parent_done = canceled;
  sub_done = canceled;
  idle = concurrency;
  busy = [];
  watcher = fresh;
  stage = not_begun;
  returned = false;
  tracked = false;
  handled = [];
}

-- A context's own channel is closed before those of the contexts that derive from it, so a select
-- that waits on both is woken by the first.
abbrev pub woken : Watcher → Watcher
woken fresh = fresh
woken blocked = calling
woken calling = calling
woken gone = gone

-- subCtx alone is done.
abbrev pub dismissed : Watcher → Watcher
dismissed fresh = fresh
dismissed blocked = gone
dismissed calling = calling
dismissed gone = gone

-- A step, and the events that the bus puts into the channel with it.
pub data Step : Async → List Event → Async → Type 0 where
  -- sendSafe of the bus, for an event that is not dropped. A dispatch that has looked the tables up
  -- before the subscription was removed may still send.
  delivers :
      (e : Event) (s : Async)
      → s.inbox_closed ≡ false
      → length s.inbox < channel_size
      → Step s (e ∷ []) (record s { inbox = s.inbox ++ e ∷ [] })
  -- The context is cancelled, for the first time.
  parent_cancels :
      (s : Async)
      → s.parent_done ≡ false
      → Step s [] (record s { parent_done = true; sub_done = true; watcher = woken s.watcher })
  -- trackSub.
  tracks :
      (s : Async) → s.returned ≡ false → Step s [] (record s { returned = true; tracked = true })
  -- The watcher comes to its select; if a context is done, it goes on, and if both are, either way.
  watcher_blocks :
      (s : Async)
      → s.watcher ≡ fresh
      → s.parent_done ≡ false
      → s.sub_done ≡ false
      → Step s [] (record s { watcher = blocked })
  watcher_sees_parent :
      (s : Async)
      → s.watcher ≡ fresh
      → s.parent_done ≡ true
      → Step s [] (record s { watcher = calling })
  watcher_sees_sub :
      (s : Async) → s.watcher ≡ fresh → s.sub_done ≡ true → Step s [] (record s { watcher = gone })
  -- Unsubscribe, called by the watcher or, when SubscribeAsync has returned, by anyone: the first call
  -- runs the function, and cancels subCtx.
  watcher_unsubscribes :
      (s : Async)
      → s.watcher ≡ calling
      → s.stage ≡ not_begun
      → Step s [] (record s { watcher = gone; stage = waiting; sub_done = true })
  watcher_joins :
      (s : Async) → s.watcher ≡ calling → s.stage ≡ over → Step s [] (record s { watcher = gone })
  unsubscribes :
      (s : Async)
      → s.returned ≡ true
      → s.stage ≡ not_begun
      → Step s [] (record s { watcher = dismissed s.watcher; stage = waiting; sub_done = true })
  -- A worker takes an event, returns from safeHandle, which recovers a panic, or leaves.
  takes :
      (e : Event) (es : List Event) (n : ℕ) (s : Async)
      → s.idle ≡ suc n
      → s.inbox ≡ e ∷ es
      → Step s [] (record s { idle = n; inbox = es; busy = s.busy ++ e ∷ [] })
  finishes :
      (before : List Event) (e : Event) (after : List Event) (s : Async)
      → s.busy ≡ before ++ e ∷ after
      → Step s []
          (record s { idle = suc s.idle; busy = before ++ after; handled = s.handled ++ e ∷ [] })
  leaves :
      (n : ℕ) (s : Async)
      → s.idle ≡ suc n
      → (s.sub_done ≡ true) ⊎ ((s.inbox ≡ []) × (s.inbox_closed ≡ true))
      → Step s [] (record s { idle = n })
  -- The function of the sync.Once after its wait: removeChannel, closeSafe, untrackSub.
  removes :
      (s : Async)
      → s.stage ≡ waiting
      → s.idle ≡ 0
      → s.busy ≡ []
      → Step s [] (record s { registered = false; stage = removed })
  shuts :
      (s : Async) → s.stage ≡ removed → Step s [] (record s { inbox_closed = true; stage = shut })
  untracks : (s : Async) → s.stage ≡ shut → Step s [] (record s { tracked = false; stage = over })
  -- The part of the bus's Close that closes the channels which are left in the tables.
  bus_closes : (s : Async) → Step s [] (record s { inbox_closed = true; registered = false })

-- Steps, and all the events that they put into the channel.
pub data Steps : Async → List Event → Async → Type 0 where
  done : {s : Async} → Steps s [] s
  next : {s t u : Async} {es fs : List Event} → Step s es t → Steps t fs u → Steps s (es ++ fs) u
