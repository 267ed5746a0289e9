-- ===== src/Pool/Lifecycle.antt =====
-- The goroutines of a pool, ext/pool/pool.go: the forwarder of SubscribeWithPool with consume, the
-- workers, Unsubscribe and teardown, each as the steps that it takes, in any order.
pub mod Conservation
pub mod Ending
pub mod Settled
use eventbus.Base.{ℕ, zero, suc, ◌+◌, ◌<◌, ◌≡◌, ◌⊎◌, List, [], ◌∷◌, ◌++◌, Bool, true, false, length}
use eventbus.Errors.{Error, context_canceled, sentinel}
use eventbus.Event.{Event}
use eventbus.Bus.Table.{channel_size}

-- How far teardown has come: not begun, RemoveChannel done, cancel of stop done, over.
pub data Teardown : Type 0 where
  not_begun removed stopping over : Teardown

-- A pool and its subscription.
pub record Line : Type 0 where
  pub queue_size : ℕ
  -- Whether the contexts of the pool and of the forwarder are done.
  pub pool_done : Bool
  pub forward_done : Bool
  -- The subscriber's channel, and whether it is in the tables of the bus.
  pub inbox : List Event
  pub inbox_closed : Bool
  pub registered : Bool
  pub queue : List Event
  pub forwarding : Bool
  -- The workers at their select, and the events of those that are in process.
  pub idle : ℕ
  pub busy : List Event
  pub teardown : Teardown
  -- The events for which process has returned, and the calls of FailHandler.
  pub processed : List Event
  pub failed : List (Event × Error)

abbrev pub err_queue_full : Error
err_queue_full = sentinel 3

-- SubscribeWithPool.
abbrev pub subscribe_with_pool : (queue_size workers : ℕ) → Line
subscribe_with_pool queue_size workers = record {
  queue_size = queue_size;
  pool_done = false;
  forward_done = false;
  inbox = [];
  inbox_closed = false;
  registered = true;
  queue = [];
  forwarding = true;
  idle = workers;
  busy = [];
  teardown = not_begun;
  processed = [];
  failed = [];
}

abbrev fail : Event → Error → Line → Line
fail e err l = record l { failed = l.failed ++ (e, err) ∷ [] }

-- A step, and the events that the bus puts into the subscriber's channel with it.
pub data Step : Line → List Event → Line → Type 0 where
  -- sendSafe of the bus, for an event that is not dropped. A dispatch that has looked the tables up
  -- before the subscription was removed may still send.
  delivers :
      (e : Event) (l : Line)
      → l.inbox_closed ≡ false
      → length l.inbox < channel_size
      → Step l (e ∷ []) (record l { inbox = l.inbox ++ e ∷ [] })
  -- The context that SubscribeWithPool was given is cancelled.
  parent_cancels : (l : Line) → Step l [] (record l { pool_done = true; forward_done = true })
  -- The first call of Unsubscribe, up to its wait.
  unsubscribes : (l : Line) → Step l [] (record l { forward_done = true })
  -- Close of the bus.
  bus_closes : (l : Line) → Step l [] (record l { inbox_closed = true; registered = false })
  -- The three cases of consume. A send to the queue needs room, or a worker at its select.
  queues :
      (e : Event) (es : List Event) (l : Line)
      → l.forwarding ≡ true
      → l.inbox ≡ e ∷ es
      → length l.queue < l.queue_size
      → Step l [] (record l { inbox = es; queue = l.queue ++ e ∷ [] })
  hands_over :
      (e : Event) (es : List Event) (n : ℕ) (l : Line)
      → l.forwarding ≡ true
      → l.inbox ≡ e ∷ es
      → l.queue ≡ []
      → l.idle ≡ suc n
      → Step l [] (record l { inbox = es; idle = n; busy = l.busy ++ e ∷ [] })
  fails_canceled :
      (e : Event) (es : List Event) (l : Line)
      → l.forwarding ≡ true
      → l.inbox ≡ e ∷ es
      → l.pool_done ≡ true
      → Step l [] (fail e context_canceled (record l { inbox = es }))
  fails_full :
      (e : Event) (es : List Event) (l : Line)
      → l.forwarding ≡ true
      → l.inbox ≡ e ∷ es
      → l.pool_done ≡ false
      → length l.queue ≡ l.queue_size
      → Step l [] (fail e err_queue_full (record l { inbox = es }))
  -- The forwarder returns.
  forwarder_stops :
      (l : Line)
      → l.forwarding ≡ true
      → (l.forward_done ≡ true) ⊎ ((l.inbox ≡ []) × (l.inbox_closed ≡ true))
      → Step l [] (record l { forwarding = false })
  -- worker: it takes an event, returns from process, or leaves.
  takes :
      (e : Event) (es : List Event) (n : ℕ) (l : Line)
      → l.idle ≡ suc n
      → l.queue ≡ e ∷ es
      → Step l [] (record l { idle = n; queue = es; busy = l.busy ++ e ∷ [] })
  finishes :
      (before : List Event) (e : Event) (after : List Event) (l : Line)
      → l.busy ≡ before ++ e ∷ after
      → Step l [] (record l {
        idle = suc l.idle;
        busy = before ++ after;
        processed = l.processed ++ e ∷ [];
      })
  leaves :
      (n : ℕ) (l : Line) → l.idle ≡ suc n → l.pool_done ≡ true → Step l [] (record l { idle = n })
  -- teardown, which the forwarder runs when it returns: RemoveChannel, cancel, and, after the wait for
  -- the workers, closeEventChan. Unsubscribe runs it once more, behind the sync.Once.
  removes :
      (l : Line)
      → l.forwarding ≡ false
      → l.teardown ≡ not_begun
      → Step l [] (record l { registered = false; teardown = removed })
  stops :
      (l : Line)
      → l.teardown ≡ removed
      → Step l [] (record l { pool_done = true; teardown = stopping })
  ends :
      (l : Line)
      → l.teardown ≡ stopping
      → l.idle ≡ 0
      → l.busy ≡ []
      → Step l [] (record l { inbox_closed = true; teardown = over })

-- Steps, and all the events that they put into the channel.
pub data Steps : Line → List Event → Line → Type 0 where
  done : {l : Line} → Steps l [] l
  next : {l m n : Line} {es fs : List Event} → Step l es m → Steps m fs n → Steps l (es ++ fs) n
