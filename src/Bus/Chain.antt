-- ===== src/Bus/Chain.antt =====
-- The middleware chain of bus.go: New, Use, Publish and PublishReport; middleware.go.
pub mod Report
pub mod Use
pub mod Onion
pub mod Typed
use eventbus.Base.{
  ℕ, List, [], ◌∷◌, ◌++◌, Bool, true, false, Option, none, some, Text, length, ◌==◌, get_elem?,
  if◌then◌else◌,
}
use eventbus.Errors.{Error}
use eventbus.Event.{Event, new_event}
use eventbus.Delivery.{Context, DeliveryReceipt, with_collector}
use eventbus.Bus.State.{Core, AsyncSub, empty_core}
use eventbus.Bus.Dispatch.{dispatch}

-- A value of the interface Handler: a number for its concrete type, and its method.
pub record Handler : Type 0 where
  pub concrete : ℕ
  pub handle : Context → Event → Core → Core × Option Error

-- HandlerFunc has the number 0.
abbrev pub handler_func_type : ℕ
handler_func_type = 0

abbrev pub handler_func : (Context → Event → Core → Core × Option Error) → Handler
handler_func f = record { concrete = handler_func_type; handle = f }

-- Middleware.
abbrev pub Middleware : Type 0
Middleware = Handler → Handler

pub record EventBus : Type 0 where
  pub core : Core
  pub middlewares : List Middleware
  -- What the atomic.Value holds.
  pub chain : Handler
  -- The numbers of the tracked subscriptions, and the subscriptions that SubscribeAsync has made.
  pub active_subs : List ℕ
  pub async_subs : List AsyncSub

-- A call that returns, or one that panics; the bus is what the call has left.
pub data Outcome : Type 0 where
  returned panicked : Outcome

-- New; the first Store fixes the concrete type of the chain.
unfoldable pub new : (ℕ → ℕ) → EventBus
new clock = record {
  core = empty_core clock;
  middlewares = [];
  chain = handler_func dispatch;
  active_subs = [];
  async_subs = [];
}

-- storeChain: atomic.Value.Store panics on a value of another concrete type than the one it holds.
unfoldable pub store_chain : Handler → EventBus → EventBus × Outcome
store_chain h eb =
    if h.concrete == eb.chain.concrete then (record eb { chain = h }, returned) else (eb, panicked)

-- The loop of rebuildChain, from the last middleware to the first.
unfoldable pub wrap_all : List Middleware → Handler → Handler
wrap_all [] h = h
wrap_all (m ∷ ms) h = m (wrap_all ms h)

-- rebuildChain.
unfoldable pub rebuild_chain : EventBus → EventBus × Outcome
unfolding store_chain
rebuild_chain eb = store_chain (wrap_all eb.middlewares (handler_func dispatch)) eb

-- Use.
unfoldable pub use_middlewares : List Middleware → EventBus → EventBus × Outcome
unfolding rebuild_chain
use_middlewares ms eb = rebuild_chain (record eb { middlewares = eb.middlewares ++ ms })

-- Publish; an error of the chain is only logged.
unfoldable pub publish : Context → Event → EventBus → EventBus
publish ctx e eb = record eb { core = (eb.chain.handle ctx e eb.core).0 }

-- PublishTopic, at a clock reading and a random number for the new event.
pub publish_topic : ℕ → ℕ → Context → Text → ℕ → EventBus → EventBus
unfolding publish
publish_topic now draw ctx topic payload eb = publish ctx (new_event now draw topic payload) eb

-- What `collector.receipts` reads.
abbrev pub receipts_of : Option (List DeliveryReceipt) → List DeliveryReceipt
receipts_of none = []
receipts_of (some rs) = rs

-- PublishReport: the bus, the receipts that are in the new collector afterwards, and the error.
unfoldable pub publish_report :
    Context → Event → EventBus → EventBus × List DeliveryReceipt × Option Error
publish_report ctx e eb =
    let k = length eb.core.collectors in
    let start = record (eb.core) { collectors = eb.core.collectors ++ [] ∷ [] } in
    let (w, err) = eb.chain.handle (with_collector ctx k) e start in
    (record eb { core = w }, receipts_of (get_elem? w.collectors k), err)
