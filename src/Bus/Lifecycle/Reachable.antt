-- ===== src/Bus/Lifecycle/Reachable.antt =====
-- Every bus without middlewares that calls of its methods can lead to, from New on.
use eventbus.Base.{
  ℕ, List, [], ◌∷◌, ◌++◌, ◌≡◌, refl, sym, inl, inr, none, Text, length, get_elem?, Option-cases,
  Bool-cases, if◌then◌else◌, ◌&&◌, arith,
}
use mathlib.Core.Path.{subst}
use eventbus.Event.{Event}
use eventbus.Channel.{receive}
use eventbus.Channel.Sends.{has_room, pushed}
use eventbus.Delivery.{Context, Collectors, with_collector}
use eventbus.Bus.State.{Core, AsyncSub}
use eventbus.Bus.Table.{remove_channel}
use eventbus.Bus.Dispatch.{dispatch}
use eventbus.Bus.Dispatch.Targets.{targets}
use eventbus.Bus.Dispatch.Receipts.{expected, on_list}
use eventbus.Bus.Chain.{EventBus, new, publish, publish_report}
use eventbus.Bus.Chain.Report.{publish_report_lem}
use eventbus.Bus.Lifecycle.{
  subscribe_bus, subscribe_async, unsubscribe, unsubscribe_all, release_sub, close,
}
use eventbus.Bus.Lifecycle.Invariant.{
  CoreInv, subscribe-CoreInv, remove_channel-CoreInv, receive-CoreInv, close_safe-CoreInv,
  dispatch-CoreInv, close_tables-CoreInv,
}

-- A call of a method of the bus, or a receive from a subscriber's channel by whoever holds it.
pub data Call : Type 0 where
  subscribes : Text → Call
  subscribes_async : Text → (concurrency : ℕ) → Call
  removes : Text → (ch : ℕ) → Call
  unsubscribes receives : ℕ → Call
  publishes reports : Context → Event → Call
  closes : Call

unfoldable pub call : EventBus → Call → EventBus
call eb (subscribes t) = (subscribe_bus t eb).0
call eb (subscribes_async t n) = (subscribe_async t n eb).0
call eb (removes t ch) = record eb { core = remove_channel t ch eb.core }
call eb (unsubscribes i) = unsubscribe i eb
call eb (receives ch) =
    let w = eb.core in record eb { core = record w { channels = (receive ch w.channels).0 } }
call eb (publishes ctx e) = publish ctx e eb
call eb (reports ctx e) = (publish_report ctx e eb).0
call eb closes = close eb

unfoldable pub calls : EventBus → List Call → EventBus
calls eb [] = eb
calls eb (c ∷ cs) = calls (call eb c) cs

pub record BusInv (eb : EventBus) : Type 0 where
  pub core_inv : CoreInv eb.core
  pub plain : eb.chain.handle ≡ dispatch

pub new-BusInv : (clock : ℕ → ℕ) → BusInv (new clock)
unfolding new
new-BusInv clock = record {
  core_inv = record {
    valid = record { exact = tt; keys = tt; wild = tt; patterns = tt };
    one = λ ch. omega arith;
    known = λ ch h. refl;
    fits = tt;
  };
  plain = refl;
}

release_sub-BusInv :
    (i : ℕ) (sub : AsyncSub) (eb : EventBus) → BusInv eb → BusInv (release_sub i sub eb)
unfolding release_sub
release_sub-BusInv i sub eb v = record {
  core_inv =
      close_safe-CoreInv sub.ch _ (remove_channel-CoreInv sub.topic sub.ch eb.core v.core_inv);
  plain = v.plain;
}

pub unsubscribe-BusInv : (i : ℕ) (eb : EventBus) → BusInv eb → BusInv (unsubscribe i eb)
unfolding unsubscribe
unsubscribe-BusInv i eb v = elim (Option-cases (get_elem? eb.async_subs i)) [
  | inl missing ↦ rw missing v
  | inr (sub, found) ↦ rw found (elim (Bool-cases sub.once) [
    | inl done ↦ rw done v
    | inr first ↦ simp first (release_sub-BusInv i sub eb v)
  ])
]

pub unsubscribe_all-BusInv :
    (is : List ℕ) (eb : EventBus) → BusInv eb → BusInv (unsubscribe_all is eb)
unfolding unsubscribe_all
unsubscribe_all-BusInv [] eb v = v
unsubscribe_all-BusInv (i ∷ is) eb v =
    unsubscribe_all-BusInv is (unsubscribe i eb) (unsubscribe-BusInv i eb v)

with_core-BusInv :
    (eb : EventBus) (w : Core) → BusInv eb → CoreInv w → BusInv (record eb { core = w })
with_core-BusInv eb w v c = record { core_inv = c; plain = v.plain }

-- A new collector changes nothing that the invariant speaks of.
collector-CoreInv :
    (w : Core) (cs : Collectors) → CoreInv w → CoreInv (record w { collectors = cs })
collector-CoreInv w cs v = record {
  valid = record {
    exact = v.valid.exact;
    keys = v.valid.keys;
    wild = v.valid.wild;
    patterns = v.valid.patterns;
  };
  one = v.one;
  known = v.known;
  fits = v.fits;
}

handled-CoreInv :
    (ctx : Context) (e : Event) (w : Core) (eb : EventBus)
    → BusInv eb
    → CoreInv w
    → CoreInv (eb.chain.handle ctx e w).0
handled-CoreInv ctx e w eb v c =
    subst (λ f. CoreInv (f ctx e w).0) (sym v.plain) (dispatch-CoreInv ctx e w c)

call-BusInv : (eb : EventBus) (c : Call) → BusInv eb → BusInv (call eb c)
unfolding call subscribe_bus subscribe_async publish publish_report close
call-BusInv eb (subscribes t) v = with_core-BusInv eb _ v (subscribe-CoreInv t eb.core v.core_inv)
call-BusInv eb (subscribes_async t n) v = record {
  core_inv = subscribe-CoreInv t eb.core v.core_inv;
  plain = v.plain;
}
call-BusInv eb (removes t ch) v =
    with_core-BusInv eb _ v (remove_channel-CoreInv t ch eb.core v.core_inv)
call-BusInv eb (unsubscribes i) v = unsubscribe-BusInv i eb v
call-BusInv eb (receives ch) v = with_core-BusInv eb _ v (receive-CoreInv ch eb.core v.core_inv)
call-BusInv eb (publishes ctx e) v =
    with_core-BusInv eb _ v (handled-CoreInv ctx e eb.core eb v v.core_inv)
call-BusInv eb (reports ctx e) v = with_core-BusInv eb _ v (
    handled-CoreInv (with_collector ctx (length eb.core.collectors)) e _ eb v
      (collector-CoreInv eb.core (eb.core.collectors ++ [] ∷ []) v.core_inv))
call-BusInv eb closes v =
    let before : BusInv (record eb { active_subs = [] }) = record {
      core_inv = v.core_inv;
      plain = v.plain;
    } in
    let released = unsubscribe_all-BusInv eb.active_subs (record eb { active_subs = [] }) before in
    record { core_inv = close_tables-CoreInv _ released.core_inv; plain = released.plain }

calls_from-BusInv : (eb : EventBus) (cs : List Call) → BusInv eb → BusInv (calls eb cs)
unfolding calls
calls_from-BusInv eb [] v = v
calls_from-BusInv eb (c ∷ cs) v = calls_from-BusInv (call eb c) cs (call-BusInv eb c v)

-- Every bus without middlewares that calls of its methods, and receives from its channels, can lead to
-- from New on has well-formed tables, a channel of its own for each subscription, and no channel over
-- its capacity.
pub calls-BusInv : (clock : ℕ → ℕ) (cs : List Call) → BusInv (calls (new clock) cs)
calls-BusInv clock cs = calls_from-BusInv (new clock) cs (new-BusInv clock)

-- On a bus without middlewares, after any sequence of calls and receives from New on, PublishReport
-- returns no error and one receipt for each target, in order, which says queued exactly if the
-- target's channel was open and had room; the event is put at the end of exactly those channels, and
-- every other channel is as it was.
pub publish_report-calls :
    (clock : ℕ → ℕ) (cs : List Call) (ctx : Context) (e : Event)
    → let eb = calls (new clock) cs in
      let (eb', receipts, err) = publish_report ctx e eb in
      let w = eb.core in
      (err ≡ none)
      × (receipts ≡ expected w.channels w.clock w.readings e (targets w e.topic))
      × ((i : ℕ)
          → get_elem? eb'.core.channels i ≡ (
              if on_list i (targets w e.topic) && has_room w.channels i
              then pushed e (get_elem? w.channels i)
              else get_elem? w.channels i))
publish_report-calls clock cs ctx e =
    let v = calls-BusInv clock cs in
    publish_report_lem ctx e (calls (new clock) cs) v.core_inv.valid v.core_inv.one v.plain
