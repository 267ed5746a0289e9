-- ===== src/Examples/Deliveries.antt =====
-- A small bus, and what PublishReport does on it.
use eventbus.Base.{
  ℕ, ◌+◌, List, [], ◌∷◌, ◌≡◌, refl, false, ◌&&◌, none, codes, get_elem?, if◌then◌else◌,
}
use eventbus.Event.{Event, new_event}
use eventbus.Channel.{Channels, send_safe}
use eventbus.Channel.Sends.{has_room, pushed}
use eventbus.Channel.Bounds.{ChannelOp}
use eventbus.Delivery.{Context}
use eventbus.Bus.Table.Counts.{count_if, count_all, on_channel}
use eventbus.Bus.Dispatch.{dispatch, deliver_all}
use eventbus.Bus.Dispatch.Targets.{targets, receives, count_if-targets, dispatch-deliver_all}
use eventbus.Bus.Dispatch.Receipts.{expected, on_list}
use eventbus.Bus.Chain.{EventBus, new, publish_report}
use eventbus.Bus.Lifecycle.Reachable.{
  Call, subscribes, removes, publishes, calls, BusInv, calls-BusInv, publish_report-calls,
}

abbrev pub ticks : ℕ → ℕ
ticks n = 100 + n

abbrev pub background : Context
background = record { collector = none; done = false }

abbrev pub order : Event
order = new_event 1_700_000_000 7 (codes "order.created") 42

-- Two subscriptions to a pattern and one to a topic; one of the former is removed.
abbrev pub history : List Call
history =
    subscribes (codes "order.*")
    ∷ subscribes (codes "order.created")
    ∷ subscribes (codes "order.*")
    ∷ removes (codes "order.*") 0
    ∷ publishes background order
    ∷ Call.receives 1
    ∷ []

abbrev pub shop : EventBus
shop = calls (new ticks) history

pub shop-BusInv : BusInv shop
shop-BusInv = calls-BusInv ticks history

publish_report-calls_example :
    let (eb', receipts, err) = publish_report background order shop in
    let w = shop.core in
    (err ≡ none)
    × (receipts ≡ expected w.channels w.clock w.readings order (targets w order.topic))
    × ((i : ℕ)
        → get_elem? eb'.core.channels i ≡ (
            if on_list i (targets w order.topic) && has_room w.channels i
            then pushed order (get_elem? w.channels i)
            else get_elem? w.channels i))
publish_report-calls_example = publish_report-calls ticks history background order

calls-BusInv_example : BusInv (calls (new ticks) history)
calls-BusInv_example = calls-BusInv ticks history

count_if-targets_example :
    count_if (on_channel 2) (targets shop.core (codes "order.created"))
    ≡ count_all (λ s. on_channel 2 s && receives s.topic (codes "order.created")) shop.core
count_if-targets_example =
    count_if-targets (on_channel 2) (codes "order.created") shop.core shop-BusInv.core_inv.valid

dispatch-deliver_all_example :
    dispatch background order shop.core
    ≡ (deliver_all none (targets shop.core order.topic) order shop.core, none)
dispatch-deliver_all_example = dispatch-deliver_all background order shop.core

-- One channel with room for one event: the second is dropped.
abbrev ops : List ChannelOp
ops =
    ChannelOp.sends 0 order
    ∷ ChannelOp.sends 0 order
    ∷ ChannelOp.closes 0
    ∷ ChannelOp.receives 0
    ∷ []

abbrev narrow : Channels
narrow = record { capacity = 1; queue = []; closed = false } ∷ []

second_send_is_dropped : (send_safe 0 order (send_safe 0 order narrow).0).1 ≡ false
unfolding send_safe
second_send_is_dropped = refl
