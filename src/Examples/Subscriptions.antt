-- ===== src/Examples/Subscriptions.antt =====
-- Subscribing, unsubscribing and closing.
use eventbus.Base.{
  List, [], ◌∷◌, ◌≡◌, refl, Bool, true, some, Text, codes, arith, get_elem?, ◌==◌, if◌then◌else◌,
  text_eq,
}
use eventbus.Channel.{Channel, make, close_safe}
use eventbus.Bus.State.{Subscription}
use eventbus.Bus.Table.{
  add_channel, remove_channel, subs_of, subscribe, new_subscription, put_subs, remove_first,
}
use eventbus.Bus.Table.Counts.{count_if, count_all, on_channel}
use eventbus.Bus.Table.Counts.Removal.{subs_at}
use eventbus.Bus.Dispatch.Targets.{targets}
use eventbus.Bus.Roster.{tally, audience}
use eventbus.Bus.Roster.Refinement.{
  TableOp, subscribes, removes, run_ops, view, view_ops, run_ops-refines,
}
use eventbus.Bus.Dispatch.Targets.Removal.{targets-remove_channel}
use eventbus.Bus.Chain.{EventBus, new}
use eventbus.Bus.Lifecycle.{
  subscribe_bus, subscribe_async, unsubscribe, close, unsubscribe_all, release_sub, close_tables,
  close_exact, close_wild, close_subs, erase_first,
}
use eventbus.Bus.Lifecycle.Close.{close-closes, close_lem}
use eventbus.Bus.Lifecycle.Reachable.{
  Call, subscribes, subscribes_async, call, calls, BusInv, calls-BusInv,
}
use eventbus.Wildcard.{is_wildcard_pattern}
use eventbus.Examples.Deliveries.{ticks}

abbrev opened : List Call
opened = subscribes (codes "a") ∷ subscribes_async (codes "a") 2 ∷ []

abbrev pub station : EventBus
station = calls (new ticks) opened

pub station-BusInv : BusInv station
station-BusInv = calls-BusInv ticks opened

one_on_station : count_if (on_channel 1) (subs_at (codes "a") station.core) ≡ 1
unfolding call calls new subscribe_bus subscribe_async subscribe add_channel new_subscription
    subs_of put_subs is_wildcard_pattern make text_eq
one_on_station = refl

abbrev emptied : Channel
emptied = record { capacity = 64; queue = []; closed = true }

closed_channel : get_elem? (close station).core.channels 1 ≡ some emptied
unfolding call calls new subscribe_bus subscribe_async subscribe add_channel new_subscription
    subs_of put_subs is_wildcard_pattern make text_eq close unsubscribe_all unsubscribe release_sub
    remove_channel remove_first erase_first close_tables close_exact close_wild close_subs
    close_safe
closed_channel = refl

one_on_bus : count_all (on_channel 1) station.core ≡ 1
unfolding call calls new subscribe_bus subscribe_async subscribe add_channel new_subscription
    subs_of put_subs is_wildcard_pattern make text_eq
one_on_bus = refl

none_on_bus : count_all (on_channel 5) station.core ≡ 0
unfolding call calls new subscribe_bus subscribe_async subscribe add_channel new_subscription
    subs_of put_subs is_wildcard_pattern make text_eq
none_on_bus = refl

targets-remove_channel_example :
    count_if (on_channel 0) (targets (remove_channel (codes "a") 1 station.core) (codes "a"))
    ≡ (if 0 == 1 then 0 else count_if (on_channel 0) (targets station.core (codes "a")))
targets-remove_channel_example =
    targets-remove_channel (codes "a") 1 station.core station-BusInv.core_inv.valid
      station-BusInv.core_inv.one (omega (arith, one_on_station)) (codes "a") 0

close-closes_example : emptied.closed ≡ true
close-closes_example = close-closes station 1 emptied (omega (arith, one_on_bus)) closed_channel

close_lem_example :
    let eb' = close station in
    (eb'.active_subs ≡ [])
    × ((p : Subscription → Bool) → count_all p eb'.core ≡ 0)
    × ((t : Text) → targets eb'.core t ≡ [])
close_lem_example = close_lem station

abbrev changes : List TableOp
changes = subscribes (codes "b.*") ∷ removes (codes "a") 1 ∷ removes (codes "c") 0 ∷ []

run_ops-refines_example :
    let w = station.core in
    let a = view_ops (view w) changes in
    (view (run_ops w changes) ≡ a)
    × ((p : Subscription → Bool) (t : Text)
        → count_if p (targets (run_ops w changes) t) ≡ tally p (audience t a.subs))
run_ops-refines_example = run_ops-refines changes station.core station-BusInv.core_inv
