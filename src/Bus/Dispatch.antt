-- ===== src/Bus/Dispatch.antt =====
-- dispatch and deliver of bus.go.
pub mod Targets
pub mod Receipts
use eventbus.Base.{
  ℕ, List, [], ◌∷◌, ◌++◌, Bool, true, false, ◌&&◌, Option, none, some, Text, split, length, ◌+◌,
  ◌==◌, if◌then◌else◌, ltb,
}
use eventbus.Errors.{Error}
use eventbus.Event.{Event}
use eventbus.Channel.{Channels, send_safe}
use eventbus.Delivery.{
  Context, DeliveryReceipt, DeliveryStatus, queued, dropped, add_receipt,
  receipt_collector_from_context,
}
use eventbus.Wildcard.{dot, match_segments}
use eventbus.Bus.State.{Subscription, WildcardEntry, Core}
use eventbus.Bus.Table.{subs_of}

-- time.Now: the reading, and the bus that has made it.
abbrev pub read_clock : Core → Core × ℕ
read_clock w = (record w { readings = w.readings + 1 }, w.clock w.readings)

abbrev pub status_of : Bool → DeliveryStatus
status_of true = queued
status_of false = dropped

abbrev pub receipt_for : Subscription → Event → Bool → ℕ → DeliveryReceipt
receipt_for sub e sent at = record {
  event_id = e.id;
  topic = e.topic;
  subscriber_id = sub.id;
  subscription_topic = sub.topic;
  status = status_of sent;
  at = at;
}

-- The part of deliver after the send: nothing without a collector.
abbrev record_delivery : Option ℕ → Subscription → Event → Bool → Core → Core
record_delivery none sub e sent w = w
record_delivery (some k) sub e sent w =
    let (w', at) = read_clock w in
    record w' { collectors = add_receipt k (receipt_for sub e sent at) w'.collectors }

-- deliver.
unfoldable pub deliver : Option ℕ → Subscription → Event → Core → Core
deliver collector sub e w =
    let (chs, sent) = send_safe sub.ch e w.channels in
    record_delivery collector sub e sent (record w { channels = chs })

-- The loop at the end of dispatch.
unfoldable pub deliver_all : Option ℕ → List Subscription → Event → Core → Core
deliver_all collector [] e w = w
deliver_all collector (sub ∷ subs) e w = deliver_all collector subs e (deliver collector sub e w)

-- The loop over the wildcard entries: the subscriptions of those that match.
unfoldable pub wildcard_hits : List Text → List WildcardEntry → List Subscription
wildcard_hits topic_segments [] = []
wildcard_hits topic_segments (e ∷ es) =
    let hits = wildcard_hits topic_segments es in
    if match_segments e.segments topic_segments then e.subs ++ hits else hits

-- The fast path for a single exact subscriber with no hit, and the copied list.
abbrev send_out : Option ℕ → List Subscription → List Subscription → Event → Core → Core
send_out collector (sub ∷ []) [] e w = deliver collector sub e w
send_out collector exact hits e w = deliver_all collector (exact ++ hits) e w

-- dispatch.
unfoldable pub dispatch : Context → Event → Core → Core × Option Error
dispatch ctx e w =
    let collector = receipt_collector_from_context ctx in
    let exact = subs_of e.topic w.subscribers in
    if length exact == 0 && length w.wildcard_subs == 0
    then (w, none)
    else let hits =
        if ltb 0 (length w.wildcard_subs)
        then wildcard_hits (split dot e.topic) w.wildcard_subs
        else [] in
      (send_out collector exact hits e w, none)
