-- ===== src/Bus/Chain/Report.antt =====
-- PublishReport, from the tables to the receipts.
use eventbus.Base.{
  ℕ, [], ◌∷◌, ◌++◌, ◌≡◌, refl, ◌∙◌, ap, ◌&&◌, none, some, if◌then◌else◌, get_elem?, get_elem?-end,
  length,
}
use eventbus.Event.{Event}
use eventbus.Channel.Sends.{has_room, pushed}
use eventbus.Delivery.{Context, with_collector}
use eventbus.Bus.Table.Valid.{IsValid}
use eventbus.Bus.Dispatch.{dispatch}
use eventbus.Bus.Dispatch.Targets.{targets, dispatch-deliver_all}
use eventbus.Bus.Dispatch.Targets.Removal.{OnePerChannel}
use eventbus.Bus.Dispatch.Receipts.{
  expected, on_list, deliver_all-collectors, deliver_all-channels, targets-DistinctChannels,
}
use eventbus.Bus.Chain.{EventBus, publish_report, receipts_of}

-- PublishReport on a bus whose chain is dispatch itself: no error; one receipt for each target, in
-- order, which says queued exactly if the target's channel was open and had room when the event was
-- published; and every channel afterwards is as it was, but for the event at the end of each
-- target's channel that had room.
pub publish_report_lem :
    (ctx : Context) (e : Event) (eb : EventBus)
    → IsValid eb.core
    → OnePerChannel eb.core
    → eb.chain.handle ≡ dispatch
    → let (eb', receipts, err) = publish_report ctx e eb in
      let w = eb.core in
      (err ≡ none)
      × (receipts ≡ expected w.channels w.clock w.readings e (targets w e.topic))
      × ((i : ℕ)
          → get_elem? eb'.core.channels i ≡ (
              if on_list i (targets w e.topic) && has_room w.channels i
              then pushed e (get_elem? w.channels i)
              else get_elem? w.channels i))
unfolding publish_report
publish_report_lem ctx e eb v one plain =
    let w = eb.core in
    let k = length w.collectors in
    let start = record w { collectors = w.collectors ++ [] ∷ [] } in
    let distinct = targets-DistinctChannels e.topic w v one in
    let ran =
      ap (λ f. f (with_collector ctx k) e start) plain
      ∙ dispatch-deliver_all (with_collector ctx k) e start in
    rw ran (
      refl,
      ap receipts_of (
          deliver_all-collectors k (targets w e.topic) e start [] distinct
            (get_elem?-end w.collectors [])),
      λ i. deliver_all-channels (some k) (targets w e.topic) e start i distinct,
    )
