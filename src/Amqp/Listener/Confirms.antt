-- ===== src/Amqp/Listener/Confirms.antt =====
-- A delivery is confirmed once, and not before its receipts are recorded.
use eventbus.Base.{
  ℕ, List, [], ◌∷◌, ◌++◌, ◌≡◌, refl, Bool, true, false, Option, none, some, arith, if◌then◌else◌,
}
use eventbus.Delivery.{Context, DeliveryReceipt}
use eventbus.Bus.Table.Valid.{IsValid}
use eventbus.Bus.Dispatch.{dispatch}
use eventbus.Bus.Dispatch.Targets.{targets}
use eventbus.Bus.Dispatch.Targets.Removal.{OnePerChannel}
use eventbus.Bus.Dispatch.Receipts.{expected}
use eventbus.Bus.Chain.{EventBus, returned}
use eventbus.Bus.Chain.Report.{publish_report_lem}
use eventbus.Amqp.Message.{Message, acked, nacked, event_from_message}
use eventbus.Amqp.Listener.{Recorder, Confirm, recorded, confirmed, confirm, listen}

abbrev pub is_none : {A : Type 0} → Option A → Bool
is_none none = true
is_none (some a) = false

abbrev pub records : Option Recorder → List DeliveryReceipt → List Confirm
records none receipts = []
records (some f) receipts = recorded receipts ∷ []

abbrev pub accepts : Option Recorder → List DeliveryReceipt → Bool
accepts none receipts = true
accepts (some f) receipts = is_none (f receipts)

confirm_lem :
    (r : Option Recorder) (receipts : List DeliveryReceipt)
    → confirm r receipts none
      ≡ records r receipts ++ confirmed (if accepts r receipts then acked else nacked true) ∷ []
unfolding confirm
confirm_lem none receipts = refl
confirm_lem (some f) receipts = ground arith

-- A message that reaches a bus whose chain is dispatch itself: the recorder, if there is one, gets
-- one receipt for each target of the message's topic; then, and last, comes one Ack, if the recorder
-- accepts them or there is none, or one Nack with requeue.
pub listen_lem :
    (r : Option Recorder) (now draw : ℕ) (ctx : Context) (m : Message) (eb : EventBus)
    → IsValid eb.core
    → OnePerChannel eb.core
    → eb.chain.handle ≡ dispatch
    → let (eb', acts, outcome) = listen r now draw ctx (some (some m)) eb in
      let w = eb.core in
      let e = event_from_message now draw m in
      let receipts = expected w.channels w.clock w.readings e (targets w e.topic) in
      (outcome ≡ returned)
      × (acts
          ≡ records r receipts
            ++ confirmed (if accepts r receipts then acked else nacked true) ∷ [])
unfolding listen
listen_lem r now draw ctx m eb v one plain =
    let w = eb.core in
    let e = event_from_message now draw m in
    let receipts = expected w.channels w.clock w.readings e (targets w e.topic) in
    let (no_error, all, filled) = publish_report_lem ctx e eb v one plain in
    (refl, rw (no_error, all) (confirm_lem r receipts))
