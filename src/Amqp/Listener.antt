-- ===== src/Amqp/Listener.antt =====
-- Listener.handle of ext/amqp/publisher.go: one delivery goes to the bus, and is confirmed when its
-- receipts are recorded.
pub mod Confirms
use eventbus.Base.{ℕ, List, [], ◌∷◌, ◌++◌, Bool, true, false, Option, none, some}
use eventbus.Errors.{Error}
use eventbus.Event.{Event}
use eventbus.Delivery.{Context, DeliveryReceipt}
use eventbus.Bus.Chain.{EventBus, Outcome, returned, panicked, publish_report}
use eventbus.Amqp.Message.{Message, Delivery, Settlement, acked, nacked, event_from_message}

-- DeliveryRecorder, whose Record is code of the application: what it answers.
abbrev pub Recorder : Type 0
Recorder = List DeliveryReceipt → Option Error

-- The calls that handle makes beside the publication, in order.
pub data Confirm : Type 0 where
  recorded : List DeliveryReceipt → Confirm
  confirmed : Settlement → Confirm

-- The lines of handle after the publication.
unfoldable pub confirm : Option Recorder → List DeliveryReceipt → Option Error → List Confirm
confirm recorder receipts (some err) = confirmed (nacked true) ∷ []
confirm none receipts none = confirmed acked ∷ []
confirm (some record_all) receipts none =
    recorded receipts
    ∷ elim (record_all receipts) [ some err ↦ confirmed (nacked true) | none ↦ confirmed acked ]
    ∷ []

-- handle; a nil delivery is dereferenced.
unfoldable pub listen :
    Option Recorder
    → (now draw : ℕ) → Context
    → Option Delivery
    → EventBus
    → EventBus × List Confirm × Outcome
unfolding confirm
listen recorder now draw ctx none eb = (eb, [], panicked)
listen recorder now draw ctx (some none) eb = (eb, confirmed (nacked false) ∷ [], returned)
listen recorder now draw ctx (some (some m)) eb =
    let (eb', receipts, err) = publish_report ctx (event_from_message now draw m) eb in
    (eb', confirm recorder receipts err, returned)
