-- ===== src/Delivery.antt =====
-- delivery.go: delivery receipts, and the collector that a context carries.
use eventbus.Base.{ℕ, List, [], ◌∷◌, ◌++◌, Option, none, some, Text, codes, get_elem?, set, Bool}

-- DeliveryStatus is an int: the two constants, and any other value.
pub data DeliveryStatus : Type 0 where
  queued dropped : DeliveryStatus
  other : ℕ → DeliveryStatus

-- DeliveryStatus.String.
pub to_string : DeliveryStatus → Text
to_string queued = codes "queued"
to_string dropped = codes "dropped"
to_string (other n) = codes "unknown"

pub record DeliveryReceipt : Type 0 where
  pub event_id : Text
  pub topic : Text
  pub subscriber_id : Text
  pub subscription_topic : Text
  pub status : DeliveryStatus
  pub at : ℕ

-- The collectors that PublishReport has made; a pointer is a place in the list.
abbrev pub Collectors : Type 0
Collectors = List (List DeliveryReceipt)

-- A context: the collector it holds under receiptCollectorKey, and whether it is done.
pub record Context : Type 0 where
  pub collector : Option ℕ
  pub done : Bool

-- context.WithValue(ctx, receiptCollectorKey{}, collector).
abbrev pub with_collector : Context → ℕ → Context
with_collector ctx k = record ctx { collector = some k }

-- receiptCollectorFromContext.
abbrev pub receipt_collector_from_context : Context → Option ℕ
receipt_collector_from_context ctx = ctx.collector

abbrev append_to : ℕ → DeliveryReceipt → Collectors → Option (List DeliveryReceipt) → Collectors
append_to k r cs none = cs
append_to k r cs (some rs) = set cs k (rs ++ r ∷ [])

-- receiptCollector.add.
unfoldable pub add_receipt : ℕ → DeliveryReceipt → Collectors → Collectors
add_receipt k r cs = append_to k r cs (get_elem? cs k)
