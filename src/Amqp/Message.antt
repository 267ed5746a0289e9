-- ===== src/Amqp/Message.antt =====
-- amqpclt.Message, and the event that is made of one.
use eventbus.Base.{ℕ, Text, [], codes, text_eq, if◌then◌else◌, Option, Bool}
use eventbus.Event.{Event, new_event}

-- Message.
pub record Message : Type 0 where
  pub correlation_id : Text
  pub event : Text
  pub payload_type : Text
  pub payload : ℕ
  pub timestamp : ℕ

-- Delivery: the message, if there is one. Its Ack and Nack are listed where they are called.
abbrev pub Delivery : Type 0
Delivery = Option Message

-- The calls of a delivery's Ack and Nack.
pub data Settlement : Type 0 where
  acked : Settlement
  nacked : (requeue : Bool) → Settlement

-- eventFromMessage of consumer.go, and the same lines of Listener.handle: a message without a
-- correlation id gets a new identifier, made at the given clock reading and random number.
unfoldable pub event_from_message : ℕ → ℕ → Message → Event
event_from_message now draw m = record {
  id =
      if text_eq m.correlation_id []
      then (new_event now draw m.event m.payload).id
      else m.correlation_id;
  topic = m.event;
  payload = m.payload;
  source = codes "amqp";
  timestamp = m.timestamp;
}
