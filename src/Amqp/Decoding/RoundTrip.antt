-- ===== src/Amqp/Decoding/RoundTrip.antt =====
-- An event that sendToMQ publishes comes back as the event that a consumer or a listener makes of the
-- message.
use eventbus.Base.{
  ℕ, ◌≤◌, ◌<◌, [], ◌∷◌, ◌++◌, ◌≡◌, refl, ap, ◌∙◌, false, some, Text, codes, text_eq,
}
use eventbus.Base.Order.{pos, max_int}
use eventbus.Event.{Event}
use eventbus.Amqp.Session.{ok}
use eventbus.Amqp.Message.{Message, event_from_message}
use eventbus.Amqp.Client.{Publish, Broker, one_try}
use eventbus.Amqp.Client.Retries.{tried, publish_with_retry_lem}
use eventbus.Amqp.Client.Messages.{
  Encoding, body, send_to_mq, message_of_event, publish_message, fill_message,
}
use eventbus.Amqp.Decoding.{Json, PayloadTypes, decode_message, restore_payload, complete}

-- The message that sendToMQ encodes for an event whose payload has the type `t`.
abbrev pub typed_message : Event → Text → Message
typed_message e t = record (message_of_event e) { payload_type = t }

-- The event that comes back.
abbrev pub arrived : Json → PayloadTypes → Event → Text → Event
arrived json types e t = record {
  id = e.id;
  topic = e.topic;
  payload = restore_payload json types t (json.generic e.payload);
  source = codes "amqp";
  timestamp = e.timestamp;
}

fill_message-typed :
    (enc : Encoding) (e : Event) (t : Text)
    → enc.type_name e.payload ≡ some t
    → text_eq e.id [] ≡ false
    → fill_message enc e.id (message_of_event e) ≡ some (typed_message e t)
unfolding text_eq
fill_message-typed enc e t typed has_id = rw (typed, has_id)

event_from_message-arrived :
    (json : Json) (types : PayloadTypes) (now draw : ℕ) (e : Event) (t b : Text)
    → text_eq e.id [] ≡ false
    → json.unmarshal b ≡ ok (record (typed_message e t) { payload = json.generic e.payload })
    → (m : Message) × (decode_message json types (record { correlation_id = e.id; body = b })
        ≡ ok m)
      × (event_from_message now draw m ≡ arrived json types e t)
unfolding decode_message event_from_message
event_from_message-arrived json types now draw e t b has_id decoded = (
  record (typed_message e t) { payload = restore_payload json types t (json.generic e.payload) },
  ap (complete json types (record { correlation_id = e.id; body = b })) decoded ∙ rw has_id,
  rw has_id,
)

-- sendToMQ publishes an event k + 1 times for some k up to maxRetries = n, with waits between, always
-- on the publisher's exchange with the event's topic as routing key, its id as correlation id and the
-- same body; and what decodeMessage makes of such a delivery becomes, at the receiver, an event with
-- the same id, topic and timestamp, of source amqp, whose payload is the decoded one with its type
-- restored. Hypotheses: n is not negative and below math.MaxInt, the id is not empty, the payload has a type, the event can
-- be encoded, and decoding an encoded message gives its fields back, the payload as a decoded value.
pub send_to_mq-arrived :
    (p : Publish) (enc : Encoding) (json : Json) (types : PayloadTypes) (broker : Broker)
    → (now draw n : ℕ) (e : Event) (t b : Text) → p.max_retries ≡ pos n
    → n < max_int
    → text_eq e.id [] ≡ false
    → enc.type_name e.payload ≡ some t
    → enc.marshal (typed_message e t) ≡ body b
    → ((m : Message) (s : Text)
        → enc.marshal m ≡ body s
        → json.unmarshal s ≡ ok (record m { payload = json.generic m.payload }))
    → (k : ℕ) × (k ≤ n)
      × ((send_to_mq p enc e broker).0
          ≡ tried p e.topic (record { correlation_id = e.id; body = b }) broker 0 k
            ++ one_try p e.topic (record { correlation_id = e.id; body = b }) broker ∷ [])
      × (m : Message) × (decode_message json types (record { correlation_id = e.id; body = b })
          ≡ ok m)
      × (event_from_message now draw m ≡ arrived json types e t)
unfolding send_to_mq publish_message
send_to_mq-arrived p enc json types broker now draw n e t b max small has_id typed encoded laws =
    let (k, le, every, over, run, good) =
      publish_with_retry_lem p e.topic (record { correlation_id = e.id; body = b }) broker n max
        small in
    let (m, decoded, back) =
      event_from_message-arrived json types now draw e t b has_id
        (laws (typed_message e t) b encoded) in
    (k, le, rw (fill_message-typed enc e t typed has_id, encoded, run) refl, m, decoded, back)
