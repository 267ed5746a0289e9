-- ===== src/Examples/Codec.antt =====
-- An encoder of messages that can be read back, and an event on its way through it.
use eventbus.Base.{
  arith, ℕ, zero, suc, ◌≤◌, [], ◌∷◌, ◌++◌, ◌≡◌, refl, ap, false, none, some, Text, codes, text_eq,
  length,
}
use eventbus.Base.Order.{pos}
use eventbus.Errors.{plain}
use eventbus.Event.{Event}
use eventbus.Amqp.Session.{Result, ok, err}
use eventbus.Amqp.Message.{Message, event_from_message}
use eventbus.Amqp.Client.{Publish, Publishing, Broker, not_sent, confirmed, Answer, one_try}
use eventbus.Amqp.Client.Retries.{tried}
use eventbus.Amqp.Client.Messages.{Encoding, body, send_to_mq}
use eventbus.Amqp.Decoding.{Json, PayloadTypes, decode_message}
use eventbus.Amqp.Decoding.RoundTrip.{arrived, typed_message, send_to_mq-arrived}

-- The first `n` characters of a text, and the rest.
pub read_text : ℕ → Text → Text × Text
read_text zero s = ([], s)
read_text (suc n) [] = ([], [])
read_text (suc n) (c ∷ s) = let (a, rest) = read_text n s in (c ∷ a, rest)

read_text-append : (a rest : Text) → read_text (length a) (a ++ rest) ≡ (a, rest)
unfolding read_text
read_text-append [] rest = refl
read_text-append (c ∷ a) rest = ap (λ (r : Text × Text). (c ∷ r.0, r.1)) (read_text-append a rest)

abbrev pub sized : Text → Text → Text
sized a rest = length a ∷ (a ++ rest)

abbrev pub encode : Message → Text
encode m =
    sized m.correlation_id (sized m.event (sized m.payload_type (m.payload ∷ m.timestamp ∷ [])))

abbrev pub malformed : Result Message
malformed = err (plain (codes "malformed"))

abbrev pub numbers_of : Text → Text → Text → Text → Result Message
numbers_of cid event type (p ∷ t ∷ []) = ok (record {
  correlation_id = cid;
  event = event;
  payload_type = type;
  payload = p;
  timestamp = t;
})
numbers_of cid event type _ = malformed

abbrev pub type_of : Text → Text → Text → Result Message
type_of cid event [] = malformed
type_of cid event (n ∷ s) = let (type, rest) = read_text n s in numbers_of cid event type rest

abbrev pub event_of : Text → Text → Result Message
event_of cid [] = malformed
event_of cid (n ∷ s) = let (event, rest) = read_text n s in type_of cid event rest

abbrev pub decode : Text → Result Message
decode [] = malformed
decode (n ∷ s) = let (cid, rest) = read_text n s in event_of cid rest

pub decode-encode : (m : Message) → decode (encode m) ≡ ok m
decode-encode m = rw (
  read_text-append m.correlation_id _,
  read_text-append m.event _,
  read_text-append m.payload_type _,
)

abbrev pub codec : Encoding
codec = record { marshal = λ m. body (encode m); type_name = λ p. some (codes "Order") }

-- Payloads come back as they were, and are no maps.
abbrev pub codec_json : Json
codec_json = record {
  unmarshal = decode;
  generic = λ p. p;
  is_map = λ p. false;
  marshal_map = λ p. none;
  unmarshal_into = λ b p. p;
}

codec_law :
    (m : Message) (s : Text)
    → codec.marshal m ≡ body s
    → codec_json.unmarshal s ≡ ok (record m { payload = codec_json.generic m.payload })
codec_law m s h = let same : encode m ≡ s = cc in rw (← same) (decode-encode m)

abbrev pub answer_second : ℕ → Answer
answer_second zero = not_sent (plain (codes "closed"))
answer_second (suc n) = confirmed

abbrev pub wire : Broker
wire = record { answer = answer_second; done_in_wait = λ n. none }

abbrev pub sender : Publish
sender = record {
  exchange = codes "events";
  max_retries = pos 3;
  retry_backoff = 100;
  confirm_timeout = 0;
}

abbrev pub placed : Event
placed = record {
  id = codes "e1";
  topic = codes "order.created";
  payload = 42;
  source = codes "distributed";
  timestamp = 7;
}

placed_id : text_eq placed.id [] ≡ false
unfolding text_eq
placed_id = refl

abbrev pub no_types : PayloadTypes
no_types t = none

send_to_mq-arrived_example :
    let sent = encode (typed_message placed (codes "Order")) in
    let msg : Publishing = record { correlation_id = placed.id; body = sent } in
    (k : ℕ) × (k ≤ 3)
    × ((send_to_mq sender codec placed wire).0
        ≡ tried sender placed.topic msg wire 0 k ++ one_try sender placed.topic msg wire ∷ [])
    × (m : Message) × (decode_message codec_json no_types
          (record { correlation_id = placed.id; body = sent })
        ≡ ok m)
    × (event_from_message 1 2 m ≡ arrived codec_json no_types placed (codes "Order"))
send_to_mq-arrived_example =
    send_to_mq-arrived sender codec codec_json no_types wire 1 2 3 placed (codes "Order")
      (encode (typed_message placed (codes "Order"))) refl (omega arith) placed_id refl refl
      codec_law
