-- ===== src/Amqp/Client/Messages.antt =====
-- Publish, PublishBatch and PublishAsync of ext/amqp/amqpclt/publish.go, and sendToMQ of
-- ext/amqp/publisher.go, which calls Publish. The JSON encoder and the names of types are arguments.
use eventbus.Base.{
  ℕ, ◌+◌, List, [], ◌∷◌, ◌++◌, Option, none, some, Text, codes, text_eq, if◌then◌else◌,
}
use eventbus.Errors.{Error, plain}
use eventbus.Event.{Event}
use eventbus.Amqp.Message.{Message}
use eventbus.Amqp.Client.{Publish, Broker, Act, publish_with_retry}

pub data Encoded : Type 0 where
  body : Text → Encoded
  cannot : Error → Encoded

-- sonic.Marshal, and reflect.TypeOf(payload).String(): none for a payload that is nil, whose type is
-- nil, so that the call of String panics.
pub record Encoding : Type 0 where
  pub marshal : Message → Encoded
  pub type_name : ℕ → Option Text

pub data Ended : Type 0 where
  returned : Option Error → Ended
  panicked : Ended

abbrev with_type : Message → Option Text → Option Message
with_type m none = none
with_type m (some t) = some (record m { payload_type = t })

abbrev with_id : Text → Option Message → Option Message
with_id id none = none
with_id id (some m) =
    some (if text_eq m.correlation_id [] then record m { correlation_id = id } else m)

-- The two tests at the start of Publish.
abbrev pub fill_message : Encoding → Text → Message → Option Message
fill_message enc id m =
    with_id id (if text_eq m.payload_type [] then with_type m (enc.type_name m.payload) else some m)

abbrev ended : List Act × Option Error → List Act × Ended
ended (acts, err) = (acts, returned err)

abbrev pub publish_encoded : Publish → Text → Text → Broker → Encoded → List Act × Ended
publish_encoded p key id broker (cannot err) =
    ([], returned (some (plain (codes "cannot marshal"))))
publish_encoded p key id broker (body b) =
    ended (publish_with_retry p key (record { correlation_id = id; body = b }) broker)

abbrev publish_filled :
    Publish → Encoding → Text → Text → Broker → Option Message → List Act × Ended
publish_filled p enc key id broker none = ([], panicked)
publish_filled p enc key id broker (some m) = publish_encoded p key id broker (enc.marshal m)

-- Publish.
unfoldable pub publish_message :
    Publish → Encoding → (routing_key correlation_id : Text) → Message → Broker → List Act × Ended
publish_message p enc key id m broker = publish_filled p enc key id broker (fill_message enc id m)

-- BatchMessage.
pub record BatchMessage : Type 0 where
  pub routing_key : Text
  pub correlation_id : Text
  pub message : Message

-- PublishResult.
pub record PublishResult : Type 0 where
  pub index : ℕ
  pub error : Option Error

module _ (p : Publish) (enc : Encoding) (brokers : ℕ → Broker) where
  -- The call of Publish for the message number `i`.
  abbrev pub publish_one : ℕ → BatchMessage → List Act × Ended
  publish_one i bm = publish_message p enc bm.routing_key bm.correlation_id bm.message (brokers i)

  abbrev pub fail_index : ℕ → Option Error → Option (List ℕ) → Option (List ℕ)
  fail_index i err none = none
  fail_index i none (some rest) = some rest
  fail_index i (some err) (some rest) = some (i ∷ rest)

  abbrev pub batch_next :
      ℕ → List Act × Ended → List Act × Option (List ℕ) → List Act × Option (List ℕ)
  batch_next i (acts, panicked) more = (acts, none)
  batch_next i (acts, returned err) (acts', rest) = (acts ++ acts', fail_index i err rest)

  -- PublishBatch from the message number `i` on: the indices of the messages that failed, or none if
  -- the call panics.
  unfoldable pub batch_from : ℕ → List BatchMessage → List Act × Option (List ℕ)
  batch_from i [] = ([], some [])
  batch_from i (bm ∷ bms) = batch_next i (publish_one i bm) (batch_from (i + 1) bms)

  abbrev pub publish_batch : List BatchMessage → List Act × Option (List ℕ)
  publish_batch bms = batch_from 0 bms

  abbrev pub add_result :
      ℕ → Option Error → Option (List PublishResult) → Option (List PublishResult)
  add_result i err none = none
  add_result i err (some rest) = some (record { index = i; error = err } ∷ rest)

  abbrev pub async_next :
      ℕ
      → List Act × Ended
      → List Act × Option (List PublishResult)
      → List Act × Option (List PublishResult)
  async_next i (acts, panicked) more = (acts, none)
  async_next i (acts, returned err) (acts', rest) = (acts ++ acts', add_result i err rest)

  -- The select at the start of a round.
  abbrev pub unless_done :
      ℕ
      → Option Error
      → List Act × Option (List PublishResult)
      → List Act × Option (List PublishResult)
  unless_done i (some err) round = ([], some (record { index = i; error = some err } ∷ []))
  unless_done i none round = round

  -- The goroutine of PublishAsync from the message number `i` on: what it sends to resultCh, before it
  -- closes it. `done i` is the error of the context if it is done when message `i` comes up.
  unfoldable pub async_from :
      (ℕ → Option Error) → ℕ → List BatchMessage → List Act × Option (List PublishResult)
  async_from done i [] = ([], some [])
  async_from done i (bm ∷ bms) =
      let more = async_from done (i + 1) bms in
      unless_done i (done i) (async_next i (publish_one i bm) more)

  abbrev pub publish_async :
      (ℕ → Option Error) → List BatchMessage → List Act × Option (List PublishResult)
  publish_async done bms = async_from done 0 bms

-- The message of sendToMQ, without a payload type.
abbrev pub message_of_event : Event → Message
message_of_event e = record {
  correlation_id = e.id;
  event = e.topic;
  payload_type = [];
  payload = e.payload;
  timestamp = e.timestamp;
}

-- sendToMQ; an error of Publish is only logged.
unfoldable pub send_to_mq : Publish → Encoding → Event → Broker → List Act × Ended
unfolding publish_message
send_to_mq p enc e broker = publish_message p enc e.topic e.id (message_of_event e) broker
