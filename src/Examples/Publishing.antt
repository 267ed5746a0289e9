-- ===== src/Examples/Publishing.antt =====
-- The AMQP client's publications, with a broker that refuses a message once.
use eventbus.Base.{
  arith, ℕ, zero, suc, ◌≤◌, List, [], ◌∷◌, ◌++◌, ◌≡◌, ◌↔◌, refl, true, false, Option, none, some,
  Text, codes, text_eq,
}
use eventbus.Base.Order.{pos}
use eventbus.Errors.{context_canceled}
use eventbus.Amqp.Client.{
  Publish, Publishing, Broker, Answer, refused, confirmed, unconfirmed, one_try, publish_with_retry,
  rounds_from,
}
use eventbus.Amqp.Client.Retries.{all_retry, retries_at, tried, verdict, publish_with_retry_lem}
use eventbus.Amqp.Client.Messages.{
  Encoding, body, panicked, BatchMessage, batch_from, publish_batch, publish_message, send_to_mq,
}
use eventbus.Amqp.Client.Batches.{send_to_mq-panics}
use eventbus.Examples.Deliveries.{order}

abbrev client : Publish
client = record {
  exchange = codes "shop";
  max_retries = pos 3;
  retry_backoff = 100;
  confirm_timeout = 0;
}

abbrev refuses_once : ℕ → Answer
refuses_once zero = refused
refuses_once (suc n) = confirmed

abbrev slow_broker : Broker
slow_broker = record { answer = refuses_once; done_in_wait = λ j. none }

abbrev dead_broker : Broker
dead_broker = record { answer = λ j. unconfirmed context_canceled; done_in_wait = λ j. none }

abbrev letter : Publishing
letter = record { correlation_id = codes "7"; body = codes "x" }

abbrev key : Text
key = codes "order.created"

publish_with_retry_lem_example :
    (k : ℕ) × (k ≤ 3)
    × (all_retry client key letter slow_broker 0 k ≡ true)
    × (retries_at client key letter slow_broker k ≡ false)
    × (publish_with_retry client key letter slow_broker ≡ (
      tried client key letter slow_broker 0 k ++ one_try client key letter slow_broker ∷ [],
      verdict client key letter slow_broker k,
    ))
    × (((publish_with_retry client key letter slow_broker).1 ≡ none)
        ↔ (slow_broker.answer k ≡ confirmed))
publish_with_retry_lem_example =
    publish_with_retry_lem client key letter slow_broker 3 refl (omega arith)

-- A payload of the number 0 is nil.
abbrev types : ℕ → Option Text
types zero = none
types (suc n) = some (codes "int")

abbrev encoding : Encoding
encoding = record { marshal = λ m. body (codes "x"); type_name = types }

-- The second message of a batch meets the dead broker.
abbrev brokers : ℕ → Broker
brokers zero = slow_broker
brokers (suc n) = dead_broker

abbrev a_message : BatchMessage
a_message = record {
  routing_key = key;
  correlation_id = codes "7";
  message = record {
    correlation_id = [];
    event = key;
    payload_type = codes "int";
    payload = 42;
    timestamp = 9;
  };
}

abbrev batch : List BatchMessage
batch = a_message ∷ a_message ∷ []

second_fails : (publish_batch client encoding brokers batch).1 ≡ some (1 ∷ [])
unfolding batch_from publish_message publish_with_retry rounds_from text_eq
second_fails = refl

send_to_mq-panics_example :
    ((send_to_mq client encoding (record order { payload = 0 }) slow_broker).1 ≡ panicked)
    ↔ (types 0 ≡ none)
send_to_mq-panics_example =
    send_to_mq-panics client encoding (record order { payload = 0 }) slow_broker
