-- ===== src/Examples/Pipelines.antt =====
-- A delivery that cannot be decoded and one that is handled, and then the connection is lost.
use eventbus.Base.{ℕ, zero, suc, ap, text_eq, [], ◌∷◌, ◌≡◌, refl, inr, true, false, codes, ◌==◌}
use eventbus.Errors.{plain}
use eventbus.Event.Counts.{count}
use eventbus.Amqp.Session.{ok, err}
use eventbus.Amqp.Message.{Message, acked, nacked}
use eventbus.Amqp.Decoding.{Envelope, complete, decode_message, restore_payload}
use eventbus.Amqp.Pipeline.{
  Forwarder, selects, offers, Receiver, waits, handles, Pipeline, new_pipeline, settle, arrives,
  source_closes, takes, refuses, forwarder_ends, hands_over, finishes, receiver_ends, Steps, here,
  next,
}
use eventbus.Amqp.Pipeline.Handlers.{subscribe_handling}
use eventbus.Amqp.Pipeline.Settled.{count_pipeline, count_settled, Steps-count_pipeline}
use eventbus.Amqp.Pipeline.Ending.{all_settled, subscription-CanEnd}
use eventbus.Examples.Codec.{codec_json, no_types, encode, decode-encode}

abbrev greeting : Message
greeting = record {
  correlation_id = codes "m1";
  event = codes "greeting";
  payload_type = [];
  payload = 1;
  timestamp = 2;
}

-- Delivery 0 is empty, the others hold the greeting.
abbrev mail : ℕ → Envelope
mail zero = record { correlation_id = codes "m0"; body = [] }
mail (suc n) = record { correlation_id = codes "m1"; body = encode greeting }

unreadable : decode_message codec_json no_types (mail 0) ≡ err (plain (codes "malformed"))
unfolding decode_message
unreadable = refl

readable : decode_message codec_json no_types (mail 1) ≡ ok greeting
unfolding decode_message restore_payload text_eq
readable = ap (complete codec_json no_types (mail 1)) (decode-encode greeting)

abbrev Run : Pipeline → Pipeline → Type 0
Run p q = Steps codec_json no_types mail subscribe_handling p q

abbrev with_both : Pipeline
with_both = record new_pipeline { arrived = 0 ∷ 1 ∷ []; pending = 0 ∷ 1 ∷ [] }

abbrev rejected : Pipeline
rejected = settle 0 (nacked false ∷ []) (record with_both { pending = 1 ∷ [] })

abbrev offered : Pipeline
offered = record rejected { pending = []; forwarder = offers 1 greeting }

abbrev received : Pipeline
received = record offered { forwarder = selects; receiver = handles 1 greeting }

abbrev acknowledged : Pipeline
acknowledged = settle 1 (acked ∷ []) (record received { receiver = waits })

abbrev lost : Pipeline
lost = record acknowledged { source_closed = true }

abbrev drained : Pipeline
drained = record lost { forwarder = Forwarder.stopped }

abbrev ended : Pipeline
ended = record drained { receiver = Receiver.stopped }

until_offered : Run new_pipeline offered
until_offered =
    next
      (next
        (next (next here (arrives 0 new_pipeline refl))
          (arrives 1 (record new_pipeline { arrived = 0 ∷ []; pending = 0 ∷ [] }) refl))
        (refuses 0 (1 ∷ []) (plain (codes "malformed")) with_both refl refl unreadable))
      (takes 1 [] greeting rejected refl refl readable)

until_lost : Run new_pipeline lost
until_lost =
    next
      (next (next until_offered (hands_over 1 greeting offered refl refl))
        (finishes 1 greeting (acked ∷ []) received refl refl))
      (source_closes acknowledged)

whole : Run new_pipeline ended
whole =
    next (next until_lost (forwarder_ends lost refl refl refl)) (receiver_ends drained refl refl)

Steps-count_pipeline_example :
    count_pipeline (λ t. t == 1) offered ≡ count (λ t. t == 1) offered.arrived
Steps-count_pipeline_example =
    Steps-count_pipeline codec_json no_types mail subscribe_handling (λ t. t == 1) until_offered

all_settled_example :
    (ended.source_closed ≡ true)
    × (ended.forwarder ≡ Forwarder.stopped)
    × (count_settled (λ t. t == 1) ended.settled ≡ count (λ t. t == 1) ended.arrived)
all_settled_example =
    all_settled codec_json no_types mail subscribe_handling (λ t. t == 1) whole refl refl

subscription-CanEnd_example :
    (q : Pipeline) × (Run lost q)
    × (q.arrived ≡ lost.arrived)
    × (q.forwarder ≡ Forwarder.stopped)
    × (q.receiver ≡ Receiver.stopped)
subscription-CanEnd_example =
    subscription-CanEnd codec_json no_types mail subscribe_handling until_lost (inr refl)
