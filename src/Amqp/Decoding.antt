-- ===== src/Amqp/Decoding.antt =====
-- decodeMessage and RegisterPayloadType of ext/amqp/amqpclt/subscribe.go. The JSON library is an
-- argument.
pub mod RoundTrip
use eventbus.Base.{ℕ, Text, [], text_eq, if◌then◌else◌, Option, none, some, Bool}
use eventbus.Amqp.Session.{Result, ok, err}
use eventbus.Amqp.Message.{Message}

-- sonic, for what decodeMessage does with it.
pub record Json : Type 0 where
  pub unmarshal : Text → Result Message
  -- What a payload is when it has been encoded and decoded as a value of any type.
  pub generic : ℕ → ℕ
  -- The payload is a map[string]interface{}, as JSON objects become; its encoding, if there is one.
  pub is_map : ℕ → Bool
  pub marshal_map : ℕ → Option Text
  -- What a value holds after a text is decoded into it, whether that fails or not.
  pub unmarshal_into : Text → ℕ → ℕ

-- payloadTypeRegistry: the value that the constructor of a type makes.
abbrev pub PayloadTypes : Type 0
PayloadTypes = Text → Option ℕ

-- RegisterPayloadType.
unfoldable pub register_payload_type : Text → ℕ → PayloadTypes → PayloadTypes
register_payload_type name value types t = if text_eq name t then some value else types t

-- amqp.Delivery, without its acknowledger.
pub record Envelope : Type 0 where
  pub correlation_id : Text
  pub body : Text

abbrev pub into_typed : Json → ℕ → ℕ → Option Text → ℕ
into_typed json payload typed none = payload
into_typed json payload typed (some b) = json.unmarshal_into b typed

abbrev pub with_constructor : Json → ℕ → Option ℕ → ℕ
with_constructor json payload none = payload
with_constructor json payload (some typed) =
    if json.is_map payload
    then into_typed json payload typed (json.marshal_map payload)
    else payload

-- The payload after the lines that restore its type.
unfoldable pub restore_payload : Json → PayloadTypes → Text → ℕ → ℕ
restore_payload json types t payload =
    if text_eq t [] then payload else with_constructor json payload (types t)

abbrev pub complete : Json → PayloadTypes → Envelope → Result Message → Result Message
complete json types env (err e) = err e
complete json types env (ok m) = ok (record m {
  correlation_id = if text_eq m.correlation_id [] then env.correlation_id else m.correlation_id;
  payload = restore_payload json types m.payload_type m.payload;
})

-- decodeMessage.
unfoldable pub decode_message : Json → PayloadTypes → Envelope → Result Message
unfolding restore_payload
decode_message json types env = complete json types env (json.unmarshal env.body)
