-- ===== src/Amqp.antt =====
-- ext/amqp and its amqpclt: the bridge between RabbitMQ and the bus. The broker and the client library
-- are not modelled: what their calls return is an argument.
pub mod Message
pub mod Session
pub mod Queues
pub mod DeadLetters
pub mod Decoding
pub mod Client
pub mod Pipeline
pub mod Services
pub mod Consumer
pub mod Listener
pub mod Publisher
