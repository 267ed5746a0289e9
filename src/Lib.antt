-- ===== src/Lib.antt =====
-- The event bus (package eventbus) and its extensions, as a model with proofs.
--
-- The program: a bus hands each published event to the channels whose topic, exact or with wildcards,
-- receives it; receipts say what became of it. Middlewares wrap the dispatch. On top of it stand a
-- pool of workers (ext/pool), and a bridge to RabbitMQ (ext/amqp): a consumer that handles deliveries
-- one by one, a listener that publishes them on the bus, and a publisher that sends events out.
--
-- The parts, and the files for them:
-- - error.go, retry.go: Errors. An error is the tree that errors.New and fmt.Errorf build.
-- - wildcard.go: Wildcard, with path.Match of the standard library in Wildcard/PathMatch, and what it
--   matches in Wildcard/Topics.
-- - event.go: Event, Event/Ids.
-- - delivery.go: Delivery. A receiptCollector is a place in a list of collectors.
-- - EventChan, sendSafe, closeSafe of bus.go: Channel. A channel is a place in a list of channels.
-- - bus.go: Bus/State (the state: Core is what dispatch, handlers and middlewares reach, EventBus in
--   Bus/Chain adds the chain and the tracked subscriptions), Bus/Table (addChannel, removeChannel,
--   Subscribe), Bus/Roster (the tables as a bag of subscriptions, with an abstract bus over it),
--   Bus/Dispatch (dispatch, deliver), Bus/Chain (New, Use, Publish, PublishTopic,
--   PublishReport; middleware.go, and handler.go with WrapTyped in Bus/Chain/Typed), Bus/Lifecycle
--   (SubscribeAsync, Unsubscribe, Close), Bus/Races (dispatch in its steps, with other calls between
--   them), Bus/Async (the goroutines of one SubscribeAsync, its watcher and its Unsubscribe).
-- - ext/pool/pool.go: Pool/Options, Pool/Process (process), Pool/Lifecycle (the forwarder with consume,
--   the workers, Unsubscribe and teardown, as a step relation), Pool/Attached (a pool and its bus as one
--   system).
-- - ext/amqp/consumer.go: Amqp/Consumer (handle), Amqp/Message (eventFromMessage), Amqp/Services (Start
--   and Stop, of Listener too).
-- - ext/amqp/publisher.go: Amqp/Listener (Listener.handle), Amqp/Publisher (the Publisher; its worker
--   and its fallback goroutines are a step relation in Amqp/Publisher/Steps).
-- - ext/amqp/amqpclt: Amqp/Session is what all of it shares, the requests on a channel. publish.go is
--   Amqp/Client (publishWithRetry), Amqp/Client/Messages (Publish, PublishBatch, PublishAsync, and
--   sendToMQ of ext/amqp/publisher.go), Amqp/Client/Opening (NewPublisher, Close); subscribe.go is
--   Amqp/Queues (NewSubscribe, SubscribeRaw), Amqp/Decoding (decodeMessage), Amqp/Pipeline (the
--   goroutine of SubscribeManual with one that takes its deliveries: of a Consumer, of a Listener or of
--   Subscribe, behind the interface Handling); dlx.go is Amqp/DeadLetters.
-- - manager: Manager/Registry (registry.go), Manager/Parts (manager.go).
-- - The waits between attempts, of all three loops: Backoff.
-- Base has what they share: strings.Split, Join and TrimSpace, lists over the native numbers, int and the
-- words of 64 and 32 bits. Examples has runs at fixed inputs.
--
-- How Go is read:
-- - A string is the list of its character codes; texts are ASCII. A payload is a code number, since the
--   code modelled only passes it on. A duration is a number of nanoseconds, in a word of 64 bits where
--   it is computed.
-- - What comes from outside is an argument: the readings of the clock, random numbers, what a handler,
--   a classifier, a recorder or the broker answers, the JSON encoder, and when a context is done.
-- - A pointer to a subscription is the subscription, since none is changed once made; channels and
--   collectors, which are shared and changed, are places in lists.
-- - A handler, and so a middleware, is a function on Core, and may change tables, channels, collectors
--   and its own notes; one that calls Use from within is left out. The number of a handler's concrete
--   type stands beside it, as atomic.Value.Store looks at it.
-- - The operations of the bus that hold its lock are one step each. So is dispatch in Bus/Dispatch; in
--   Bus/Races and in Pool/Attached its lookup is one step, and each send another. Unsubscribe is one
--   step: its wait ends when all workers have seen the cancelled context. Events are not changed once
--   published.
-- - The goroutines of a publisher, of a pool, of an asynchronous subscription and of a subscription to
--   RabbitMQ take turns in any order; each step is what one of them does between two points where it
--   can wait. A select whose cases are ready takes any of them. A call of Publish by the goroutines of a
--   publisher may return, never return, or panic (Reply), since its wait for a confirm has no bound
--   without a timeout, and a nil payload makes it panic.
-- - Code that makes requests of the broker runs in a monad over the log of the requests; the broker may
--   refuse any of them. Whether an error of a request on a channel closes the channel is up to the
--   broker too; that it does, as the client library documents, is the hypothesis ErrorsClose. A second
--   Close is no more than an error. Where an error is put into a text with %v, the text is that of the
--   format alone.
-- - To a registry a pool is its subscription on the bus, which its Unsubscribe takes off; what becomes
--   of its events is in Pool/Lifecycle. Stop, Shutdown and Close of the manager's parts are one step.
-- - Log calls are left out, except that Publisher notes what its log says is dropped.
--
-- Fuel: only the loop of Consumer.handle has no bound of its own. It gets max(MaxRetries, 0) + 1
-- rounds (enough_rounds), and handle_lem shows that a run never needs more. The loops of process and
-- of publishWithRetry have MaxRetries + 1 rounds, as in the source, where that sum wraps at
-- math.MaxInt to a negative number, and so to no round (rounds_upto).
--
-- Not modelled: logging, which is output only; the panic of make for a QueueSize below 0; a registration
-- of a payload type while messages are decoded, which is a data race; handlers that call Use or
-- Unsubscribe from within.
pub mod Base
pub mod Errors
pub mod Wildcard
pub mod Event
pub mod Channel
pub mod Delivery
pub mod Bus
pub mod Backoff
pub mod Pool
pub mod Manager
pub mod Amqp
pub mod Examples
