-- ===== src/Amqp/Queues.antt =====
-- ext/amqp/amqpclt/subscribe.go: the subscriber's options, and the requests by which it gets the
-- deliveries of its queue.
pub mod Raw
pub mod Channels
use eventbus.Base.{
  ℕ, List, [], ◌∷◌, ◌++◌, Bool, true, false, Option, none, some, Text, codes, text_eq,
  if◌then◌else◌,
}
use eventbus.Base.Trim.{trim_space}
use eventbus.Base.Order.{ℤ, pos, negsuc}
use eventbus.Errors.{Error, plain}
use eventbus.Amqp.Session
use eventbus.Amqp.Session.{
  Request, Entry, Server, Result, ok, err, Session, ◌>>=◌, ◌>>◌, return, request, close_channel_now,
}

-- Subscribe, without the connection.
pub record Subscribe : Type 0 where
  pub exchange : Text
  pub queue : Text
  pub queue_prefix : Text
  pub qos : ℤ
  pub dlx : Text

-- SubscribeOption.
pub data SubscribeOption : Type 0 where
  with_queue_name with_queue_prefix with_dead_letter_exchange : Text → SubscribeOption
  with_qos : ℤ → SubscribeOption

unfoldable pub apply_option : SubscribeOption → Subscribe → Subscribe
apply_option (with_queue_name name) s = record s { queue = trim_space name }
apply_option (with_queue_prefix prefix) s = record s { queue_prefix = trim_space prefix }
apply_option (with_dead_letter_exchange dlx) s = record s { dlx = dlx }
apply_option (with_qos prefetch) s = record s { qos = prefetch }

unfoldable pub apply_options : List SubscribeOption → Subscribe → Subscribe
unfolding apply_option
apply_options [] s = s
apply_options (o ∷ os) s = apply_options os (apply_option o s)

abbrev pub is_blank : Text → Bool
is_blank t = text_eq (trim_space t) []

abbrev pub below_zero : ℤ → Bool
below_zero (pos n) = false
below_zero (negsuc n) = true

abbrev pub no_queue_name : Error
no_queue_name = plain (codes "queue name is required: use WithQueueName")

-- The checks at the end of NewSubscribe.
abbrev pub check_subscribe : Subscribe → Result Subscribe
check_subscribe s =
    if is_blank s.queue
    then err no_queue_name
    else if below_zero s.qos
    then err (plain (codes "qos must be >= 0"))
    else ok s

-- NewSubscribe.
unfoldable pub new_subscribe : Text → List SubscribeOption → Result Subscribe
unfolding apply_options
new_subscribe exchange os = check_subscribe (
    apply_options os
      (record { exchange = exchange; queue = []; queue_prefix = []; qos = pos 3; dlx = [] }))

-- fullQueueName.
unfoldable pub full_queue_name : Subscribe → Text
full_queue_name s =
    if text_eq (trim_space s.queue_prefix) []
    then trim_space s.queue
    else trim_space s.queue_prefix ++ codes "_" ++ trim_space s.queue

-- The function that is returned for the clean-up.
pub data CleanUp : Type 0 where
  does_nothing closes_channel : CleanUp

unfoldable pub clean_up : Server → CleanUp → List Entry → List Entry
unfolding close_channel_now
clean_up server does_nothing log = log
clean_up server closes_channel log = close_channel_now server log

-- fmt.Errorf with %v: what is wrapped is only text in it.
abbrev pub cannot : Text → Error → Error
cannot what cause = plain (codes "cannot " ++ what)

abbrev pub with_clean_up : Result Text × List Entry → CleanUp × Result Text × List Entry
with_clean_up (r, log) = (closes_channel, r, log)

abbrev pub exchange_request : Text → Request
exchange_request exchange =
    Request.exchange_declare exchange (codes "fanout") true false false false

module _ (server : Server) where
  -- declareExchange: a durable fanout exchange.
  unfoldable pub declare_exchange : Text → (Error → Error) → Session (Unit {0})
  unfolding request
  declare_exchange exchange explain = request server (exchange_request exchange) explain

  -- QueueDeclare for a durable queue: the name that the broker gives it.
  unfoldable pub declare_queue : Text → Option Text → (Error → Error) → Session Text
  unfolding request
  declare_queue name dlx explain = do
    request server (Request.queue_declare name true false false false dlx) explain
    return (server.queue_name name)

  -- The dead letter exchange of SubscribeRaw: the argument of the queue.
  unfoldable pub declare_dead_letters : Text → Session (Option Text)
  unfolding declare_exchange
  declare_dead_letters dlx =
      if text_eq dlx []
      then return none
      else do declare_exchange dlx (cannot (codes "declare DLX")); return (some dlx)

  -- SubscribeRaw once it has a channel: the queue whose deliveries come in.
  unfoldable pub set_up : Subscribe → Session Text
  unfolding request declare_exchange declare_queue declare_dead_letters
  set_up s = do
    request server (Request.qos s.qos (pos 0) false) (cannot (codes "set qos"))
    declare_exchange s.exchange (cannot (codes "declare exchange"))
    dlx ← declare_dead_letters s.dlx
    q ← declare_queue (full_queue_name s) dlx (cannot (codes "declare queue"))
    request server (Request.queue_bind q [] s.exchange false) (cannot (codes "bind"))
    request server (Request.consume q [] false false false false) (cannot (codes "consume queue"))
    return q

  abbrev pub after_opening :
      Subscribe → Result (Unit {0}) × List Entry → CleanUp × Result Text × List Entry
  after_opening s (ok _, log) = with_clean_up (set_up s log)
  after_opening s (err e, log) = (does_nothing, err e, log)

  -- SubscribeRaw.
  unfoldable pub subscribe_raw : Subscribe → List Entry → CleanUp × Result Text × List Entry
  unfolding request set_up
  subscribe_raw s log =
      if is_blank s.queue
      then (does_nothing, err no_queue_name, log)
      else after_opening s
          (request server Request.open_channel (cannot (codes "allocate channel")) log)
