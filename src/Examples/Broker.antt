-- ===== src/Examples/Broker.antt =====
-- Requests to a broker that refuses a binding, or a consumption.
use eventbus.Base.{List, [], ◌∷◌, ◌≡◌, refl, true, false, Option, none, some, codes, text_eq}
use eventbus.Base.Trim.{trim_space}
use eventbus.Base.Order.{pos}
use eventbus.Errors.{Error, plain}
use eventbus.Amqp.Session
use eventbus.Amqp.Session.{Request, Entry, Server, Result, ok, err, open_after}
use eventbus.Amqp.Session.Plans.{Stands}
use eventbus.Amqp.Session.Openings.{opened}
use eventbus.Amqp.Queues.{Subscribe, is_blank, full_queue_name, subscribe_raw, clean_up}
use eventbus.Amqp.Queues.Raw.{raw_plan, error_of, subscribe_raw_lem}
use eventbus.Amqp.Queues.Channels.{clean_up-subscribe_raw}
use eventbus.Amqp.Client.{with_max_retries}
use eventbus.Amqp.Client.Opening.{new_publisher, close_publish, made, close_publish-new_publisher}
use eventbus.Amqp.Services.Channels.{service_log, open_after-service_log}

abbrev access_refused : Error
access_refused = plain (codes "ACCESS_REFUSED")

abbrev refuse_bind : List Entry → Request → Option Error
refuse_bind log (Session.queue_bind q k e n) = some access_refused
refuse_bind log _ = none

abbrev refuse_confirm : List Entry → Request → Option Error
refuse_confirm log (Session.confirm n) = some access_refused
refuse_confirm log _ = none

abbrev strict : Server
strict = record { refuses = refuse_bind; queue_name = λ n. n; closes = λ r. true }

abbrev old_broker : Server
old_broker = record { refuses = refuse_confirm; queue_name = λ n. n; closes = λ r. true }

abbrev orders : Subscribe
orders = record {
  exchange = codes "events";
  queue = codes "orders";
  queue_prefix = codes "prod";
  qos = pos 3;
  dlx = codes "events.dlx";
}

orders_named : is_blank orders.queue ≡ false
unfolding trim_space text_eq
orders_named = refl

full_name : full_queue_name orders ≡ codes "prod_orders"
unfolding full_queue_name trim_space text_eq
full_name = refl

subscribe_raw_lem_example :
    Stands strict
      (raw_plan orders (full_queue_name orders))
      []
      (error_of (subscribe_raw strict orders []).1, (subscribe_raw strict orders []).2)
subscribe_raw_lem_example = subscribe_raw_lem strict orders [] (λ n h. refl) orders_named

clean_up-subscribe_raw_example :
    (open_after strict
        (clean_up strict (subscribe_raw strict orders []).0 (subscribe_raw strict orders []).2)
        2
      ≡ open_after strict [] 2)
    × (open_after strict (subscribe_raw strict orders []).2 2
        ≡ opened (subscribe_raw strict orders []).1 (open_after strict [] 2))
clean_up-subscribe_raw_example = clean_up-subscribe_raw strict orders [] 2 (λ r h. refl)

close_publish-new_publisher_example :
    let os = with_max_retries (pos 5) ∷ [] in
    (open_after old_broker (new_publisher old_broker (codes "events") os []).1 0
      ≡ opened (new_publisher old_broker (codes "events") os []).0 (open_after old_broker [] 0))
    × (open_after old_broker
          (close_publish old_broker
            (made (new_publisher old_broker (codes "events") os []).0)
            (new_publisher old_broker (codes "events") os []).1)
          0
        ≡ open_after old_broker [] 0)
close_publish-new_publisher_example =
    close_publish-new_publisher old_broker (codes "events") (with_max_retries (pos 5) ∷ []) [] 0

open_after-service_log_example :
    open_after strict (service_log strict orders []) 0 ≡ open_after strict [] 0
open_after-service_log_example = open_after-service_log strict orders [] 0 (λ r h. refl)

-- Without a refusal the channel is open until the clean-up.
abbrev granting : Server
granting = record { refuses = λ log r. none; queue_name = λ n. n; closes = λ r. true }

held_open : open_after granting (subscribe_raw granting orders []).2 0 ≡ 1
unfolding subscribe_raw clean_up open_after full_queue_name trim_space text_eq
held_open = refl
