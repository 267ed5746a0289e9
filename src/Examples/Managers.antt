-- ===== src/Examples/Managers.antt =====
-- A registry with two consumers on a bus, and a service that is started and shut down.
use eventbus.Base.{
  ℕ, ◌+◌, [], ◌∷◌, ◌≡◌, ◌↔◌, refl, true, none, some, Text, codes, length, ltb, if◌then◌else◌,
}
use eventbus.Base.Order.{pos}
use eventbus.Bus.Table.Counts.{count_if, on_channel}
use eventbus.Bus.Dispatch.Targets.{targets}
use eventbus.Amqp.Services.{new_service}
use eventbus.Amqp.Publisher
use eventbus.Manager.Registry.{Registry, ConsumerConfig, start_all, shutdown}
use eventbus.Manager.Registry.Topics.{is_error, interested, start_all_lem}
use eventbus.Manager.Registry.RoundTrip.{shutdown-start_all}
use eventbus.Manager.Parts.{
  Manager, returned, panicked, start, shut_down, stops_badly, IsDown, shut_down_lem,
}
use eventbus.Examples.Deliveries.{shop, shop-BusInv}

abbrev consumer : Text → ConsumerConfig
consumer topic = record { topic = topic; handler = 1; worker_num = pos 2; pool_opts = [] }

abbrev registry : Registry
registry = record {
  configs = consumer (codes "order.*") ∷ consumer (codes "order.created") ∷ [];
  subs = [];
}

start_all_lem_example :
    let (r', w', err) = start_all registry shop.core in
    (is_error err ≡ ltb 0 (length registry.subs))
    × (count_if (λ s. true) (targets w' (codes "order.created"))
        ≡ count_if (λ s. true) (targets shop.core (codes "order.created"))
          + (if ltb 0 (length registry.subs)
              then 0
              else interested (codes "order.created") registry.configs))
start_all_lem_example =
    start_all_lem registry shop.core (codes "order.created") shop-BusInv.core_inv

shutdown-start_all_example :
    let (r', w', err) = start_all registry shop.core in
    (err ≡ none)
    × ((shutdown r' w').0 ≡ registry)
    × ((t : Text) (c : ℕ)
        → count_if (on_channel c) (targets (shutdown r' w').1 t)
          ≡ count_if (on_channel c) (targets shop.core t))
shutdown-start_all_example = shutdown-start_all registry shop.core shop-BusInv.core_inv refl

abbrev service : Manager
service = record {
  bus = some shop;
  listener = some new_service;
  publisher = some (Publisher.new_publisher true);
  registry = some registry;
}

shut_down_lem_example :
    (((shut_down service).1 ≡ panicked) ↔ (stops_badly service.listener ≡ true))
    × ((shut_down (start service).0).1 ≡ returned none)
    × IsDown (shut_down (start service).0).0
shut_down_lem_example = shut_down_lem service
