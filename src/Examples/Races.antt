-- ===== src/Examples/Races.antt =====
-- A channel is closed between the two halves of a dispatch.
use eventbus.Base.{[], ◌∷◌, ◌≡◌, refl, true, none, codes, text_eq, get_elem?, All}
use eventbus.Event.{Event}
use eventbus.Bus.State.{Subscription, Core, empty_core}
use eventbus.Bus.Dispatch.{deliver}
use eventbus.Bus.Races.{
  Flight, Crowd, looks_up, subscribes, sends, with_channels, Steps, done, next,
}
use eventbus.Bus.Races.Closed.{HoldsEnd, Steps-HoldsEnd}
use eventbus.Bus.Table.{subscribe, add_channel, new_subscription, subs_of, put_subs}
use eventbus.Bus.Dispatch.{wildcard_hits}
use eventbus.Bus.Dispatch.Targets.{targets, receives}
use eventbus.Bus.Races.Matching.{queue_of}
use eventbus.Bus.Races.Matching.Reached.{new_crowd, races_lem}
use eventbus.Wildcard.{is_wildcard_pattern}
use eventbus.Examples.Deliveries.{background, order, ticks}

abbrev reader : Subscription
reader = record { id = codes "sub-1"; topic = codes "order.created"; ch = 0 }

-- A closed channel that still holds an event, and a call of dispatch that is about to send to it.
abbrev shut : Core
shut =
    with_channels (record { capacity = 64; queue = order ∷ []; closed = true } ∷ [])
      (empty_core ticks)

abbrev flight : Flight
flight = record { collector = none; event = order; left = reader ∷ [] }

abbrev late : Crowd
late = record { core = shut; flights = flight ∷ []; topics = codes "order.created" ∷ [] }

abbrev later : Crowd
later = record late {
  core = deliver none reader order shut;
  flights = record flight { left = [] } ∷ [];
}

sent : Steps late later
sent = next (sends [] flight reader [] [] late refl refl) done

Steps-HoldsEnd_example : HoldsEnd (order ∷ []) 0 later.core.channels
Steps-HoldsEnd_example =
    Steps-HoldsEnd (order ∷ []) 0 sent
      (record { capacity = 64; queue = order ∷ []; closed = true }, [], refl, refl, refl)

abbrev first : Crowd
first = new_crowd ticks

abbrev second : Crowd
second = record first {
  core = (subscribe (codes "order.created") (empty_core ticks)).0;
  topics = codes "order.created" ∷ [];
}

abbrev created : Event
created = record {
  id = codes "1";
  topic = codes "order.created";
  payload = 42;
  source = codes "local";
  timestamp = 9;
}

abbrev subscriber : Subscription
subscriber = new_subscription 1 (codes "order.created") 0

abbrev third : Crowd
third = record second {
  flights =
      record {
        collector = none;
        event = created;
        left = targets second.core (codes "order.created");
      }
      ∷ [];
}

abbrev fourth : Crowd
fourth = record third {
  core = deliver none subscriber created second.core;
  flights = record { collector = none; event = created; left = [] } ∷ [];
}

one_target : targets second.core (codes "order.created") ≡ subscriber ∷ []
unfolding subscribe add_channel subs_of put_subs wildcard_hits is_wildcard_pattern text_eq
one_target = refl

-- One Subscribe, and a dispatch with its one send.
race : Steps first fourth
race = next (subscribes (codes "order.created") first) (
    next (looks_up background created second)
      (next (sends [] _ subscriber [] [] third refl one_target) done))

races_lem_example :
    All
      (λ (e : Event). receives (codes "order.created") e.topic ≡ true)
      (queue_of (get_elem? fourth.core.channels 0))
races_lem_example = races_lem ticks 0 (codes "order.created") race refl
