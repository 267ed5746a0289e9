-- ===== src/Manager/Parts.antt =====
-- manager/manager.go: the parts of a service started and shut down in order. Every part may be left
-- out. The waits are those of the parts: each Stop, Shutdown and Close is one step.
use eventbus.Base.{
  List, [], ◌≡◌, refl, ap, ◌∙◌, ◌↔◌, inl, inr, Bool, true, false, not, Option, none, some, Text,
  arith, if◌then◌else◌, ltb, length, Bool-cases,
}
use eventbus.Errors.{Error}
use eventbus.Bus.State.{Core, Subscription}
use eventbus.Bus.Chain.{EventBus}
use eventbus.Bus.Lifecycle.{close}
use eventbus.Bus.Lifecycle.Close.{close_lem}
use eventbus.Bus.Dispatch.Targets.{targets}
use eventbus.Amqp.Services.{Service, start_listener, stop_listener}
use eventbus.Amqp.Publisher.{Publisher, close_publisher}
use eventbus.Manager.Registry.{Registry, PoolSub, start_all, release_pools, already_started}

-- Manager.
pub record Manager : Type 0 where
  pub bus : Option EventBus
  pub listener : Option Service
  pub publisher : Option Publisher
  pub registry : Option Registry

-- A call that returns, with its error, or one that panics.
pub data Ended : Type 0 where
  returned : Option Error → Ended
  panicked : Ended

abbrev pub map_part {ℓ} : {A : Type ℓ} → (A → A) → Option A → Option A
map_part f none = none
map_part f (some a) = some (f a)

abbrev with_started : Manager → EventBus → Registry × Core × Option Error → Manager × Ended
with_started m eb (r, w, err) =
    (record m { bus = some (record eb { core = w }); registry = some r }, returned err)

-- StartAll with the manager's bus; a pool cannot subscribe on a nil one.
abbrev pub start_registry : Manager → Option Registry → Option EventBus → Manager × Ended
start_registry m none bus = (m, returned none)
start_registry m (some r) (some eb) = with_started m eb (start_all r eb.core)
start_registry m (some r) none =
    if ltb 0 (length r.subs)
    then (m, returned (some already_started))
    else (m, if ltb 0 (length r.configs) then panicked else returned none)

-- Start; Listener.Start returns nil always.
unfoldable pub start : Manager → Manager × Ended
unfolding start_listener
start m =
    start_registry (record m { listener = map_part start_listener m.listener }) m.registry m.bus

-- Listener.Stop would call a nil function.
abbrev pub stops_badly : Option Service → Bool
stops_badly none = false
stops_badly (some l) = not l.has_cancel

-- Registry.Shutdown, on the manager's bus; without one it has no subscriptions.
abbrev pub release_on : Option Registry → Option EventBus → Option EventBus
release_on none bus = bus
release_on (some r) none = none
release_on (some r) (some eb) = some (record eb { core = release_pools r.subs eb.core })

abbrev pub without_subs : Registry → Registry
without_subs r = record r { subs = [] }

-- Shutdown: the listener, the registry, the publisher, the bus. Their errors are joined; there are
-- none, since each returns nil.
unfoldable pub shut_down : Manager → Manager × Ended
unfolding stop_listener release_pools close_publisher close
shut_down m =
    let stopped = record m { listener = map_part stop_listener m.listener } in
    if stops_badly m.listener then (stopped, panicked) else (
      record stopped {
        registry = map_part without_subs m.registry;
        publisher = map_part close_publisher m.publisher;
        bus = map_part close (release_on m.registry m.bus);
      },
      returned none,
    )

abbrev pub no_targets : Option EventBus → Text → List Subscription
no_targets none t = []
no_targets (some eb) t = targets eb.core t

abbrev pub is_stopped : Option Service → Bool
is_stopped none = true
is_stopped (some l) = l.canceled

abbrev pub is_shut : Option Publisher → Bool
is_shut none = true
is_shut (some p) = p.closed

abbrev pub subs_left : Option Registry → List PoolSub
subs_left none = []
subs_left (some r) = r.subs

-- What a manager is like after Shutdown.
abbrev pub IsDown : Manager → Type 0
IsDown m =
    (is_stopped m.listener ≡ true)
    × (is_shut m.publisher ≡ true)
    × (subs_left m.registry ≡ [])
    × ((t : Text) → no_targets m.bus t ≡ [])

stopped_part :
    (l : Option Service) → stops_badly l ≡ false → is_stopped (map_part stop_listener l) ≡ true
unfolding stop_listener
stopped_part none h = refl
stopped_part (some l) h = ground arith

shut_part : (p : Option Publisher) → is_shut (map_part close_publisher p) ≡ true
unfolding close_publisher
shut_part none = refl
shut_part (some p) = refl

no_subs : (r : Option Registry) → subs_left (map_part without_subs r) ≡ []
no_subs none = refl
no_subs (some r) = refl

closed_part : (bus : Option EventBus) (t : Text) → no_targets (map_part close bus) t ≡ []
closed_part none t = refl
closed_part (some eb) t = (close_lem eb).2 t

shut_down-IsDown :
    (m : Manager)
    → stops_badly m.listener ≡ false
    → ((shut_down m).1 ≡ returned none) × IsDown (shut_down m).0
unfolding shut_down
shut_down-IsDown m h = rw h (
  refl,
  (
    stopped_part m.listener h,
    shut_part m.publisher,
    no_subs m.registry,
    closed_part (release_on m.registry m.bus),
  ),
)

shut_down-panics : (m : Manager) → stops_badly m.listener ≡ true → (shut_down m).1 ≡ panicked
unfolding shut_down
shut_down-panics m h = rw h

shut_down-badly : (m : Manager) → (shut_down m).1 ≡ panicked → stops_badly m.listener ≡ true
shut_down-badly m h = elim (Bool-cases (stops_badly m.listener)) [
  | inl bad ↦ bad
  | inr good ↦ let (nil, down) = shut_down-IsDown m good in cc
]

start-listener :
    (m : Manager) (r : Option Registry) (bus : Option EventBus)
    → (start_registry m r bus).0.listener ≡ m.listener
start-listener m none bus = refl
start-listener m (some r) (some eb) = refl
start-listener m (some r) none = ground arith

started_part : (l : Option Service) → stops_badly (map_part start_listener l) ≡ false
unfolding start_listener
started_part none = refl
started_part (some l) = refl

-- Shutdown panics exactly for a manager whose listener was never started. After Start, whatever it
-- came to, Shutdown returns nil, and then the listener's context is cancelled, the publisher is closed,
-- the registry has no subscriptions, and the bus has nobody to send an event to, of any topic.
pub shut_down_lem :
    (m : Manager)
    → (((shut_down m).1 ≡ panicked) ↔ (stops_badly m.listener ≡ true))
      × ((shut_down (start m).0).1 ≡ returned none)
      × IsDown (shut_down (start m).0).0
unfolding start
shut_down_lem m =
    let m' = record m { listener = map_part start_listener m.listener } in
    let fine : stops_badly (start m).0.listener ≡ false =
      ap stops_badly (start-listener m' m.registry m.bus) ∙ started_part m.listener in
    let (nil, down) = shut_down-IsDown (start m).0 fine in
    ((shut_down-badly m, shut_down-panics m), nil, down)
