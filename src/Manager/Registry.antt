-- ===== src/Manager/Registry.antt =====
-- manager/registry.go: consumers that are started and stopped together. Of a bus, a pool touches what
-- Core has; of a pool, the bus sees its channel, which its Unsubscribe removes and closes once the
-- workers are gone.
pub mod Topics
pub mod Releases
pub mod Starts
pub mod RoundTrip
use eventbus.Base.{
  ℕ, List, [], ◌∷◌, ◌++◌, Bool, Option, none, some, Text, codes, length, ltb, if◌then◌else◌,
}
use eventbus.Base.Order.{ℤ}
use eventbus.Errors.{Error, plain}
use eventbus.Channel.{close_safe}
use eventbus.Pool.Options.{PoolOption}
use eventbus.Bus.State.{Core}
use eventbus.Bus.Table.{subscribe, remove_channel}

-- ConsumerConfig; the handler is a number.
pub record ConsumerConfig : Type 0 where
  pub topic : Text
  pub handler : ℕ
  pub worker_num : ℤ
  pub pool_opts : List PoolOption

-- A poolSub, as the bus sees it.
pub record PoolSub : Type 0 where
  pub topic : Text
  pub ch : ℕ

-- Registry.
pub record Registry : Type 0 where
  pub configs : List ConsumerConfig
  pub subs : List PoolSub

-- NewRegistry.
abbrev pub new_registry : Registry
new_registry = record { configs = []; subs = [] }

-- Register.
unfoldable pub register : Text → ℕ → ℤ → List PoolOption → Registry → Registry
register topic handler worker_num opts r = record r {
  configs =
      r.configs
      ++ record { topic = topic; handler = handler; worker_num = worker_num; pool_opts = opts }
        ∷ [];
}

abbrev pub already_started : Error
already_started = plain (codes "manager: registry already started")

-- The loop of StartAll: SubscribeWithPool for each consumer.
unfoldable pub start_pools : List ConsumerConfig → Core → Core × List PoolSub
start_pools [] w = (w, [])
start_pools (cfg ∷ cfgs) w =
    let (w', ch) = subscribe cfg.topic w in
    let (w'', subs) = start_pools cfgs w' in (w'', record { topic = cfg.topic; ch = ch } ∷ subs)

-- StartAll.
unfoldable pub start_all : Registry → Core → Registry × Core × Option Error
unfolding start_pools
start_all r w =
    if ltb 0 (length r.subs)
    then (r, w, some already_started)
    else let (w', subs) = start_pools r.configs w in (record r { subs = r.subs ++ subs }, w', none)

-- Unsubscribe of a poolSub, when its wait is over.
unfoldable pub release_pool : PoolSub → Core → Core
release_pool sub w =
    let w' = remove_channel sub.topic sub.ch w in
    record w' { channels = close_safe sub.ch w'.channels }

unfoldable pub release_pools : List PoolSub → Core → Core
unfolding release_pool
release_pools [] w = w
release_pools (sub ∷ subs) w = release_pools subs (release_pool sub w)

-- Shutdown; it returns nil always.
unfoldable pub shutdown : Registry → Core → Registry × Core
unfolding release_pools
shutdown r w = (record r { subs = [] }, release_pools r.subs w)
