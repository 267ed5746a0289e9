-- ===== src/Manager/Registry/Starts.antt =====
-- What StartAll puts on a bus: a new channel for each pool.
use eventbus.Base.{
  ℕ, ◌+◌, ◌≤◌, ◌<◌, List, [], ◌∷◌, ◌≡◌, refl, ap, ◌∙◌, true, false, ◌&&◌, Text, text_eq,
  text_eq_refl, arith, All, length, ◌==◌,
}
use eventbus.Channel.{Channel, make}
use eventbus.Channel.Bounds.{length-make}
use eventbus.Bus.State.{Core}
use eventbus.Bus.Table.{subscribe, channel_size, next_channel, new_subscription}
use eventbus.Bus.Table.Counts.{one_if, count_if, on_channel, count_all-add_channel, count_all-le}
use eventbus.Bus.Dispatch.Targets.{targets, receives, targets-add_channel, count_if-targets}
use eventbus.Bus.Dispatch.Targets.Topics.{holds}
use eventbus.Bus.Lifecycle.Invariant.{CoreInv, subscribe-CoreInv, channels-add_channel}
use eventbus.Manager.Registry.{ConsumerConfig, PoolSub, start_pools}
use eventbus.Manager.Registry.Releases.{Present, among, Distinct}

module _ (topic : Text) (w : Core) where
  length-subscribe : length (subscribe topic w).0.channels ≡ length w.channels + 1
  unfolding subscribe
  length-subscribe =
      ap (length {A = Channel}) (
        channels-add_channel topic (next_channel w)
          (record w { channels = make channel_size w.channels }))
      ∙ length-make channel_size w.channels

  holds-subscribe :
      (t : Text) (c : ℕ)
      → holds t c (subscribe topic w).0
        ≡ holds t c w + one_if ((next_channel w == c) && text_eq topic t)
  unfolding subscribe new_subscription
  holds-subscribe t c =
      count_all-add_channel (λ s. on_channel c s && text_eq s.topic t) topic (next_channel w)
        (record w { channels = make channel_size w.channels })

  targets-subscribe_other :
      (t : Text) (c : ℕ)
      → CoreInv w
      → (next_channel w == c) ≡ false
      → count_if (on_channel c) (targets (subscribe topic w).0 t)
        ≡ count_if (on_channel c) (targets w t)
  unfolding subscribe new_subscription
  targets-subscribe_other t c v ne =
      targets-add_channel (on_channel c) topic t (next_channel w)
        (record w { channels = make channel_size w.channels })
        (record {
          exact = v.valid.exact;
          keys = v.valid.keys;
          wild = v.valid.wild;
          patterns = v.valid.patterns;
        })
      ∙ rw ne (omega arith)

  -- The new subscription is there.
  subscribe-holds : 0 < holds topic (next_channel w) (subscribe topic w).0
  subscribe-holds =
      let one : ((next_channel w == next_channel w) && text_eq topic topic) ≡ true =
        ground (arith, text_eq_refl topic) in
      omega (arith, holds-subscribe topic (next_channel w), ap one_if one)

holds-start_pools :
    (t : Text) (c : ℕ) (cfgs : List ConsumerConfig) (w : Core)
    → holds t c w ≤ holds t c (start_pools cfgs w).0
unfolding start_pools
holds-start_pools t c [] w = omega arith
holds-start_pools t c (cfg ∷ cfgs) w =
    omega
      (arith, holds-start_pools t c cfgs (subscribe cfg.topic w).0, holds-subscribe cfg.topic w t c)

-- The channels of the pools are new, each is on the bus for its topic, and none stands twice.
pub start_pools-fresh :
    (n : ℕ) (cfgs : List ConsumerConfig) (w : Core)
    → n ≤ length w.channels
    → All (λ (s : PoolSub). n ≤ s.ch) (start_pools cfgs w).1
unfolding start_pools subscribe
start_pools-fresh n [] w h = tt
start_pools-fresh n (cfg ∷ cfgs) w h = (
  h,
  start_pools-fresh n cfgs (subscribe cfg.topic w).0 (omega (arith, length-subscribe cfg.topic w)),
)

pub start_pools-Present :
    (cfgs : List ConsumerConfig) (w : Core)
    → All (Present (start_pools cfgs w).0) (start_pools cfgs w).1
unfolding start_pools subscribe
start_pools-Present [] w = tt
start_pools-Present (cfg ∷ cfgs) w = (
  omega (
    arith,
    subscribe-holds cfg.topic w,
    holds-start_pools cfg.topic (next_channel w) cfgs (subscribe cfg.topic w).0,
  ),
  start_pools-Present cfgs (subscribe cfg.topic w).0,
)

fresh-among :
    (n c : ℕ) (subs : List PoolSub)
    → All (λ (s : PoolSub). n ≤ s.ch) subs
    → c < n
    → among c subs ≡ false
fresh-among n c [] h lt = refl
fresh-among n c (s ∷ subs) h lt = ground (arith, fresh-among n c subs h.1 lt)

pub start_pools-Distinct : (cfgs : List ConsumerConfig) (w : Core) → Distinct (start_pools cfgs w).1
unfolding start_pools subscribe
start_pools-Distinct [] w = tt
start_pools-Distinct (cfg ∷ cfgs) w =
    let w' = (subscribe cfg.topic w).0 in
    (
      fresh-among (next_channel w + 1) (next_channel w) (start_pools cfgs w').1
          (start_pools-fresh (next_channel w + 1) cfgs w'
            (omega (arith, length-subscribe cfg.topic w)))
          (omega arith),
      start_pools-Distinct cfgs w',
    )

-- A channel that none of the new pools has gets what it got before.
pub targets-start_pools_other :
    (t : Text) (c : ℕ) (cfgs : List ConsumerConfig) (w : Core)
    → CoreInv w
    → among c (start_pools cfgs w).1 ≡ false
    → count_if (on_channel c) (targets (start_pools cfgs w).0 t)
      ≡ count_if (on_channel c) (targets w t)
unfolding start_pools subscribe
targets-start_pools_other t c [] w v apart = refl
targets-start_pools_other t c (cfg ∷ cfgs) w v apart =
    targets-start_pools_other t c cfgs (subscribe cfg.topic w).0 (subscribe-CoreInv cfg.topic w v)
      (ground arith)
    ∙ targets-subscribe_other cfg.topic w t c v (ground arith)

-- A channel that is not made yet gets nothing.
pub targets-unknown :
    (t : Text) (c : ℕ) (w : Core)
    → CoreInv w
    → length w.channels ≤ c
    → count_if (on_channel c) (targets w t) ≡ 0
targets-unknown t c w v h = omega (
  arith,
  count_if-targets (on_channel c) t w v.valid,
  count_all-le (on_channel c) (λ s. receives s.topic t) w,
  v.known c h,
)
