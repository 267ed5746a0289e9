-- ===== src/Manager/Registry/Releases.antt =====
-- What the Unsubscribe of pools takes off a bus.
use eventbus.Base.{
  ℕ, ◌<◌, List, [], ◌∷◌, ◌≡◌, refl, Bool, false, ◌||◌, Text, arith, All, ◌==◌, if◌then◌else◌,
}
use eventbus.Bus.State.{Core}
use eventbus.Bus.Table.Counts.{count_if, on_channel}
use eventbus.Bus.Dispatch.Targets.{targets}
use eventbus.Bus.Dispatch.Targets.Removal.{targets-remove_channel}
use eventbus.Bus.Dispatch.Targets.Topics.{holds, holds-remove_channel, count_if-subs_at}
use eventbus.Bus.Lifecycle.Invariant.{CoreInv, remove_channel-CoreInv, close_safe-CoreInv}
use eventbus.Manager.Registry.{PoolSub, release_pool, release_pools}

abbrev pub Present : Core → PoolSub → Type 0
Present w s = 0 < holds s.topic s.ch w

abbrev pub among : ℕ → List PoolSub → Bool
among c [] = false
among c (s ∷ subs) = c == s.ch || among c subs

-- No channel stands twice.
abbrev pub Distinct : List PoolSub → Type 0
Distinct [] = Unit {0}
Distinct (s ∷ subs) = (among s.ch subs ≡ false) × Distinct subs

release_pool-CoreInv : (s : PoolSub) (w : Core) → CoreInv w → CoreInv (release_pool s w)
unfolding release_pool
release_pool-CoreInv s w v = close_safe-CoreInv s.ch _ (remove_channel-CoreInv s.topic s.ch w v)

-- A release leaves the subscriptions of the other pools.
Present-release_pool :
    (s : PoolSub) (w : Core) (subs : List PoolSub)
    → CoreInv w
    → Present w s
    → among s.ch subs ≡ false
    → All (Present w) subs
    → All (Present (release_pool s w)) subs
unfolding release_pool
Present-release_pool s w [] v there apart h = tt
Present-release_pool s w (r ∷ subs) v there apart h = (
  omega (arith, holds-remove_channel s.topic s.ch w v.valid there r.topic r.ch (ground arith), h.0),
  Present-release_pool s w subs v there (ground arith) h.1,
)

targets-release_pool :
    (s : PoolSub) (w : Core)
    → CoreInv w
    → Present w s
    → (t : Text) (c : ℕ)
    → count_if (on_channel c) (targets (release_pool s w) t)
      ≡ (if c == s.ch then 0 else count_if (on_channel c) (targets w t))
unfolding release_pool
targets-release_pool s w v there t c =
    targets-remove_channel s.topic s.ch w v.valid v.one
      (omega (arith, count_if-subs_at (on_channel s.ch) s.topic w v.valid)) t c

pub targets-release_pools :
    (subs : List PoolSub) (w : Core)
    → CoreInv w
    → All (Present w) subs
    → Distinct subs
    → (t : Text) (c : ℕ)
    → count_if (on_channel c) (targets (release_pools subs w) t)
      ≡ (if among c subs then 0 else count_if (on_channel c) (targets w t))
unfolding release_pools
targets-release_pools [] w v there d t c = refl
targets-release_pools (s ∷ subs) w v there d t c = ground (
  arith,
  targets-release_pools subs (release_pool s w) (release_pool-CoreInv s w v)
      (Present-release_pool s w subs v there.0 d.0 there.1) d.1 t c,
  targets-release_pool s w v there.0 t c,
)
