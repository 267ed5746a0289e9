-- ===== src/Manager/Registry/Topics.antt =====
-- Whom a bus reaches once a registry has started its consumers.
use mathlib.Core.Path.{subst}
use eventbus.Base.{
  ℕ, ◌+◌, List, [], ◌∷◌, ◌≡◌, refl, sym, ap, inl, inr, Bool, true, false, Text, arith,
  if◌then◌else◌, length, ltb, Option, none, some, Bool-cases,
}
use eventbus.Errors.{Error}
use eventbus.Channel.{make}
use eventbus.Bus.State.{Subscription, Core}
use eventbus.Bus.Table.{subscribe, channel_size, next_channel}
use eventbus.Bus.Table.Counts.{one_if, count_if}
use eventbus.Bus.Dispatch.Targets.{targets, receives, targets-add_channel}
use eventbus.Bus.Lifecycle.Invariant.{CoreInv, subscribe-CoreInv}
use eventbus.Manager.Registry.{ConsumerConfig, PoolSub, Registry, start_pools, start_all}

abbrev everyone : Subscription → Bool
everyone s = true

-- The consumers whose topic receives the event's.
pub interested : Text → List ConsumerConfig → ℕ
interested t [] = 0
interested t (cfg ∷ cfgs) = one_if (receives cfg.topic t) + interested t cfgs

pub start_pools-CoreInv :
    (cfgs : List ConsumerConfig) (w : Core) → CoreInv w → CoreInv (start_pools cfgs w).0
unfolding start_pools
start_pools-CoreInv [] w v = v
start_pools-CoreInv (cfg ∷ cfgs) w v =
    start_pools-CoreInv cfgs (subscribe cfg.topic w).0 (subscribe-CoreInv cfg.topic w v)

targets-subscribe :
    (topic t : Text) (w : Core)
    → CoreInv w
    → count_if everyone (targets (subscribe topic w).0 t)
      ≡ count_if everyone (targets w t) + one_if (receives topic t)
unfolding subscribe
targets-subscribe topic t w v =
    targets-add_channel everyone topic t (next_channel w)
      (record w { channels = make channel_size w.channels })
      (record {
        exact = v.valid.exact;
        keys = v.valid.keys;
        wild = v.valid.wild;
        patterns = v.valid.patterns;
      })

targets-start_pools :
    (t : Text) (cfgs : List ConsumerConfig) (w : Core)
    → CoreInv w
    → count_if everyone (targets (start_pools cfgs w).0 t)
      ≡ count_if everyone (targets w t) + interested t cfgs
unfolding start_pools interested
targets-start_pools t [] w v = omega arith
targets-start_pools t (cfg ∷ cfgs) w v = omega (
  arith,
  targets-start_pools t cfgs (subscribe cfg.topic w).0 (subscribe-CoreInv cfg.topic w v),
  targets-subscribe cfg.topic t w v,
)

abbrev pub is_error : Option Error → Bool
is_error none = false
is_error (some e) = true

-- StartAll, on a bus in order: it returns an error exactly if the registry has subscriptions already;
-- for each topic, its events reach as many more subscriptions as there are consumers registered whose
-- topic receives it, or none more if there was an error.
pub start_all_lem :
    (r : Registry) (w : Core) (t : Text)
    → CoreInv w
    → let (r', w', err) = start_all r w in
      (is_error err ≡ ltb 0 (length r.subs))
      × (count_if (λ s. true) (targets w' t)
          ≡ count_if (λ s. true) (targets w t)
            + (if ltb 0 (length r.subs) then 0 else interested t r.configs))
unfolding start_all
start_all_lem r w t v = elim (Bool-cases (ltb 0 (length r.subs))) [
  | inl on ↦ rw on (refl, omega arith)
  | inr off ↦ rw off (refl, targets-start_pools t r.configs w v)
]

abbrev SecondIsIdle : Core → Registry → Type 0
SecondIsIdle w r =
    let (r', w', err) = start_all r w in
    let (r'', w'', again) = start_all r' w' in
    (r'' ≡ r') × (w'' ≡ w') × (is_error again ≡ ltb 0 (length r.configs))

idle_registry :
    (cfgs : List ConsumerConfig) (w : Core) → SecondIsIdle w (record { configs = cfgs; subs = [] })
unfolding start_all start_pools
idle_registry [] w = (refl, refl, refl)
idle_registry (cfg ∷ cfgs) w = (ground arith, ground arith, ground arith)

-- A second StartAll changes neither the registry nor the bus, and returns an error exactly if there
-- are consumers registered. Hypothesis: the registry was not started before the first.
pub start_all_twice :
    (r : Registry) (w : Core)
    → r.subs ≡ []
    → let (r', w', err) = start_all r w in
      let (r'', w'', again) = start_all r' w' in
      (r'' ≡ r') × (w'' ≡ w') × (is_error again ≡ ltb 0 (length r.configs))
start_all_twice r w idle =
    subst (SecondIsIdle w)
      (ap (λ (subs : List PoolSub). record { configs = r.configs; subs = subs }) (sym idle))
      (idle_registry r.configs w)
