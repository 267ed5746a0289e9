-- ===== src/Manager/Registry/RoundTrip.antt =====
-- Shutdown takes a registry's consumers off the bus again, and nothing else.
use mathlib.Core.Path.{subst}
use eventbus.Base.{
  ℕ, ◌≤◌, List, [], ◌∷◌, ◌≡◌, refl, sym, ap, ◌∙◌, inl, inr, true, none, Text, arith, All,
  Bool-cases, length, ◌==◌,
}
use eventbus.Bus.State.{Core}
use eventbus.Bus.Table.Counts.{count_if, on_channel}
use eventbus.Bus.Dispatch.Targets.{targets}
use eventbus.Bus.Lifecycle.Invariant.{CoreInv}
use eventbus.Manager.Registry.Topics.{start_pools-CoreInv}
use eventbus.Manager.Registry.{
  ConsumerConfig, PoolSub, Registry, start_pools, start_all, release_pools, shutdown,
}
use eventbus.Manager.Registry.Releases.{among, targets-release_pools}
use eventbus.Manager.Registry.Starts.{
  start_pools-fresh, start_pools-Present, start_pools-Distinct, targets-start_pools_other,
  targets-unknown,
}

among-fresh :
    (n c : ℕ) (subs : List PoolSub)
    → All (λ (s : PoolSub). n ≤ s.ch) subs
    → among c subs ≡ true
    → n ≤ c
among-fresh n c [] h a = absurd (ground arith)
among-fresh n c (s ∷ subs) h a = elim (Bool-cases (c == s.ch)) [
  | inl here ↦ ground (arith, h.0)
  | inr later ↦ among-fresh n c subs h.1 (ground arith)
]

targets-release-start :
    (cfgs : List ConsumerConfig) (w : Core)
    → CoreInv w
    → (t : Text) (c : ℕ)
    → count_if
        (on_channel c)
        (targets (release_pools (start_pools cfgs w).1 (start_pools cfgs w).0) t)
      ≡ count_if (on_channel c) (targets w t)
targets-release-start cfgs w v t c =
    let subs = (start_pools cfgs w).1 in
    let w' = (start_pools cfgs w).0 in
    let released =
      targets-release_pools subs w' (start_pools-CoreInv cfgs w v) (start_pools-Present cfgs w)
        (start_pools-Distinct cfgs w) t c in
    elim (Bool-cases (among c subs)) [
      | inl ours ↦
          released
          ∙ rw ours (
              sym (
                targets-unknown t c w v (
                  among-fresh (length w.channels) c subs
                    (start_pools-fresh (length w.channels) cfgs w (omega arith)) ours)))
      | inr other ↦ released ∙ rw other (targets-start_pools_other t c cfgs w v other)
    ]

abbrev ComesBack : Core → Registry → Type 0
ComesBack w r =
    let (r', w', err) = start_all r w in
    (err ≡ none)
    × ((shutdown r' w').0 ≡ r)
    × ((t : Text) (c : ℕ)
        → count_if (on_channel c) (targets (shutdown r' w').1 t)
          ≡ count_if (on_channel c) (targets w t))

idle_registry :
    (cfgs : List ConsumerConfig) (w : Core)
    → CoreInv w
    → ComesBack w (record { configs = cfgs; subs = [] })
unfolding start_all shutdown
idle_registry cfgs w v = (refl, refl, targets-release-start cfgs w v)

-- On a bus in order, for a registry that is not started: after StartAll, which returns no error, and
-- Shutdown, the registry is as it was, and for every topic each channel is a target as often as
-- before.
pub shutdown-start_all :
    (r : Registry) (w : Core)
    → CoreInv w
    → r.subs ≡ []
    → let (r', w', err) = start_all r w in
      (err ≡ none)
      × ((shutdown r' w').0 ≡ r)
      × ((t : Text) (c : ℕ)
          → count_if (on_channel c) (targets (shutdown r' w').1 t)
            ≡ count_if (on_channel c) (targets w t))
shutdown-start_all r w v idle =
    subst (ComesBack w)
      (ap (λ (subs : List PoolSub). record { configs = r.configs; subs = subs }) (sym idle))
      (idle_registry r.configs w v)
