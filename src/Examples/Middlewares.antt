-- ===== src/Examples/Middlewares.antt =====
-- Middlewares on a new bus, well behaved and not.
use eventbus.Base.{ℕ, ◌+◌, none, false, List, [], ◌∷◌, ◌++◌, ◌≡◌, refl, codes, map, arith}
use eventbus.Errors.{Error, plain}
use eventbus.Bus.Chain.{
  handler_func_type, Middleware, EventBus, returned, panicked, new, wrap_all, use_middlewares,
  rebuild_chain, store_chain, publish,
}
use eventbus.Bus.Chain.Use.{chain_of, tracer, refuses, use_middlewares-other_type}
use eventbus.Bus.Dispatch.{dispatch}
use eventbus.Bus.Table.{subs_of}
use eventbus.Bus.Chain.Onion.{Layer, enter, leave, flatten, use_all, publish-use_all}
use eventbus.Delivery.{Context}
use eventbus.Examples.Deliveries.{ticks, order}

abbrev background : Context
background = record { collector = none; done = false }

abbrev two : List Middleware
two = tracer 1 ∷ tracer 2 ∷ []

new_is_func : (new ticks).chain.concrete ≡ handler_func_type
unfolding new
new_is_func = refl

-- Layers that write notes before the call of the next handler and after it.
abbrev noting : ℕ → Layer
noting n = (
  λ w. record w { notes = w.notes ++ n ∷ [] },
  λ w. record w { notes = w.notes ++ (n + 10) ∷ [] },
)

abbrev batches : List (List Layer)
batches = (noting 1 ∷ noting 2 ∷ []) ∷ (noting 3 ∷ []) ∷ []

publish-use_all_example :
    let (eb, outcomes) = use_all batches (new ticks) in
    let layers = flatten batches in
    (outcomes ≡ map (λ b. returned) batches)
    × ((publish background order eb).core
        ≡ leave layers (dispatch background order (enter layers (new ticks).core)).0)
publish-use_all_example = publish-use_all batches ticks background order

-- On a bus with no subscriber: 1, 2 and 3 on the way in, 13, 12 and 11 on the way out.
notes_of_layers :
    (publish background order (use_all batches (new ticks)).0).core.notes
    ≡ 1 ∷ 2 ∷ 3 ∷ 13 ∷ 12 ∷ 11 ∷ []
unfolding new use_all use_middlewares rebuild_chain store_chain wrap_all publish dispatch subs_of
notes_of_layers = refl

first_use : (use_middlewares two (new ticks)).1 ≡ returned
unfolding new use_middlewares rebuild_chain store_chain wrap_all
first_use = refl

second_use : (use_middlewares (tracer 3 ∷ []) (use_middlewares two (new ticks)).0).1 ≡ returned
unfolding new use_middlewares rebuild_chain store_chain wrap_all
second_use = refl

-- A middleware that returns a handler of a struct type.
abbrev struct_middleware : Middleware
struct_middleware next = record { concrete = 5; handle = next.handle }

no_middlewares : (new ticks).middlewares ≡ []
unfolding new
no_middlewares = refl

use_middlewares-other_type_example :
    let (eb', outcome) = use_middlewares (struct_middleware ∷ []) (new ticks) in
    let (eb'', later) = use_middlewares two eb' in
    (outcome ≡ panicked) × (later ≡ panicked) × (eb''.chain ≡ (new ticks).chain)
use_middlewares-other_type_example =
    use_middlewares-other_type struct_middleware two (new ticks) no_middlewares new_is_func
      (λ h e. ground arith)

abbrev denied : Error
denied = plain (codes "denied")

abbrev guarded : EventBus
guarded = record (new ticks) {
  chain = wrap_all (map tracer (1 ∷ [])) (refuses denied (chain_of []));
}
