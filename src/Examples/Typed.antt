-- ===== src/Examples/Typed.antt =====
-- A handler of numbers on an event whose payload is one, and on one whose payload is not.
use eventbus.Base.{ℕ, [], ◌∷◌, ◌++◌, ◌≡◌, ◌⊎◌, none, some, Text, codes, ltb, if◌then◌else◌}
use eventbus.Errors.{Error, plain}
use eventbus.Bus.Chain.Typed.{
  PayloadType, TypedHandler, bytes, Unmarshaled, value, wrap_typed, Converts, wrap_typed_lem,
}
use eventbus.Examples.Deliveries.{background, order, shop}

-- Payloads below 100 are numbers, those below 200 are maps that hold one, and the others are neither.
abbrev number : PayloadType
number = record {
  name = codes "int";
  assert = λ p. if ltb p 100 then some p else none;
  is_map = λ p. ltb p 200;
  as_bytes = λ p. none;
  marshal = λ p. bytes (p ∷ []);
  unmarshal = first;
}
  where
    first : Text → Unmarshaled
    first [] = Unmarshaled.cannot (plain (codes "no number"))
    first (c ∷ s) = value c

-- The handler notes what it gets.
abbrev note : TypedHandler
note ctx v e w = (record w { notes = w.notes ++ v ∷ [] }, none)

wrap_typed_lem_example :
    ((v : ℕ) × Converts number order.payload v
      × ((wrap_typed number note).handle background order shop.core
          ≡ note background v order shop.core)
      × ((u : ℕ) → Converts number order.payload u → u ≡ v))
    ⊎ (((v : ℕ) → ¬ Converts number order.payload v)
        × (err : Error) × ((wrap_typed number note).handle background order shop.core
            ≡ (shop.core, some err)))
wrap_typed_lem_example = wrap_typed_lem number note background order shop.core
