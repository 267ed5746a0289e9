-- ===== src/Bus/Chain/Typed.antt =====
-- WrapTyped of handler.go: a handler of typed payloads as a handler of events. The type, with its
-- assertions, and encoding/json are arguments.
use eventbus.Base.{
  ℕ, ◌≡◌, refl, ap, ◌∙◌, ◌⊎◌, inl, inr, Bool, true, false, Option, none, some, Text, codes, ◌++◌,
  if◌then◌else◌, Bool-cases,
}
use eventbus.Errors.{Error, plain, wrap}
use eventbus.Event.{Event}
use eventbus.Delivery.{Context}
use eventbus.Bus.State.{Core}
use eventbus.Bus.Chain.{Handler, handler_func}

-- What json.Marshal and json.Unmarshal come to.
pub data Marshaled : Type 0 where
  bytes : Text → Marshaled
  cannot : Error → Marshaled

pub data Unmarshaled : Type 0 where
  value : ℕ → Unmarshaled
  cannot : Error → Unmarshaled

-- A type T: its name, and the three type assertions on a payload, and JSON for it.
pub record PayloadType : Type 0 where
  pub name : Text
  pub assert : ℕ → Option ℕ
  pub is_map : ℕ → Bool
  pub as_bytes : ℕ → Option Text
  pub marshal : ℕ → Marshaled
  pub unmarshal : Text → Unmarshaled

-- TypedHandler, which may change what a handler reaches.
abbrev pub TypedHandler : Type 0
TypedHandler = Context → ℕ → Event → Core → Core × Option Error

module _ (type : PayloadType) (handler : TypedHandler) (ctx : Context) (e : Event) (w : Core) where
  abbrev pub handle_value : Unmarshaled → Core × Option Error
  handle_value (value v) = handler ctx v e w
  handle_value (Unmarshaled.cannot err) =
      (w, some (wrap (codes "eventbus: unmarshal payload to *" ++ type.name) err))

  abbrev pub handle_map : Marshaled → Core × Option Error
  handle_map (bytes b) = handle_value (type.unmarshal b)
  handle_map (Marshaled.cannot err) = (w, some (wrap (codes "eventbus: marshal payload") err))

  abbrev pub handle_bytes : Option Text → Core × Option Error
  handle_bytes (some b) = handle_value (type.unmarshal b)
  handle_bytes none = (w, some (plain (codes "eventbus: type mismatch: want *" ++ type.name)))

  abbrev pub handle_asserted : Option ℕ → Core × Option Error
  handle_asserted (some v) = handler ctx v e w
  handle_asserted none =
      if type.is_map e.payload
      then handle_map (type.marshal e.payload)
      else handle_bytes (type.as_bytes e.payload)

  -- The function that WrapTyped returns.
  unfoldable pub handle_typed : Core × Option Error
  handle_typed = handle_asserted (type.assert e.payload)

-- WrapTyped.
abbrev pub wrap_typed : PayloadType → TypedHandler → Handler
wrap_typed type handler = handler_func (handle_typed type handler)

-- A payload converts to a value of the type: as it is, as a map, or as bytes, in this order.
pub data Converts (type : PayloadType) (payload : ℕ) : ℕ → Type 0 where
  directly : {v : ℕ} → type.assert payload ≡ some v → Converts type payload v
  as_map :
      {v : ℕ} (b : Text)
      → type.assert payload ≡ none
      → type.is_map payload ≡ true
      → type.marshal payload ≡ bytes b
      → type.unmarshal b ≡ value v
      → Converts type payload v
  as_bytes :
      {v : ℕ} (b : Text)
      → type.assert payload ≡ none
      → type.is_map payload ≡ false
      → type.as_bytes payload ≡ some b
      → type.unmarshal b ≡ value v
      → Converts type payload v

module _ (type : PayloadType) (payload : ℕ) where
  -- What the first assertions that hold say of a conversion.
  only_direct : (a v : ℕ) → type.assert payload ≡ some a → Converts type payload v → v ≡ a
  only_direct a v h (directly g) = cc
  only_direct a v h (as_map b n m e u) = cc
  only_direct a v h (as_bytes b n m e u) = cc

  only_map :
      (b : Text) (v : ℕ)
      → type.assert payload ≡ none
      → type.is_map payload ≡ true
      → type.marshal payload ≡ bytes b
      → Converts type payload v
      → type.unmarshal b ≡ value v
  only_map b v h m e (directly g) = cc
  only_map b v h m e (as_map c n k f u) = let same : b ≡ c = cc in ap type.unmarshal same ∙ u
  only_map b v h m e (as_bytes c n k f u) = cc

  no_map :
      (err : Error) (v : ℕ)
      → type.assert payload ≡ none
      → type.is_map payload ≡ true
      → type.marshal payload ≡ Marshaled.cannot err
      → ¬ Converts type payload v
  no_map err v h m e (directly g) = cc
  no_map err v h m e (as_map c n k f u) = cc
  no_map err v h m e (as_bytes c n k f u) = cc

  only_bytes :
      (b : Text) (v : ℕ)
      → type.assert payload ≡ none
      → type.is_map payload ≡ false
      → type.as_bytes payload ≡ some b
      → Converts type payload v
      → type.unmarshal b ≡ value v
  only_bytes b v h m e (directly g) = cc
  only_bytes b v h m e (as_map c n k f u) = cc
  only_bytes b v h m e (as_bytes c n k f u) = let same : b ≡ c = cc in ap type.unmarshal same ∙ u

  no_bytes :
      (v : ℕ)
      → type.assert payload ≡ none
      → type.is_map payload ≡ false
      → type.as_bytes payload ≡ none
      → ¬ Converts type payload v
  no_bytes v h m e (directly g) = cc
  no_bytes v h m e (as_map c n k f u) = cc
  no_bytes v h m e (as_bytes c n k f u) = cc

module _ (type : PayloadType) (handler : TypedHandler) (ctx : Context) (e : Event) (w : Core) where
  -- What a result says of the payload.
  abbrev Answers : Core × Option Error → Type 0
  Answers r =
      ((v : ℕ) × Converts type e.payload v
        × (r ≡ handler ctx v e w)
        × ((u : ℕ) → Converts type e.payload u → u ≡ v))
      ⊎ (((v : ℕ) → ¬ Converts type e.payload v) × (err : Error) × (r ≡ (w, some err)))

  of_value :
      (b : Text) (r : Unmarshaled)
      → type.unmarshal b ≡ r
      → ((v : ℕ) → type.unmarshal b ≡ value v → Converts type e.payload v)
      → ((v : ℕ) → Converts type e.payload v → type.unmarshal b ≡ value v)
      → Answers (handle_value type handler ctx e w r)
  of_value b (value v) h make only = inl (v, make v h, refl, λ u c. let same = only u c in cc)
  of_value b (Unmarshaled.cannot err) h make only = inr (λ v c. let same = only v c in cc, _, refl)

  of_map :
      (r : Marshaled)
      → type.assert e.payload ≡ none
      → type.is_map e.payload ≡ true
      → type.marshal e.payload ≡ r
      → Answers (handle_map type handler ctx e w r)
  of_map (bytes b) h m k =
      of_value b (type.unmarshal b) refl (λ v u. as_map b h m k u)
        (λ v c. only_map type e.payload b v h m k c)
  of_map (Marshaled.cannot err) h m k = inr (λ v c. no_map type e.payload err v h m k c, _, refl)

  of_bytes :
      (r : Option Text)
      → type.assert e.payload ≡ none
      → type.is_map e.payload ≡ false
      → type.as_bytes e.payload ≡ r
      → Answers (handle_bytes type handler ctx e w r)
  of_bytes (some b) h m k =
      of_value b (type.unmarshal b) refl (λ v u. as_bytes b h m k u)
        (λ v c. only_bytes type e.payload b v h m k c)
  of_bytes none h m k = inr (λ v c. no_bytes type e.payload v h m k c, _, refl)

  of_assertion :
      (r : Option ℕ) → type.assert e.payload ≡ r → Answers (handle_asserted type handler ctx e w r)
  of_assertion (some v) h = inl (v, directly h, refl, λ u c. only_direct type e.payload v u h c)
  of_assertion none h = elim (Bool-cases (type.is_map e.payload)) [
    | inl m ↦ rw m (of_map (type.marshal e.payload) h m refl)
    | inr m ↦ rw m (of_bytes (type.as_bytes e.payload) h m refl)
  ]

-- If the payload of the event converts to a value of the type, the handler that WrapTyped returns does
-- what the typed handler does with that value; if it converts to none, it returns an error and changes
-- nothing; and it converts to one value at most.
pub wrap_typed_lem :
    (type : PayloadType) (handler : TypedHandler) (ctx : Context) (e : Event) (w : Core)
    → ((v : ℕ) × Converts type e.payload v
        × ((wrap_typed type handler).handle ctx e w ≡ handler ctx v e w)
        × ((u : ℕ) → Converts type e.payload u → u ≡ v))
      ⊎ (((v : ℕ) → ¬ Converts type e.payload v)
          × (err : Error) × ((wrap_typed type handler).handle ctx e w ≡ (w, some err)))
unfolding handle_typed
wrap_typed_lem type handler ctx e w = of_assertion type handler ctx e w (type.assert e.payload) refl
