-- ===== src/Bus/Chain/Onion.antt =====
-- The order in which the middlewares that Use registers run.
use eventbus.Base.{
  append-nil, ℕ, List, [], ◌∷◌, ◌++◌, ◌≡◌, refl, sym, ◌∙◌, ap, Option, map, append_assoc,
}
use eventbus.Errors.{Error}
use eventbus.Event.{Event}
use eventbus.Delivery.{Context}
use eventbus.Bus.State.{Core}
use eventbus.Bus.Dispatch.{dispatch}
use eventbus.Bus.Chain.{
  Handler, handler_func, handler_func_type, Middleware, EventBus, returned, Outcome, wrap_all, new,
  use_middlewares, publish,
}
use eventbus.Bus.Chain.Use.{chain_of, use_middlewares_ok}

-- What a middleware does before it calls the next handler, and after.
abbrev pub Layer : Type 0
Layer = (Core → Core) × (Core → Core)

abbrev pub after : (Core → Core) → Core × Option Error → Core × Option Error
after g (w, err) = (g w, err)

abbrev pub around : Layer → Middleware
around (f, g) next = handler_func (λ ctx e w. after g (next.handle ctx e (f w)))

-- The layers' first halves, from the first layer to the last; and their second halves, backwards.
abbrev pub enter : List Layer → Core → Core
enter [] w = w
enter ((f, g) ∷ layers) w = enter layers (f w)

abbrev pub leave : List Layer → Core → Core
leave [] w = w
leave ((f, g) ∷ layers) w = g (leave layers w)

after_twice :
    (f g : Core → Core) (r : Core × Option Error) → after g (after f r) ≡ after (λ w. g (f w)) r
after_twice f g (w, err) = refl

wrap_all-around :
    (layers : List Layer) (h : Handler) (ctx : Context) (e : Event) (w : Core)
    → (wrap_all (map around layers) h).handle ctx e w
      ≡ after (leave layers) (h.handle ctx e (enter layers w))
unfolding wrap_all
wrap_all-around [] h ctx e w = same (h.handle ctx e w)
  where
    same : (r : Core × Option Error) → r ≡ after (λ w. w) r
    same (w, err) = refl
wrap_all-around ((f, g) ∷ layers) h ctx e w =
    ap (after g) (wrap_all-around layers h ctx e (f w)) ∙ after_twice (leave layers) g _

-- Calls of Use, one after another, with what each comes to.
unfoldable pub use_all : List (List Layer) → EventBus → EventBus × List Outcome
use_all [] eb = (eb, [])
use_all (layers ∷ more) eb =
    let (eb', outcome) = use_middlewares (map around layers) eb in
    let (eb'', outcomes) = use_all more eb' in (eb'', outcome ∷ outcomes)

abbrev pub flatten : List (List Layer) → List Layer
flatten [] = []
flatten (layers ∷ more) = layers ++ flatten more

-- The bus has these layers, and its core is as given.
record HasLayers (layers : List Layer) (w : Core) (eb : EventBus) : Type 0 where
  registered : eb.middlewares ≡ map around layers
  chain : eb.chain ≡ chain_of (map around layers)
  core : eb.core ≡ w

is_func : (layers : List Layer) → (chain_of (map around layers)).concrete ≡ handler_func_type
unfolding wrap_all
is_func [] = refl
is_func (l ∷ layers) = refl

map-append : (xs ys : List Layer) → map around (xs ++ ys) ≡ map around xs ++ map around ys
map-append [] ys = refl
map-append (x ∷ xs) ys = ap (λ ms. around x ∷ ms) (map-append xs ys)

-- Use adds to the layers, and returns.
use_middlewares-layers :
    (more layers : List Layer) (w : Core) (eb : EventBus)
    → HasLayers layers w eb
    → ((use_middlewares (map around more) eb).1 ≡ returned)
      × HasLayers (layers ++ more) w (use_middlewares (map around more) eb).0
use_middlewares-layers more layers w eb h =
    let all : eb.middlewares ++ map around more ≡ map around (layers ++ more) =
      ap (λ ms. ms ++ map around more) h.registered ∙ sym (map-append layers more) in
    let same : (chain_of (eb.middlewares ++ map around more)).concrete ≡ eb.chain.concrete =
      ap (λ ms. (chain_of ms).concrete) all
      ∙ is_func (layers ++ more)
      ∙ sym (ap (λ (c : Handler). c.concrete) h.chain ∙ is_func layers) in
    rw (use_middlewares_ok (map around more) eb same)
      (refl, record { registered = all; chain = ap chain_of all; core = h.core })

use_all-layers :
    (batches : List (List Layer)) (layers : List Layer) (w : Core) (eb : EventBus)
    → HasLayers layers w eb
    → ((use_all batches eb).1 ≡ map (λ b. returned) batches)
      × HasLayers (layers ++ flatten batches) w (use_all batches eb).0
unfolding use_all
use_all-layers [] layers w eb h = (refl, rw append-nil h)
use_all-layers (b ∷ batches) layers w eb h =
    let (ok, next) = use_middlewares-layers b layers w eb h in
    let (oks, rest) = use_all-layers batches (layers ++ b) w _ next in
    (rw (ok, oks) refl, rw (← append_assoc) rest)

publish-layers :
    (layers : List Layer) (w : Core) (ctx : Context) (e : Event) (eb : EventBus)
    → HasLayers layers w eb
    → (publish ctx e eb).core ≡ leave layers (dispatch ctx e (enter layers w)).0
unfolding publish
publish-layers layers w ctx e eb h =
    ap (λ (c : Handler). (c.handle ctx e eb.core).0) h.chain
    ∙ ap (λ (u : Core). ((chain_of (map around layers)).handle ctx e u).0) h.core
    ∙ ap (λ (r : Core × Option Error). r.0) (wrap_all-around layers (handler_func dispatch) ctx e w)
    ∙ first (dispatch ctx e (enter layers w))
  where
    first : (r : Core × Option Error) → (after (leave layers) r).0 ≡ leave layers r.0
    first (u, err) = refl

new-HasLayers : (clock : ℕ → ℕ) → HasLayers [] (new clock).core (new clock)
unfolding new wrap_all
new-HasLayers clock = record { registered = refl; chain = refl; core = refl }

-- Middlewares that do something before they call the next handler and something after, registered on
-- a new bus by any calls of Use: each call returns; and Publish then runs what they do before in the
-- order of their registration, then dispatch, and then what they do after in the reverse order, once
-- each.
pub publish-use_all :
    (batches : List (List Layer)) (clock : ℕ → ℕ) (ctx : Context) (e : Event)
    → let (eb, outcomes) = use_all batches (new clock) in
      let layers = flatten batches in
      (outcomes ≡ map (λ b. returned) batches)
      × ((publish ctx e eb).core ≡ leave layers (dispatch ctx e (enter layers (new clock).core)).0)
publish-use_all batches clock ctx e =
    let (oks, h) = use_all-layers batches [] (new clock).core (new clock) (new-HasLayers clock) in
    (oks, publish-layers (flatten batches) (new clock).core ctx e _ h)
