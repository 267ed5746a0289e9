-- ===== src/Bus/Chain/Use.antt =====
-- Calls of Use, and middlewares that trace or refuse; what the atomic.Value makes of a handler of another type.
use eventbus.Base.{
  ℕ, List, [], ◌∷◌, ◌++◌, ◌≡◌, ◌≢◌, refl, sym, ◌∙◌, ap, inl, inr, false, some, ◌==◌, map,
  append_assoc, append-nil, arith, Bool-cases, get_elem?-end, length, ==_iff,
}
use eventbus.Errors.{Error}
use eventbus.Event.{Event}
use eventbus.Delivery.{Context, with_collector}
use eventbus.Bus.State.{Core}
use eventbus.Bus.Dispatch.{dispatch}
use eventbus.Bus.Chain.{
  Handler, handler_func, handler_func_type, Middleware, EventBus, returned, panicked, wrap_all,
  use_middlewares, rebuild_chain, store_chain, publish_report, receipts_of,
}

-- The handler that a bus with the middlewares should have.
abbrev pub chain_of : List Middleware → Handler
chain_of ms = wrap_all ms (handler_func dispatch)

-- A bus whose chain is all its middlewares round dispatch, after the new ones were added.
abbrev pub with_middlewares : List Middleware → EventBus → EventBus
with_middlewares all eb = record eb { middlewares = all; chain = chain_of all }

pub use_middlewares_ok :
    (ms : List Middleware) (eb : EventBus)
    → (chain_of (eb.middlewares ++ ms)).concrete ≡ eb.chain.concrete
    → use_middlewares ms eb ≡ (with_middlewares (eb.middlewares ++ ms) eb, returned)
unfolding use_middlewares
use_middlewares_ok ms eb h = rw ((==_iff _ _).1 h)

use_middlewares_returned :
    (ms : List Middleware) (eb : EventBus)
    → (use_middlewares ms eb).1 ≡ returned
    → (chain_of (eb.middlewares ++ ms)).concrete ≡ eb.chain.concrete
unfolding use_middlewares
use_middlewares_returned ms eb p =
    elim (Bool-cases ((chain_of (eb.middlewares ++ ms)).concrete == eb.chain.concrete)) [
      | inl same ↦ (==_iff _ _).0 same
      | inr other ↦ let q : panicked ≡ returned = rw other at p in cc
    ]

-- If two calls of Use return, they do what one call with all the middlewares does.
pub use_middlewares-append :
    (ms ns : List Middleware) (eb : EventBus)
    → (use_middlewares ms eb).1 ≡ returned
    → (use_middlewares ns (use_middlewares ms eb).0).1 ≡ returned
    → use_middlewares ns (use_middlewares ms eb).0 ≡ use_middlewares (ms ++ ns) eb
use_middlewares-append ms ns eb p q =
    let first = use_middlewares_returned ms eb p in
    let once = use_middlewares_ok ms eb first in
    let eb' = with_middlewares (eb.middlewares ++ ms) eb in
    let second = use_middlewares_returned ns eb' (rw once at q) in
    let all = append_assoc eb.middlewares ms ns in
    rw once (
      use_middlewares_ok ns eb' second
      ∙ rw all (sym (use_middlewares_ok (ms ++ ns) eb (rw (← all) (second ∙ first)))))

-- On a bus without middlewares, whose chain is a HandlerFunc, a middleware whose handlers are never
-- HandlerFuncs: Use panics, and keeps the middleware, so that the next Use panics too, whatever it
-- registers, and the chain stays what it was.
pub use_middlewares-other_type :
    (m : Middleware) (ms : List Middleware) (eb : EventBus)
    → eb.middlewares ≡ []
    → eb.chain.concrete ≡ handler_func_type
    → ((h : Handler) → (m h).concrete ≢ handler_func_type)
    → let (eb', outcome) = use_middlewares (m ∷ []) eb in
      let (eb'', later) = use_middlewares ms eb' in
      (outcome ≡ panicked) × (later ≡ panicked) × (eb''.chain ≡ eb.chain)
unfolding use_middlewares rebuild_chain store_chain wrap_all
use_middlewares-other_type m ms eb none_yet func other =
    let first : ((m (handler_func dispatch)).concrete == eb.chain.concrete) ≡ false =
      ground (arith, other (handler_func dispatch)) in
    let later : ((m (wrap_all ms (handler_func dispatch))).concrete == eb.chain.concrete) ≡ false =
      ground (arith, other (wrap_all ms (handler_func dispatch))) in
    rw (none_yet, first) (refl, rw later refl, rw later refl)

-- A middleware that notes its number and passes context and event on.
abbrev pub tracer : ℕ → Middleware
tracer n next = handler_func (λ ctx e w. next.handle ctx e (record w { notes = w.notes ++ n ∷ [] }))

-- Middlewares that note their numbers run in the order of their registration, once each, and the
-- handler behind them runs last, with the context and the event of the call.
pub wrap_all-tracer :
    (ns : List ℕ) (h : Handler) (ctx : Context) (e : Event) (w : Core)
    → (wrap_all (map tracer ns) h).handle ctx e w
      ≡ h.handle ctx e (record w { notes = w.notes ++ ns })
unfolding wrap_all
wrap_all-tracer [] h ctx e w = rw append-nil
wrap_all-tracer (n ∷ ns) h ctx e w =
    wrap_all-tracer ns h ctx e (record w { notes = w.notes ++ n ∷ [] }) ∙ rw append_assoc

-- A middleware that answers with an error and does not call the next handler.
abbrev pub refuses : Error → Middleware
refuses err next = handler_func (λ _ _ w. (w, some err))

-- Where the chain has a middleware that answers with an error, behind any number of tracers,
-- PublishReport returns that error and no receipt, every channel is as it was, and the tracers have
-- run, in order.
pub publish_report-refuses :
    (ns : List ℕ) (err : Error) (rest : List Middleware) (ctx : Context) (e : Event) (eb : EventBus)
    → eb.chain ≡ wrap_all (map tracer ns) (refuses err (chain_of rest))
    → let (eb', receipts, got) = publish_report ctx e eb in
      (got ≡ some err)
      × (receipts ≡ [])
      × (eb'.core.channels ≡ eb.core.channels)
      × (eb'.core.notes ≡ eb.core.notes ++ ns)
unfolding publish_report
publish_report-refuses ns err rest ctx e eb h =
    let k = length eb.core.collectors in
    let start = record (eb.core) { collectors = eb.core.collectors ++ [] ∷ [] } in
    let ran =
      ap (λ (g : Handler). g.handle (with_collector ctx k) e start) h
      ∙ wrap_all-tracer ns (refuses err (chain_of rest)) (with_collector ctx k) e start in
    rw ran (refl, ap receipts_of (get_elem?-end eb.core.collectors []), refl, refl)
