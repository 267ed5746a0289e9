-- ===== src/Bus/Async/Ending.antt =====
-- What each stage of an Unsubscribe has done, and that it can always come to its end.
use eventbus.Base.{ℕ, ◌+◌, List, [], ◌∷◌, ◌++◌, ◌≡◌, refl, ap, Bool, true, false, not, ◌==◌, arith}
use eventbus.Event.{Event}
use eventbus.Event.Counts.{count}
use eventbus.Bus.Async.{
  Stage, not_begun, waiting, removed, shut, over, Async, subscribe_async, Step, delivers,
  parent_cancels, tracks, watcher_blocks, watcher_sees_parent, watcher_sees_sub,
  watcher_unsubscribes, watcher_joins, unsubscribes, takes, finishes, leaves, removes, shuts,
  untracks, bus_closes, Steps, done, next,
}
use eventbus.Bus.Async.Handled.{count_async, Steps-count_async}

abbrev pub begun : Stage → Bool
begun not_begun = false
begun waiting = true
begun removed = true
begun shut = true
begun over = true

abbrev pub past_wait : Stage → Bool
past_wait not_begun = false
past_wait waiting = false
past_wait removed = true
past_wait shut = true
past_wait over = true

abbrev pub closing : Stage → Bool
closing not_begun = false
closing waiting = false
closing removed = false
closing shut = true
closing over = true

abbrev pub is_over : Stage → Bool
is_over not_begun = false
is_over waiting = false
is_over removed = false
is_over shut = false
is_over over = true

abbrev pub is_empty {ℓ} : {A : Type ℓ} → List A → Bool
is_empty [] = true
is_empty (x ∷ xs) = false

infix 25 ◌implies◌
abbrev pub ◌implies◌ : Bool → Bool → Bool
true implies b = b
false implies b = true

-- What holds at each stage.
pub record IsOrderly (s : Async) : Type 0 where
  pub derived : (s.parent_done implies s.sub_done) ≡ true
  pub canceled : (begun s.stage implies s.sub_done) ≡ true
  pub no_worker : (past_wait s.stage implies (s.idle == 0)) ≡ true
  pub no_event : (past_wait s.stage implies is_empty s.busy) ≡ true
  pub off_tables : (past_wait s.stage implies not s.registered) ≡ true
  pub closed : (closing s.stage implies s.inbox_closed) ≡ true

is_empty-middle :
    (before : List Event) (e : Event) (after : List Event) → is_empty (before ++ e ∷ after) ≡ false
is_empty-middle [] e after = refl
is_empty-middle (x ∷ before) e after = refl

Step-IsOrderly : {s t : Async} {es : List Event} → Step s es t → IsOrderly s → IsOrderly t
Step-IsOrderly (delivers e s c room) o = ground arith
Step-IsOrderly (parent_cancels s h) o = ground arith
Step-IsOrderly (tracks s h) o = ground arith
Step-IsOrderly (watcher_blocks s h p q) o = ground arith
Step-IsOrderly (watcher_sees_parent s h p) o = ground arith
Step-IsOrderly (watcher_sees_sub s h p) o = ground arith
Step-IsOrderly (watcher_unsubscribes s h p) o = ground arith
Step-IsOrderly (watcher_joins s h p) o = ground arith
Step-IsOrderly (unsubscribes s h p) o = ground arith
Step-IsOrderly (takes e es n s idle inbox) o = ground arith
Step-IsOrderly (finishes before e after s busy) o = ground (arith, is_empty-middle before e after)
Step-IsOrderly (leaves n s idle why) o = ground arith
Step-IsOrderly (removes s h i b) o = ground arith
Step-IsOrderly (shuts s h) o = ground arith
Step-IsOrderly (untracks s h) o = ground arith
Step-IsOrderly (bus_closes s) o = ground arith

pub Steps-IsOrderly : {s t : Async} {es : List Event} → Steps s es t → IsOrderly s → IsOrderly t
Steps-IsOrderly done o = o
Steps-IsOrderly (next s more) o = Steps-IsOrderly more (Step-IsOrderly s o)

new-IsOrderly : (canceled : Bool) (n : ℕ) → IsOrderly (subscribe_async canceled n)
new-IsOrderly true n = record {
  derived = refl;
  canceled = refl;
  no_worker = refl;
  no_event = refl;
  off_tables = refl;
  closed = refl;
}
new-IsOrderly false n = record {
  derived = refl;
  canceled = refl;
  no_worker = refl;
  no_event = refl;
  off_tables = refl;
  closed = refl;
}

pub run-IsOrderly :
    {s : Async} {es : List Event} (canceled : Bool) (n : ℕ)
    → Steps (subscribe_async canceled n) es s
    → IsOrderly s
run-IsOrderly canceled n run = Steps-IsOrderly run (new-IsOrderly canceled n)

nobody : (busy : List Event) → is_empty busy ≡ true → busy ≡ []
nobody [] h = refl
nobody (e ∷ busy) h = absurd (ground arith)

-- Whatever the goroutines of a subscription have done, when an Unsubscribe is over all workers have
-- returned, subCtx is done, the channel is closed and not in the tables, and each event that the bus
-- put into it was handled or is left in it, once.
pub over_lem :
    {s : Async} {es : List Event} (canceled : Bool) (n : ℕ) (test : Event → Bool)
    → Steps (subscribe_async canceled n) es s
    → is_over s.stage ≡ true
    → (s.idle ≡ 0)
      × (s.busy ≡ [])
      × (s.sub_done ≡ true)
      × (s.registered ≡ false)
      × (s.inbox_closed ≡ true)
      × (count test s.handled + count test s.inbox ≡ count test es)
unfolding count_async
over_lem {s} canceled n test run last =
    let o = run-IsOrderly canceled n run in
    let stage = facts s.stage last in
    let idle : s.idle ≡ 0 = ground arith in
    let busy = nobody s.busy (ground arith) in
    (
      idle,
      busy,
      ground arith,
      ground arith,
      ground arith,
      omega (arith, Steps-count_async test run, ap (count test) busy),
    )
  where
    facts :
        (g : Stage)
        → is_over g ≡ true
        → (begun g ≡ true) × (past_wait g ≡ true) × (closing g ≡ true)
    facts not_begun h = absurd (ground arith)
    facts waiting h = absurd (ground arith)
    facts removed h = absurd (ground arith)
    facts shut h = absurd (ground arith)
    facts over h = (refl, refl, refl)
