-- ===== src/Pool/Lifecycle/Ending.antt =====
-- What each stage of teardown has done.
pub mod Reached
use eventbus.Base.{
  ℕ, zero, suc, ◌+◌, ◌<◌, List, [], ◌∷◌, ◌++◌, ◌≡◌, refl, ap, ◌⊎◌, inl, inr, Bool, true, false,
  length, arith,
}
use eventbus.Event.{Event}
use eventbus.Pool.Lifecycle.{
  Line, Teardown, not_begun, removed, stopping, over, subscribe_with_pool, Step, delivers,
  parent_cancels, unsubscribes, bus_closes, queues, hands_over, fails_canceled, fails_full,
  forwarder_stops, takes, finishes, leaves, removes, stops, ends, Steps, done, next,
}

abbrev begun : Teardown → Bool
begun not_begun = false
begun removed = true
begun stopping = true
begun over = true

abbrev stopped : Teardown → Bool
stopped not_begun = false
stopped removed = false
stopped stopping = true
stopped over = true

-- What a pool is like at each stage of teardown.
pub record IsOrderly (l : Line) : Type 0 where
  pub forwarder_gone : begun l.teardown ≡ true → l.forwarding ≡ false
  pub unregistered : begun l.teardown ≡ true → l.registered ≡ false
  pub canceled : stopped l.teardown ≡ true → l.pool_done ≡ true
  pub no_worker : l.teardown ≡ over → (l.idle ≡ 0) × (l.busy ≡ []) × (l.inbox_closed ≡ true)

not_empty :
    (before : List Event) (e : Event) (after : List Event) {xs : List Event}
    → xs ≡ []
    → ¬ (xs ≡ before ++ e ∷ after)
not_empty [] e after a b = ground arith
not_empty (x ∷ before) e after a b = ground arith

Step-IsOrderly : {l m : Line} {es : List Event} → Step l es m → IsOrderly l → IsOrderly m
Step-IsOrderly (delivers e l c room) h = record {
  forwarder_gone = h.forwarder_gone;
  unregistered = h.unregistered;
  canceled = h.canceled;
  no_worker = h.no_worker;
}
Step-IsOrderly (parent_cancels l) h = record {
  forwarder_gone = h.forwarder_gone;
  unregistered = h.unregistered;
  canceled = λ t. refl;
  no_worker = h.no_worker;
}
Step-IsOrderly (unsubscribes l) h = record {
  forwarder_gone = h.forwarder_gone;
  unregistered = h.unregistered;
  canceled = h.canceled;
  no_worker = h.no_worker;
}
Step-IsOrderly (bus_closes l) h = record {
  forwarder_gone = h.forwarder_gone;
  unregistered = λ t. refl;
  canceled = h.canceled;
  no_worker = λ t. let (a, b, c) = h.no_worker t in (a, b, refl);
}
Step-IsOrderly (queues e es l f inbox room) h = record {
  forwarder_gone = h.forwarder_gone;
  unregistered = h.unregistered;
  canceled = h.canceled;
  no_worker = h.no_worker;
}
Step-IsOrderly (hands_over e es n l f inbox queue idle) h = record {
  forwarder_gone = h.forwarder_gone;
  unregistered = h.unregistered;
  canceled = h.canceled;
  no_worker = λ t. let (a, b, c) = h.no_worker t in absurd (omega arith);
}
Step-IsOrderly (fails_canceled e es l f inbox d) h = record {
  forwarder_gone = h.forwarder_gone;
  unregistered = h.unregistered;
  canceled = h.canceled;
  no_worker = h.no_worker;
}
Step-IsOrderly (fails_full e es l f inbox d full) h = record {
  forwarder_gone = h.forwarder_gone;
  unregistered = h.unregistered;
  canceled = h.canceled;
  no_worker = h.no_worker;
}
Step-IsOrderly (forwarder_stops l f why) h = record {
  forwarder_gone = λ t. refl;
  unregistered = h.unregistered;
  canceled = h.canceled;
  no_worker = h.no_worker;
}
Step-IsOrderly (takes e es n l idle queue) h = record {
  forwarder_gone = h.forwarder_gone;
  unregistered = h.unregistered;
  canceled = h.canceled;
  no_worker = λ t. let (a, b, c) = h.no_worker t in absurd (omega arith);
}
Step-IsOrderly (finishes before e after l busy) h = record {
  forwarder_gone = h.forwarder_gone;
  unregistered = h.unregistered;
  canceled = h.canceled;
  no_worker = λ t. let (a, b, c) = h.no_worker t in absurd (not_empty before e after b busy);
}
Step-IsOrderly (leaves n l idle d) h = record {
  forwarder_gone = h.forwarder_gone;
  unregistered = h.unregistered;
  canceled = h.canceled;
  no_worker = λ t. let (a, b, c) = h.no_worker t in absurd (omega arith);
}
Step-IsOrderly (removes l f t) h = record {
  forwarder_gone = λ u. f;
  unregistered = λ u. refl;
  canceled = λ u. absurd (ground arith);
  no_worker = λ u. absurd (ground arith);
}
Step-IsOrderly (stops l t) h = record {
  forwarder_gone = λ u. h.forwarder_gone (ap begun t);
  unregistered = λ u. h.unregistered (ap begun t);
  canceled = λ u. refl;
  no_worker = λ u. absurd (ground arith);
}
Step-IsOrderly (ends l t idle busy) h = record {
  forwarder_gone = λ u. h.forwarder_gone (ap begun t);
  unregistered = λ u. h.unregistered (ap begun t);
  canceled = λ u. h.canceled (ap stopped t);
  no_worker = λ u. (idle, busy, refl);
}

Steps-IsOrderly : {l m : Line} {es : List Event} → Steps l es m → IsOrderly l → IsOrderly m
Steps-IsOrderly done h = h
Steps-IsOrderly (next s more) h = Steps-IsOrderly more (Step-IsOrderly s h)

new-IsOrderly : (queue_size workers : ℕ) → IsOrderly (subscribe_with_pool queue_size workers)
new-IsOrderly queue_size workers = record {
  forwarder_gone = λ t. absurd (ground arith);
  unregistered = λ t. absurd (ground arith);
  canceled = λ t. absurd (ground arith);
  no_worker = λ t. absurd (ground arith);
}

pub run-IsOrderly :
    {l : Line} {es : List Event} (queue_size workers : ℕ)
    → Steps (subscribe_with_pool queue_size workers) es l
    → IsOrderly l
run-IsOrderly queue_size workers run = Steps-IsOrderly run (new-IsOrderly queue_size workers)
