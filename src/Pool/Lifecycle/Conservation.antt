-- ===== src/Pool/Lifecycle/Conservation.antt =====
-- No event that reaches a pool is lost or doubled while its goroutines take turns, and its buffers
-- keep their sizes.
use eventbus.Base.{ℕ, ◌+◌, List, [], ◌∷◌, ◌++◌, ◌≡◌, ap, Bool, arith}
use eventbus.Errors.{Error}
use eventbus.Event.{Event}
use eventbus.Event.Counts.{one_if, count, count-append}
use eventbus.Pool.Lifecycle.{
  Line, Step, delivers, parent_cancels, unsubscribes, bus_closes, queues, hands_over,
  fails_canceled, fails_full, forwarder_stops, takes, finishes, leaves, removes, stops, ends, Steps,
  done, next,
}

abbrev pub count_failed : (Event → Bool) → List (Event × Error) → ℕ
count_failed test [] = 0
count_failed test ((e, err) ∷ fs) = one_if (test e) + count_failed test fs

count_failed-append :
    (test : Event → Bool) (xs ys : List (Event × Error))
    → count_failed test (xs ++ ys) ≡ count_failed test xs + count_failed test ys
count_failed-append test [] ys = omega arith
count_failed-append test ((e, err) ∷ xs) ys = omega (arith, count_failed-append test xs ys)

-- The events of a pool that the test holds of, wherever they are.
unfoldable pub count_line : (Event → Bool) → Line → ℕ
count_line test l =
    count test l.inbox
    + count test l.queue
    + count test l.busy
    + count test l.processed
    + count_failed test l.failed

taken :
    (test : Event → Bool) {e : Event} {xs es : List Event}
    → xs ≡ e ∷ es
    → count test xs ≡ one_if (test e) + count test es
taken test h = ap (count test) h

Step-count_line :
    {l m : Line} {es : List Event} (test : Event → Bool)
    → Step l es m
    → count_line test m ≡ count_line test l + count test es
unfolding count_line
Step-count_line test (delivers e l c room) = omega (arith, count-append test l.inbox (e ∷ []))
Step-count_line test (parent_cancels l) = omega arith
Step-count_line test (unsubscribes l) = omega arith
Step-count_line test (bus_closes l) = omega arith
Step-count_line test (queues e es l f inbox room) =
    omega (arith, taken test inbox, count-append test l.queue (e ∷ []))
Step-count_line test (hands_over e es n l f inbox queue idle) =
    omega (arith, taken test inbox, count-append test l.busy (e ∷ []))
Step-count_line test (fails_canceled e es l f inbox d) =
    omega (arith, taken test inbox, count_failed-append test l.failed ((e, _) ∷ []))
Step-count_line test (fails_full e es l f inbox d full) =
    omega (arith, taken test inbox, count_failed-append test l.failed ((e, _) ∷ []))
Step-count_line test (forwarder_stops l f why) = omega arith
Step-count_line test (takes e es n l idle queue) =
    omega (arith, taken test queue, count-append test l.busy (e ∷ []))
Step-count_line test (finishes before e after l busy) =
    let a : count test l.busy ≡ count test (before ++ e ∷ after) = ap (count test) busy in
    omega (
      arith,
      count-append test l.processed (e ∷ []),
      count-append test before (e ∷ after),
      count-append test before after,
    )
Step-count_line test (leaves n l idle d) = omega arith
Step-count_line test (removes l f t) = omega arith
Step-count_line test (stops l t) = omega arith
Step-count_line test (ends l t idle busy) = omega arith

-- However the goroutines of a pool take turns, each event that the bus puts into its channel is in one
-- place, once: in the channel, in the queue, with a worker, among the processed, or among those that
-- FailHandler was called for.
pub Steps-count_line :
    {l m : Line} {es : List Event} (test : Event → Bool)
    → Steps l es m
    → count_line test m ≡ count_line test l + count test es
Steps-count_line test done = omega arith
Steps-count_line test (next {es} {fs} s more) =
    omega (arith, Step-count_line test s, Steps-count_line test more, count-append test es fs)
