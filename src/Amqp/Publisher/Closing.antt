-- ===== src/Amqp/Publisher/Closing.antt =====
-- Nothing is accepted after Close, and nothing is lost when its wait is over.
use eventbus.Base.{
  ◌+◌, List, ◌++◌, ◌≡◌, refl, sym, ap, ◌∙◌, Bool, true, arith, append_assoc, append-nil,
}
use eventbus.Event.{Event}
use eventbus.Amqp.Publisher.{Publisher, IsFinished, new_publisher, enqueue, close_publisher}
use eventbus.Event.Counts.{count, count_hand}
use eventbus.Amqp.Publisher.Steps.{
  Reply, crashes_worker, crashes_fallback, Step, takes, sends, falls, enqueues, closes, Steps, done,
  next, count_everywhere, Steps-count,
}

Step-closed :
    {replies : Event → Reply} {p q : Publisher} {es : List Event}
    → Step replies p es q
    → p.closed ≡ true
    → (q.closed ≡ true) × (q.discarded ≡ p.discarded ++ es)
unfolding enqueue close_publisher
Step-closed (enqueues e p alive) h = ground arith
Step-closed (takes e es p queue hand alive) h = (h, sym (append-nil p.discarded))
Step-closed (sends e p hand r alive) h = (h, sym (append-nil p.discarded))
Step-closed (falls before e after p fallback r alive) h = (h, sym (append-nil p.discarded))
Step-closed (closes p alive) h = (refl, sym (append-nil p.discarded))
Step-closed (crashes_worker e p hand r alive) h = (h, sym (append-nil p.discarded))
Step-closed (crashes_fallback before e after p fallback r alive) h =
    (h, sym (append-nil p.discarded))

-- Once closed, a publisher stays closed, and every event that is handed to enqueue is dropped, in
-- order.
pub Steps-closed :
    {replies : Event → Reply} {p q : Publisher} {es : List Event}
    → Steps replies p es q
    → p.closed ≡ true
    → (q.closed ≡ true) × (q.discarded ≡ p.discarded ++ es)
Steps-closed (done {p}) h = (h, sym (append-nil p.discarded))
Steps-closed (next {p} {q} {r} {es} {fs} s more) h =
    let (closed, kept) = Step-closed s h in
    let (still, all) = Steps-closed more closed in
    (still, all ∙ ap (λ xs. xs ++ fs) kept ∙ append_assoc p.discarded es fs)

-- When Close's wait is over, each event that was handed to enqueue since the publisher was made is
-- among the sent or the dropped, once.
pub finished_lem :
    {replies : Event → Reply} {p : Publisher} {es : List Event} (configured : Bool)
    (test : Event → Bool)
    → Steps replies (new_publisher configured) es p
    → IsFinished p
    → count test p.sent + count test p.discarded ≡ count test es
unfolding new_publisher count_everywhere
finished_lem {p} configured test steps over =
    let a : count test p.queue ≡ 0 = ap (count test) over.queue in
    let b : count_hand test p.in_hand ≡ 0 = ap (count_hand test) over.in_hand in
    let c : count test p.fallback ≡ 0 = ap (count test) over.fallback in
    omega (arith, Steps-count test steps)
