-- ===== src/Amqp/Publisher/Ending.antt =====
-- What the wait of Close depends on: the goroutines have only so much left to do, never wait for one
-- another, and are held up by calls of amqpPub.Publish alone.
use eventbus.Base.{
  sym, ◌∙◌, ◌≢◌, ◌++◌, Bool-cases, false, ℕ, ◌+◌, ◌*◌, List, [], ◌∷◌, ◌≡◌, refl, ap, ◌⊎◌, inl, inr,
  true, Option, none, some, length, length-append, arith,
}
use eventbus.Event.{Event}
use eventbus.Amqp.Publisher.{Publisher, IsFinished, enqueue, close_publisher}
use eventbus.Amqp.Publisher.Steps.{
  Reply, returns, hangs, panics, crashes_worker, crashes_fallback, Step, takes, sends, falls,
  enqueues, closes, Steps, done, next,
}

abbrev pub hand_work : Option Event → ℕ
hand_work none = 0
hand_work (some e) = 1

-- The moves that the goroutines have left: two for an event in the queue, one for the one in hand,
-- and one for each fallback goroutine.
pub work : Publisher → ℕ
work p = 2 * length p.queue + hand_work p.in_hand + length p.fallback

-- A receive of mqWorker and a return from Publish are moves; a call of enqueue or Close is none, nor a
-- panic.
abbrev pub is_move :
    {replies : Event → Reply} {p q : Publisher} {es : List Event} → Step replies p es q → ℕ
is_move (enqueues e p alive) = 0
is_move (takes e es p queue hand alive) = 1
is_move (sends e p hand r alive) = 1
is_move (falls before e after p fallback r alive) = 1
is_move (closes p alive) = 0
is_move (crashes_worker e p hand r alive) = 0
is_move (crashes_fallback before e after p fallback r alive) = 0

pub moves : {replies : Event → Reply} {p q : Publisher} {es : List Event} → Steps replies p es q → ℕ
moves done = 0
moves (next s more) = is_move s + moves more

Step-work :
    {replies : Event → Reply} {p q : Publisher} {es : List Event} (s : Step replies p es q)
    → p.closed ≡ true
    → (q.closed ≡ true) × (work q + is_move s ≡ work p)
unfolding enqueue close_publisher work
Step-work (enqueues e p alive) h = ground arith
Step-work (takes e es p queue hand alive) h =
    (h, omega (arith, ap (length {A = Event}) queue, ap hand_work hand))
Step-work (sends e p hand r alive) h = (h, omega (arith, ap hand_work hand))
Step-work (falls before e after p fallback r alive) h = (
  h,
  omega (
    arith,
    ap (length {A = Event}) fallback,
    length-append before (e ∷ after),
    length-append before after,
  ),
)
Step-work (closes p alive) h = (refl, omega arith)
Step-work (crashes_worker e p hand r alive) h = (h, omega arith)
Step-work (crashes_fallback before e after p fallback r alive) h = (h, omega arith)

Steps-work :
    {replies : Event → Reply} {p q : Publisher} {es : List Event} (run : Steps replies p es q)
    → p.closed ≡ true
    → (q.closed ≡ true) × (work q + moves run ≡ work p)
unfolding moves
Steps-work done h = (h, omega arith)
Steps-work (next s more) h =
    let (still, one) = Step-work s h in
    let (closed, all) = Steps-work more still in (closed, omega arith)

module _ (replies : Event → Reply) where
  -- Some goroutine can move.
  abbrev pub CanMove : Publisher → Type 0
  CanMove p = (q : Publisher) × (s : Step replies p [] q) × (is_move s ≡ 1)

  -- A goroutine is in a call of Publish that does not return.
  abbrev pub IsInCall : Publisher → Type 0
  IsInCall p =
      (e : Event) × (replies e ≢ returns)
      × ((p.in_hand ≡ some e)
          ⊎ ((before : List Event) × (after : List Event) × (p.fallback ≡ before ++ e ∷ after)))

  -- The process is still there, and nothing else is left to be done.
  abbrev pub GoesOn : Publisher → Type 0
  GoesOn p = IsFinished p ⊎ (CanMove p ⊎ IsInCall p)

  call_of :
      (r : Reply) (e : Event) (p : Publisher)
      → replies e ≡ r
      → p.in_hand ≡ some e
      → p.crashed ≡ false
      → CanMove p ⊎ IsInCall p
  call_of returns e p r hand alive = inl (_, sends e p hand r alive, refl)
  call_of hangs e p r hand alive = inr (e, (λ s. cc), inl hand)
  call_of panics e p r hand alive = inr (e, (λ s. cc), inl hand)

  fallback_of :
      (r : Reply) (e : Event) (es : List Event) (p : Publisher)
      → replies e ≡ r
      → p.fallback ≡ e ∷ es
      → p.crashed ≡ false
      → CanMove p ⊎ IsInCall p
  fallback_of returns e es p r f alive = inl (_, falls [] e es p f r alive, refl)
  fallback_of hangs e es p r f alive = inr (e, (λ s. cc), inr ([], es, f))
  fallback_of panics e es p r f alive = inr (e, (λ s. cc), inr ([], es, f))

  progress_queue :
      (fs es : List Event) (p : Publisher)
      → p.closed ≡ true
      → p.crashed ≡ false
      → p.in_hand ≡ none
      → p.fallback ≡ fs
      → p.queue ≡ es
      → GoesOn p
  progress_queue [] [] p c alive hand fallback queue =
      inl (record { closed = c; queue = queue; in_hand = hand; fallback = fallback })
  progress_queue fs (e ∷ es) p c alive hand fallback queue =
      inr (inl (_, takes e es p queue hand alive, refl))
  progress_queue (f ∷ fs) [] p c alive hand fallback queue =
      inr (fallback_of (replies f) f fs p refl fallback alive)

  progress :
      (hand : Option Event) (p : Publisher)
      → p.closed ≡ true
      → p.crashed ≡ false
      → p.in_hand ≡ hand
      → GoesOn p
  progress none p c alive hand = progress_queue p.fallback p.queue p c alive hand refl refl
  progress (some e) p c alive hand = inr (call_of (replies e) e p refl hand alive)

closed_by : (p : Publisher) → (close_publisher p).closed ≡ true
unfolding close_publisher
closed_by p = refl

same_work : (p : Publisher) → work (close_publisher p) ≡ work p
unfolding close_publisher work
same_work p = refl

-- From Close on, in whatever order the worker, the fallback goroutines and further calls of enqueue
-- take turns, the goroutines make at most `work` moves, which is two for each event in the queue and
-- one for each other event in flight. And at any time Close's wait is over, or the process has panicked,
-- or a goroutine can move, or one is in a call of amqpPub.Publish that does not return. So Close can
-- only be held up by such a call.
pub close_publisher-ends :
    {replies : Event → Reply} (p : Publisher) {q : Publisher} {es : List Event}
    (run : Steps replies (close_publisher p) es q)
    → (moves run + work q ≡ work p)
      × (IsFinished q ⊎ ((q.crashed ≡ true) ⊎ (CanMove replies q ⊎ IsInCall replies q)))
close_publisher-ends {replies} p {q} run =
    let (closed, all) = Steps-work run (closed_by p) in
    (
      omega (arith, same_work p),
      elim (Bool-cases q.crashed) [
        | inl gone ↦ inr (inl gone)
        | inr alive ↦ elim (progress replies q.in_hand q closed alive refl) [
          | inl over ↦ inl over
          | inr more ↦ inr (inr more)
        ]
      ],
    )

Step-hangs :
    {replies : Event → Reply} {p q : Publisher} {es : List Event} (e : Event)
    → Step replies p es q
    → p.in_hand ≡ some e
    → replies e ≡ hangs
    → q.in_hand ≡ some e
unfolding enqueue close_publisher
Step-hangs e (enqueues x p alive) h r = ground arith
Step-hangs e (takes x es p queue hand alive) h r = absurd (ground arith)
Step-hangs {replies} e (sends x p hand back alive) h r =
    let same : x ≡ e = cc in absurd (clash (sym back ∙ ap replies same ∙ r))
  where
    clash : returns ≡ hangs → ⊥
    clash q = cc
Step-hangs e (falls before x after p fallback back alive) h r = h
Step-hangs e (closes p alive) h r = h
Step-hangs e (crashes_worker x p hand bad alive) h r = h
Step-hangs e (crashes_fallback before x after p fallback bad alive) h r = h

-- A call of Publish that hangs in mqWorker holds Close up for good.
pub hangs_for_good :
    {replies : Event → Reply} {p q : Publisher} {es : List Event} (e : Event)
    → Steps replies p es q
    → p.in_hand ≡ some e
    → replies e ≡ hangs
    → q.in_hand ≡ some e
hangs_for_good e done h r = h
hangs_for_good e (next s more) h r = hangs_for_good e more (Step-hangs e s h r) r
