-- ===== src/Amqp/Pipeline/Settled.antt =====
-- Each delivery that the broker sends is in one place, once: in msgCh, in the hands of one of the two
-- goroutines, settled, or dropped because the context is done.
use eventbus.Base.{ℕ, ◌+◌, List, [], ◌∷◌, ◌++◌, ◌≡◌, ap, ◌∙◌, Bool, false, map, arith}
use eventbus.Event.Counts.{one_if, count, count-append}
use eventbus.Amqp.Message.{Settlement, nacked}
use eventbus.Amqp.Decoding.{Json, PayloadTypes, Envelope}
use eventbus.Amqp.Pipeline.{
  Forwarder, selects, offers, Receiver, waits, handles, Pipeline, new_pipeline, Step, arrives,
  source_closes, cancels, takes, refuses, forwarder_cancels, forwarder_ends, hands_over, abandons,
  finishes, gives_up, receiver_cancels, receiver_ends, Steps, here, next,
}
use eventbus.Amqp.Pipeline.Handlers.{Handling}

abbrev pub offered : (ℕ → Bool) → Forwarder → ℕ
offered test selects = 0
offered test (offers tag m) = one_if (test tag)
offered test Forwarder.stopped = 0

abbrev pub in_hands : (ℕ → Bool) → Receiver → ℕ
in_hands test waits = 0
in_hands test (handles tag m) = one_if (test tag)
in_hands test Receiver.stopped = 0

abbrev pub count_settled : (ℕ → Bool) → List (ℕ × Settlement) → ℕ
count_settled test [] = 0
count_settled test ((tag, s) ∷ xs) = one_if (test tag) + count_settled test xs

count_settled-append :
    (test : ℕ → Bool) (xs ys : List (ℕ × Settlement))
    → count_settled test (xs ++ ys) ≡ count_settled test xs + count_settled test ys
count_settled-append test [] ys = omega arith
count_settled-append test ((tag, s) ∷ xs) ys = omega (arith, count_settled-append test xs ys)

-- The deliveries, of those that the test holds of, that the pipeline knows of.
unfoldable pub count_pipeline : (ℕ → Bool) → Pipeline → ℕ
count_pipeline test p =
    count test p.pending
    + offered test p.forwarder
    + in_hands test p.receiver
    + count_settled test p.settled
    + count test p.abandoned

-- One settlement more.
count_settled-one :
    (test : ℕ → Bool) (xs : List (ℕ × Settlement)) (tag : ℕ) {ss : List Settlement}
    → (s : Settlement) × (ss ≡ s ∷ [])
    → count_settled test (xs ++ map (λ s. (tag, s)) ss) ≡ count_settled test xs + one_if (test tag)
count_settled-one test xs tag (s, one) =
    ap (λ ts. count_settled test (xs ++ map (λ s. (tag, s)) ts)) one
    ∙ count_settled-append test xs ((tag, s) ∷ [])
    ∙ omega arith

module _ (json : Json) (types : PayloadTypes) (envelopes : ℕ → Envelope) (h : Handling) where
  Step-count_pipeline :
      {p q : Pipeline} (test : ℕ → Bool)
      → Step json types envelopes h p q
      → count_pipeline test p ≡ count test p.arrived
      → count_pipeline test q ≡ count test q.arrived
  unfolding count_pipeline
  Step-count_pipeline test (arrives tag p unclosed) c =
      omega (arith, count-append test p.arrived (tag ∷ []), count-append test p.pending (tag ∷ []))
  Step-count_pipeline test (source_closes p) c = c
  Step-count_pipeline test (cancels p) c = c
  Step-count_pipeline test (takes tag tags m p at some_in good) c =
      omega (arith, c, ap (count test) some_in, ap (offered test) at)
  Step-count_pipeline test (refuses tag tags e p at some_in bad) c = omega (
    arith,
    c,
    ap (count test) some_in,
    count_settled-append test p.settled ((tag, nacked false) ∷ []),
  )
  Step-count_pipeline test (forwarder_cancels p at done) c = omega (arith, c, ap (offered test) at)
  Step-count_pipeline test (forwarder_ends p at none_in closed) c =
      omega (arith, c, ap (offered test) at)
  Step-count_pipeline test (hands_over tag m p at free) c =
      omega (arith, c, ap (offered test) at, ap (in_hands test) free)
  Step-count_pipeline test (abandons tag m p at done) c =
      omega (arith, c, ap (offered test) at, count-append test p.abandoned (tag ∷ []))
  Step-count_pipeline test (finishes tag m ss p at ends) c = omega (
    arith,
    c,
    ap (in_hands test) at,
    count_settled-one test p.settled tag (h.ends_once m ss ends),
  )
  Step-count_pipeline test (gives_up tag m ss p at done stops) c = omega (
    arith,
    c,
    ap (in_hands test) at,
    count_settled-one test p.settled tag (h.stops_once m ss stops),
  )
  Step-count_pipeline test (receiver_cancels p at done) c = omega (arith, c, ap (in_hands test) at)
  Step-count_pipeline test (receiver_ends p at gone) c = omega (arith, c, ap (in_hands test) at)

  -- Whatever the order in which the broker, the forwarder and the receiver take turns, each delivery
  -- is counted once: in msgCh, with the forwarder, with the receiver, among the settled, or among those
  -- that were dropped.
  pub Steps-count_pipeline :
      {p : Pipeline} (test : ℕ → Bool)
      → Steps json types envelopes h new_pipeline p
      → count_pipeline test p ≡ count test p.arrived
  Steps-count_pipeline test here = unfold count_pipeline in omega arith
  Steps-count_pipeline test (next before s) =
      Step-count_pipeline test s (Steps-count_pipeline test before)
