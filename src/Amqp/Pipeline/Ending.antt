-- ===== src/Amqp/Pipeline/Ending.antt =====
-- How a subscription ends: every delivery that its goroutines took is settled, unless the context was
-- done; and they can always end.
use eventbus.Base.{ℕ, List, [], ◌∷◌, ◌≡◌, refl, ap, ◌∙◌, ◌⊎◌, inl, inr, Bool, true, false, arith}
use eventbus.Event.Counts.{count}
use eventbus.Amqp.Session.{Result, ok, err}
use eventbus.Amqp.Message.{Message}
use eventbus.Amqp.Decoding.{Json, PayloadTypes, Envelope, decode_message}
use eventbus.Amqp.Pipeline.{
  Forwarder, selects, offers, Receiver, waits, handles, Pipeline, new_pipeline, settle, Step, takes,
  refuses, forwarder_cancels, forwarder_ends, hands_over, abandons, finishes, receiver_cancels,
  receiver_ends, Steps, here, next,
}
use eventbus.Amqp.Pipeline.Handlers.{Handling}
use eventbus.Amqp.Pipeline.Settled.{
  count_pipeline, count_settled, offered, in_hands, Steps-count_pipeline,
}
use eventbus.Amqp.Pipeline.Orderly.{IsOrderly, Steps-IsOrderly}

-- When the receiver has returned though the context is not done, then msgCh was closed and is empty,
-- and each delivery that the broker has sent was settled, as often as it was sent.
pub all_settled :
    (json : Json) (types : PayloadTypes) (envelopes : ℕ → Envelope) (h : Handling) {p : Pipeline}
    → (test : ℕ → Bool) → Steps json types envelopes h new_pipeline p
    → p.receiver ≡ Receiver.stopped
    → p.canceled ≡ false
    → (p.source_closed ≡ true)
      × (p.forwarder ≡ Forwarder.stopped)
      × (count_settled test p.settled ≡ count test p.arrived)
unfolding count_pipeline
all_settled json types envelopes h {p} test run gone going =
    let o = Steps-IsOrderly json types envelopes h run in
    let forwarder : p.forwarder ≡ Forwarder.stopped = elim (o.receiver_stopped gone) [
      | inl d ↦ absurd (ground arith)
      | inr f ↦ f
    ] in
    let empty : (p.pending ≡ []) × (p.source_closed ≡ true) = elim (o.forwarder_stopped forwarder) [
      | inl d ↦ absurd (ground arith)
      | inr e ↦ e
    ] in
    (
      empty.1,
      forwarder,
      omega (
        arith,
        Steps-count_pipeline json types envelopes h test run,
        ap (count test) empty.0,
        ap (offered test) forwarder,
        ap (in_hands test) gone,
        ap (count test) (o.none_abandoned going),
      ),
    )

module _ (json : Json) (types : PayloadTypes) (envelopes : ℕ → Envelope) (h : Handling) where
  then_steps :
      {p q r : Pipeline}
      → Step json types envelopes h p q
      → Steps json types envelopes h q r
      → Steps json types envelopes h p r
  then_steps s here = next here s
  then_steps s (next before t) = next (then_steps s before) t

  -- The two goroutines can return, with no further delivery.
  abbrev CanEnd : Pipeline → Type 0
  CanEnd p =
      (q : Pipeline) × (Steps json types envelopes h p q)
      × (q.arrived ≡ p.arrived)
      × (q.forwarder ≡ Forwarder.stopped)
      × (q.receiver ≡ Receiver.stopped)

  after_step :
      {p q : Pipeline}
      → Step json types envelopes h p q
      → q.arrived ≡ p.arrived
      → CanEnd q
      → CanEnd p
  after_step s same (r, run, kept, f, g) = (r, then_steps s run, kept ∙ same, f, g)

  -- The receiver is gone, and so is the forwarder soon.
  stop_forwarder :
      (f : Forwarder) (p : Pipeline)
      → p.forwarder ≡ f
      → p.canceled ≡ true
      → p.receiver ≡ Receiver.stopped
      → CanEnd p
  stop_forwarder selects p at d gone =
      after_step (forwarder_cancels p at d) refl (_, here, refl, refl, gone)
  stop_forwarder (offers tag m) p at d gone =
      after_step (abandons tag m p at d) refl (_, here, refl, refl, gone)
  stop_forwarder Forwarder.stopped p at d gone = (p, here, refl, at, gone)

  -- The receiver finishes what it has in hand.
  finish :
      (tag : ℕ) (m : Message) (p : Pipeline)
      → p.receiver ≡ handles tag m
      → CanEnd (settle tag (h.can_end m).0 (record p { receiver = waits }))
      → CanEnd p
  finish tag m p at rest = after_step (finishes tag m _ p at (h.can_end m).1) refl rest

  -- msgCh is closed: what is in it is handled, one after the other.
  drain :
      (tags : List ℕ) (p : Pipeline)
      → p.pending ≡ tags
      → p.source_closed ≡ true
      → p.forwarder ≡ selects
      → p.receiver ≡ waits
      → CanEnd p
  drain [] p none_in closed at free = after_step (forwarder_ends p at none_in closed) refl (
      after_step (receiver_ends (record p { forwarder = Forwarder.stopped }) free refl) refl
        (_, here, refl, refl, refl))
  drain (tag ∷ tags) p some_in closed at free =
      go (decode_message json types (envelopes tag)) refl (drain tags)
    where
      go :
          (r : Result Message)
          → decode_message json types (envelopes tag) ≡ r
          → ((q : Pipeline)
              → q.pending ≡ tags
              → q.source_closed ≡ true
              → q.forwarder ≡ selects
              → q.receiver ≡ waits
              → CanEnd q)
          → CanEnd p
      go (err e) bad ih =
          after_step (refuses tag tags e p at some_in bad) refl (ih _ refl closed at free)
      go (ok m) good ih =
          let held = record p { pending = tags; forwarder = offers tag m } in
          after_step (takes tag tags m p at some_in good) refl (
            after_step (hands_over tag m held refl free) refl (
              finish tag m (record held { forwarder = selects; receiver = handles tag m }) refl
                (ih _ refl closed refl refl)))

  from_waits :
      (f : Forwarder) (p : Pipeline)
      → p.forwarder ≡ f
      → p.receiver ≡ waits
      → (p.canceled ≡ true) ⊎ (p.source_closed ≡ true)
      → CanEnd p
  from_waits f p at free (inl d) =
      after_step (receiver_cancels p free d) refl
        (stop_forwarder f (record p { receiver = Receiver.stopped }) at d refl)
  from_waits selects p at free (inr closed) = drain p.pending p refl closed at free
  from_waits (offers tag m) p at free (inr closed) = after_step (hands_over tag m p at free) refl (
      finish tag m (record p { forwarder = selects; receiver = handles tag m }) refl
        (drain p.pending _ refl closed refl refl))
  from_waits Forwarder.stopped p at free (inr closed) =
      after_step (receiver_ends p free at) refl (_, here, refl, at, refl)

  from_receiver :
      (r : Receiver) (p : Pipeline)
      → p.receiver ≡ r
      → IsOrderly p
      → (p.canceled ≡ true) ⊎ (p.source_closed ≡ true)
      → CanEnd p
  from_receiver waits p at o why = from_waits p.forwarder p refl at why
  from_receiver (handles tag m) p at o why =
      finish tag m p at (from_waits p.forwarder _ refl refl why)
  from_receiver Receiver.stopped p at o why = elim (o.receiver_stopped at) [
    | inl d ↦ stop_forwarder p.forwarder p refl d at
    | inr gone ↦ (p, here, refl, gone, at)
  ]

-- Whatever the goroutines of a subscription have done, once the context is done or msgCh is closed,
-- they can both return, with no further delivery from the broker.
pub subscription-CanEnd :
    (json : Json) (types : PayloadTypes) (envelopes : ℕ → Envelope) (h : Handling) {p : Pipeline}
    → Steps json types envelopes h new_pipeline p
    → (p.canceled ≡ true) ⊎ (p.source_closed ≡ true)
    → (q : Pipeline) × (Steps json types envelopes h p q)
      × (q.arrived ≡ p.arrived)
      × (q.forwarder ≡ Forwarder.stopped)
      × (q.receiver ≡ Receiver.stopped)
subscription-CanEnd json types envelopes h {p} run why =
    from_receiver json types envelopes h p.receiver p refl
      (Steps-IsOrderly json types envelopes h run) why
