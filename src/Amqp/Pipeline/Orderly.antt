-- ===== src/Amqp/Pipeline/Orderly.antt =====
-- When the goroutines of a subscription return, and when deliveries are dropped.
use eventbus.Base.{ℕ, [], ◌∷◌, ◌++◌, ◌≡◌, refl, ◌⊎◌, inl, inr, true, false, arith}
use eventbus.Amqp.Decoding.{Json, PayloadTypes, Envelope}
use eventbus.Amqp.Pipeline.{
  Forwarder, Receiver, Pipeline, new_pipeline, Step, arrives, source_closes, cancels, takes,
  refuses, forwarder_cancels, forwarder_ends, hands_over, abandons, finishes, gives_up,
  receiver_cancels, receiver_ends, Steps, here, next,
}
use eventbus.Amqp.Pipeline.Handlers.{Handling}

-- Why a goroutine has returned, and when deliveries are dropped.
pub record IsOrderly (p : Pipeline) : Type 0 where
  pub forwarder_stopped :
      p.forwarder ≡ Forwarder.stopped
      → (p.canceled ≡ true) ⊎ ((p.pending ≡ []) × (p.source_closed ≡ true))
  pub receiver_stopped :
      p.receiver ≡ Receiver.stopped → (p.canceled ≡ true) ⊎ (p.forwarder ≡ Forwarder.stopped)
  pub none_abandoned : p.canceled ≡ false → p.abandoned ≡ []

module _ (json : Json) (types : PayloadTypes) (envelopes : ℕ → Envelope) (h : Handling) where
  Step-IsOrderly : {p q : Pipeline} → Step json types envelopes h p q → IsOrderly p → IsOrderly q
  Step-IsOrderly (arrives tag p unclosed) o = record {
    forwarder_stopped = λ t. still tag p unclosed (o.forwarder_stopped t);
    receiver_stopped = o.receiver_stopped;
    none_abandoned = o.none_abandoned;
  }
    where
      still :
          (tag : ℕ) (p : Pipeline)
          → p.source_closed ≡ false
          → (p.canceled ≡ true) ⊎ ((p.pending ≡ []) × (p.source_closed ≡ true))
          → (p.canceled ≡ true) ⊎ ((p.pending ++ tag ∷ [] ≡ []) × (p.source_closed ≡ true))
      still tag p unclosed (inl d) = inl d
      still tag p unclosed (inr (e, closed)) = absurd (ground arith)
  Step-IsOrderly (source_closes p) o = record {
    forwarder_stopped = λ t. closing p (o.forwarder_stopped t);
    receiver_stopped = o.receiver_stopped;
    none_abandoned = o.none_abandoned;
  }
    where
      closing :
          (p : Pipeline)
          → (p.canceled ≡ true) ⊎ ((p.pending ≡ []) × (p.source_closed ≡ true))
          → (p.canceled ≡ true) ⊎ ((p.pending ≡ []) × (true ≡ true))
      closing p (inl d) = inl d
      closing p (inr (e, closed)) = inr (e, refl)
  Step-IsOrderly (cancels p) o = record {
    forwarder_stopped = λ t. inl refl;
    receiver_stopped = λ t. inl refl;
    none_abandoned = λ t. absurd (ground arith);
  }
  Step-IsOrderly (takes tag tags m p at some_in good) o = record {
    forwarder_stopped = λ t. absurd (ground arith);
    receiver_stopped =
        λ t. elim (o.receiver_stopped t) [ inl d ↦ inl d | inr gone ↦ absurd (ground arith) ];
    none_abandoned = o.none_abandoned;
  }
  Step-IsOrderly (refuses tag tags e p at some_in bad) o = record {
    forwarder_stopped = λ t. absurd (ground arith);
    receiver_stopped = o.receiver_stopped;
    none_abandoned = o.none_abandoned;
  }
  Step-IsOrderly (forwarder_cancels p at d) o = record {
    forwarder_stopped = λ t. inl d;
    receiver_stopped = λ t. inl d;
    none_abandoned = o.none_abandoned;
  }
  Step-IsOrderly (forwarder_ends p at none_in closed) o = record {
    forwarder_stopped = λ t. inr (none_in, closed);
    receiver_stopped = λ t. inr refl;
    none_abandoned = o.none_abandoned;
  }
  Step-IsOrderly (hands_over tag m p at free) o = record {
    forwarder_stopped = λ t. absurd (ground arith);
    receiver_stopped = λ t. absurd (ground arith);
    none_abandoned = o.none_abandoned;
  }
  Step-IsOrderly (abandons tag m p at d) o = record {
    forwarder_stopped = λ t. inl d;
    receiver_stopped = λ t. inl d;
    none_abandoned = λ t. absurd (ground arith);
  }
  Step-IsOrderly (finishes tag m ss p at ends) o = record {
    forwarder_stopped = o.forwarder_stopped;
    receiver_stopped = λ t. absurd (ground arith);
    none_abandoned = o.none_abandoned;
  }
  Step-IsOrderly (gives_up tag m ss p at d stops) o = record {
    forwarder_stopped = o.forwarder_stopped;
    receiver_stopped = λ t. inl d;
    none_abandoned = o.none_abandoned;
  }
  Step-IsOrderly (receiver_cancels p at d) o = record {
    forwarder_stopped = o.forwarder_stopped;
    receiver_stopped = λ t. inl d;
    none_abandoned = o.none_abandoned;
  }
  Step-IsOrderly (receiver_ends p at gone) o = record {
    forwarder_stopped = o.forwarder_stopped;
    receiver_stopped = λ t. inr gone;
    none_abandoned = o.none_abandoned;
  }

  pub Steps-IsOrderly : {p : Pipeline} → Steps json types envelopes h new_pipeline p → IsOrderly p
  Steps-IsOrderly here = record {
    forwarder_stopped = λ t. absurd (ground arith);
    receiver_stopped = λ t. absurd (ground arith);
    none_abandoned = λ t. refl;
  }
  Steps-IsOrderly (next before s) = Step-IsOrderly s (Steps-IsOrderly before)
