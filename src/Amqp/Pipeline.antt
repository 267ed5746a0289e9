-- ===== src/Amqp/Pipeline.antt =====
-- The goroutine of SubscribeManual (ext/amqp/amqpclt/subscribe.go) and the one that takes its
-- deliveries: the loop of Consumer.Start, of Listener.Start or of Subscribe; each as the steps that it
-- takes, in any order. A delivery is known by its number.
pub mod Handlers
pub mod Settled
pub mod Orderly
pub mod Ending
use eventbus.Base.{ℕ, List, [], ◌∷◌, ◌++◌, ◌≡◌, Bool, true, false, map}
use eventbus.Errors.{Error}
use eventbus.Amqp.Session.{Result, ok, err}
use eventbus.Amqp.Message.{Message, Settlement, nacked}
use eventbus.Amqp.Decoding.{Json, PayloadTypes, Envelope, decode_message}
use eventbus.Amqp.Pipeline.Handlers.{Handling}

-- The forwarder: at its first select, offering a delivery on outCh, or gone, with outCh closed.
pub data Forwarder : Type 0 where
  selects : Forwarder
  offers : ℕ → Message → Forwarder
  stopped : Forwarder

-- The receiver: at its select, with a delivery in its hands, or gone.
pub data Receiver : Type 0 where
  waits : Receiver
  handles : ℕ → Message → Receiver
  stopped : Receiver

pub record Pipeline : Type 0 where
  -- What the broker has sent, what of it is in msgCh, and whether that is closed.
  pub arrived : List ℕ
  pub pending : List ℕ
  pub source_closed : Bool
  pub forwarder : Forwarder
  pub receiver : Receiver
  -- The context is done.
  pub canceled : Bool
  -- The calls of Ack and Nack; the deliveries that were taken, and dropped with no such call.
  pub settled : List (ℕ × Settlement)
  pub abandoned : List ℕ

abbrev pub new_pipeline : Pipeline
new_pipeline = record {
  arrived = [];
  pending = [];
  source_closed = false;
  forwarder = selects;
  receiver = waits;
  canceled = false;
  settled = [];
  abandoned = [];
}

abbrev pub settle : ℕ → List Settlement → Pipeline → Pipeline
settle tag ss p = record p { settled = p.settled ++ map (λ s. (tag, s)) ss }

module _ (json : Json) (types : PayloadTypes) (envelopes : ℕ → Envelope) (h : Handling) where
  open h use {Ends, Stops}

  pub data Step : Pipeline → Pipeline → Type 0 where
    -- The broker, the client library, and whoever cancels the context.
    arrives :
        (tag : ℕ) (p : Pipeline)
        → p.source_closed ≡ false
        → Step p (record p { arrived = p.arrived ++ tag ∷ []; pending = p.pending ++ tag ∷ [] })
    source_closes : (p : Pipeline) → Step p (record p { source_closed = true })
    cancels : (p : Pipeline) → Step p (record p { canceled = true })
    -- The forwarder takes a delivery, which can be decoded or not.
    takes :
        (tag : ℕ) (tags : List ℕ) (m : Message) (p : Pipeline)
        → p.forwarder ≡ selects
        → p.pending ≡ tag ∷ tags
        → decode_message json types (envelopes tag) ≡ ok m
        → Step p (record p { pending = tags; forwarder = offers tag m })
    refuses :
        (tag : ℕ) (tags : List ℕ) (e : Error) (p : Pipeline)
        → p.forwarder ≡ selects
        → p.pending ≡ tag ∷ tags
        → decode_message json types (envelopes tag) ≡ err e
        → Step p (settle tag (nacked false ∷ []) (record p { pending = tags }))
    -- It returns: the context is done, or msgCh is closed and empty.
    forwarder_cancels :
        (p : Pipeline)
        → p.forwarder ≡ selects
        → p.canceled ≡ true
        → Step p (record p { forwarder = stopped })
    forwarder_ends :
        (p : Pipeline)
        → p.forwarder ≡ selects
        → p.pending ≡ []
        → p.source_closed ≡ true
        → Step p (record p { forwarder = stopped })
    -- outCh has no buffer: a delivery goes from hand to hand. Or it is dropped.
    hands_over :
        (tag : ℕ) (m : Message) (p : Pipeline)
        → p.forwarder ≡ offers tag m
        → p.receiver ≡ waits
        → Step p (record p { forwarder = selects; receiver = handles tag m })
    abandons :
        (tag : ℕ) (m : Message) (p : Pipeline)
        → p.forwarder ≡ offers tag m
        → p.canceled ≡ true
        → Step p (record p { forwarder = stopped; abandoned = p.abandoned ++ tag ∷ [] })
    -- The receiver has handled a delivery, and goes on or returns.
    finishes :
        (tag : ℕ) (m : Message) (ss : List Settlement) (p : Pipeline)
        → p.receiver ≡ handles tag m
        → Ends m ss
        → Step p (settle tag ss (record p { receiver = waits }))
    gives_up :
        (tag : ℕ) (m : Message) (ss : List Settlement) (p : Pipeline)
        → p.receiver ≡ handles tag m
        → p.canceled ≡ true
        → Stops m ss
        → Step p (settle tag ss (record p { receiver = stopped }))
    receiver_cancels :
        (p : Pipeline)
        → p.receiver ≡ waits
        → p.canceled ≡ true
        → Step p (record p { receiver = stopped })
    receiver_ends :
        (p : Pipeline)
        → p.receiver ≡ waits
        → p.forwarder ≡ stopped
        → Step p (record p { receiver = stopped })

  pub data Steps (p : Pipeline) : Pipeline → Type 0 where
    here : Steps p p
    next : {q r : Pipeline} → Steps p q → Step q r → Steps p r
