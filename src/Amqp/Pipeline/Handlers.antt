-- ===== src/Amqp/Pipeline/Handlers.antt =====
-- What is done with a delivery that has a message, by those who take deliveries: Consumer.handle,
-- Listener.handle, and the loop of Subscribe, which acknowledges what it hands on.
use eventbus.Base.{
  ℕ, ◌+◌, zero, suc, List, [], ◌∷◌, ◌++◌, ◌≡◌, refl, ap, ◌∙◌, true, false, Option, none, some,
}
use eventbus.Errors.{Error}
use eventbus.Event.{Event}
use eventbus.Backoff.{succeeded}
use eventbus.Delivery.{Context, DeliveryReceipt}
use eventbus.Bus.Chain.{EventBus, new, publish_report}
use eventbus.Amqp.Message.{Message, Settlement, acked, nacked, event_from_message}
use eventbus.Amqp.Consumer
use eventbus.Amqp.Consumer.{ConsumerOptions, Attempts, Act, handle, run_after_commit}
use eventbus.Amqp.Consumer.Outcome.{handle_lem, hooks_after, tried, last_try, settlement}
use eventbus.Amqp.Listener.{Recorder, Confirm, recorded, confirmed, confirm, listen}

-- The settlements that the handling of a message may end with; those after which the loop returns,
-- which it does only when the context is done; and that there is one settlement always, and some end.
pub record Handling : Type 1 where
  pub Ends : Message → List Settlement → Type 0
  pub Stops : Message → List Settlement → Type 0
  pub ends_once :
      (m : Message) (ss : List Settlement) → Ends m ss → (s : Settlement) × (ss ≡ s ∷ [])
  pub stops_once :
      (m : Message) (ss : List Settlement) → Stops m ss → (s : Settlement) × (ss ≡ s ∷ [])
  pub can_end : (m : Message) → (ss : List Settlement) × Ends m ss

pub settlements : List Act → List Settlement
settlements [] = []
settlements (Consumer.handled t ∷ acts) = settlements acts
settlements (Consumer.hooked n ∷ acts) = settlements acts
settlements (Consumer.slept n ∷ acts) = settlements acts
settlements (Consumer.settled s ∷ acts) = s ∷ settlements acts

settlements-append : (xs ys : List Act) → settlements (xs ++ ys) ≡ settlements xs ++ settlements ys
unfolding settlements
settlements-append [] ys = refl
settlements-append (Consumer.handled t ∷ xs) ys = settlements-append xs ys
settlements-append (Consumer.hooked n ∷ xs) ys = settlements-append xs ys
settlements-append (Consumer.slept n ∷ xs) ys = settlements-append xs ys
settlements-append (Consumer.settled s ∷ xs) ys = ap (◌∷◌ s) (settlements-append xs ys)

settlements-run_after_commit : (hooks : List (Option ℕ)) → settlements (run_after_commit hooks) ≡ []
unfolding settlements run_after_commit
settlements-run_after_commit [] = refl
settlements-run_after_commit (none ∷ hooks) = settlements-run_after_commit hooks
settlements-run_after_commit (some n ∷ hooks) = settlements-run_after_commit hooks

module _ (o : ConsumerOptions) (e : Event) (env : Attempts) where
  settlements-tried : (a m : ℕ) → settlements (tried o e env a m) ≡ []
  unfolding settlements tried
  settlements-tried a zero = refl
  settlements-tried a (suc m) = settlements-tried (a + 1) m

  settlements-hooks_after : (err : Option Error) → settlements (hooks_after o e env err) ≡ []
  settlements-hooks_after none = settlements-run_after_commit o.after_commit
  settlements-hooks_after (some err) = unfold settlements in refl

  settlements-last_try : (k : ℕ) → settlements (last_try o e env k) ≡ settlement o e env k ∷ []
  unfolding last_try settlements
  settlements-last_try k =
      let hooks = hooks_after o e env (Consumer.call_handler (env.result k)) in
      settlements-append hooks (Consumer.settled (settlement o e env k) ∷ [])
      ∙ ap (λ xs. xs ++ settlement o e env k ∷ []) (settlements-hooks_after _)

  settlements-run :
      (k : ℕ) → settlements (tried o e env 0 k ++ last_try o e env k) ≡ settlement o e env k ∷ []
  settlements-run k =
      settlements-append (tried o e env 0 k) (last_try o e env k)
      ∙ ap (λ xs. xs ++ settlements (last_try o e env k)) (settlements-tried 0 k)
      ∙ settlements-last_try k

-- A run of Consumer.handle for a message that arrives.
abbrev pub ConsumerEnds : ConsumerOptions → Message → List Settlement → Type 0
ConsumerEnds o m ss =
    (now : ℕ) × (draw : ℕ) × (env : Attempts) × (acts : List Act) × (handle o now draw env
        (some (some m))
      ≡ some acts)
    × (ss ≡ settlements acts)

pub consumer_once :
    (o : ConsumerOptions) (m : Message) (ss : List Settlement)
    → ConsumerEnds o m ss
    → (s : Settlement) × (ss ≡ s ∷ [])
consumer_once o m ss (now, draw, env, acts, run, same) =
    let (k, le, every, over, shape) = handle_lem o now draw env m in
    let e = event_from_message now draw m in
    let acts_are : acts ≡ tried o e env 0 k ++ last_try o e env k = cc in
    (settlement o e env k, same ∙ ap settlements acts_are ∙ settlements-run o e env k)

pub consumer_can_end :
    (o : ConsumerOptions) (m : Message) → (ss : List Settlement) × ConsumerEnds o m ss
consumer_can_end o m =
    let env : Attempts = record {
      result = λ k. succeeded;
      done_after = λ k. false;
      done_in_wait = λ k. false;
    } in
    let (k, le, every, over, shape) = handle_lem o 0 0 env m in (_, (0, 0, env, _, shape, refl))

abbrev pub consumer_handling : ConsumerOptions → Handling
consumer_handling o = record {
  Ends = ConsumerEnds o;
  Stops = λ m ss. ⊥;
  ends_once = consumer_once o;
  stops_once = λ m ss h. absurd h;
  can_end = consumer_can_end o;
}

pub confirmations : List Confirm → List Settlement
confirmations [] = []
confirmations (recorded receipts ∷ acts) = confirmations acts
confirmations (confirmed s ∷ acts) = s ∷ confirmations acts

-- A run of Listener.handle for a message that arrives, with the bus as it is then.
abbrev pub ListenerEnds : Option Recorder → Message → List Settlement → Type 0
ListenerEnds r m ss =
    (now : ℕ) × (draw : ℕ) × (ctx : Context) × (eb : EventBus) × (ss
      ≡ confirmations (listen r now draw ctx (some (some m)) eb).1)

confirm_once :
    (r : Option Recorder) (receipts : List DeliveryReceipt) (err : Option Error)
    → (s : Settlement) × (confirmations (confirm r receipts err) ≡ s ∷ [])
unfolding confirm confirmations
confirm_once r receipts (some err) = (nacked true, refl)
confirm_once none receipts none = (acked, refl)
confirm_once (some f) receipts none = go (f receipts)
  where
    go :
        (o : Option Error)
        → (s : Settlement) × (confirmations
              (elim o [ some err ↦ confirmed (nacked true) | none ↦ confirmed acked ] ∷ [])
            ≡ s ∷ [])
    go none = (acked, refl)
    go (some err) = (nacked true, refl)

pub listener_once :
    (r : Option Recorder) (m : Message) (ss : List Settlement)
    → ListenerEnds r m ss
    → (s : Settlement) × (ss ≡ s ∷ [])
unfolding listen
listener_once r m ss (now, draw, ctx, eb, same) =
    let (eb', receipts, err) = publish_report ctx (event_from_message now draw m) eb in
    let (s, one) = confirm_once r receipts err in (s, same ∙ one)

abbrev pub listener_handling : Option Recorder → Handling
listener_handling r = record {
  Ends = ListenerEnds r;
  Stops = λ m ss. ⊥;
  ends_once = listener_once r;
  stops_once = λ m ss h. absurd h;
  can_end = λ m. (_, (0, 0, record { collector = none; done = false }, new (λ n. n), refl));
}

-- The loop of Subscribe: an Ack when the message is handed on, and a Nack with requeue if the context
-- is done before.
abbrev pub subscribe_handling : Handling
subscribe_handling = record {
  Ends = λ m ss. ss ≡ acked ∷ [];
  Stops = λ m ss. ss ≡ nacked true ∷ [];
  ends_once = λ m ss h. (acked, h);
  stops_once = λ m ss h. (nacked true, h);
  can_end = λ m. (acked ∷ [], refl);
}
