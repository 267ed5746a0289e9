-- ===== src/Amqp/Client/Batches.antt =====
-- Batches of messages: which ones are reported as failed, and that the two ways to publish them agree.
use eventbus.Base.{
  ℕ, zero, suc, ◌+◌, List, [], ◌∷◌, ◌≡◌, refl, ap, ◌∙◌, ◌↔◌, inl, inr, Bool, true, false, Option,
  none, some, Text, contains, get_elem?, ◌<◌, ◌≢◌, text_eq, Option-cases, if◌then◌else◌, arith,
}
use eventbus.Errors.{Error}
use eventbus.Event.{Event}
use eventbus.Amqp.Client.{Publish, Broker, Act}
use eventbus.Amqp.Client.Messages.{
  Encoding, Encoded, body, cannot, publish_encoded, Ended, returned, panicked, BatchMessage,
  PublishResult, publish_one, batch_next, batch_from, publish_batch, async_next, unless_done,
  async_from, publish_async, publish_message, send_to_mq,
}

abbrev pub failed_indices : List PublishResult → List ℕ
failed_indices [] = []
failed_indices (r ∷ rs) = elim r.error [
  | none ↦ failed_indices rs
  | some err ↦ r.index ∷ failed_indices rs
]

abbrev pub failures : Option (List PublishResult) → Option (List ℕ)
failures none = none
failures (some rs) = some (failed_indices rs)

module _ (p : Publish) (enc : Encoding) (brokers : ℕ → Broker) where
  next_agree :
      (i : ℕ) (one : List Act × Ended) (acts : List Act) (rest : Option (List PublishResult))
      → let (acts', results) = async_next p enc brokers i one (acts, rest) in
        batch_next p enc brokers i one (acts, failures rest) ≡ (acts', failures results)
  next_agree i (a, panicked) acts rest = refl
  next_agree i (a, returned none) acts none = refl
  next_agree i (a, returned (some err)) acts none = refl
  next_agree i (a, returned none) acts (some rs) = refl
  next_agree i (a, returned (some err)) acts (some rs) = refl

  nothing_left :
      (done : ℕ → Option Error) (i : ℕ)
      → let (acts, results) = async_from p enc brokers done i [] in
        batch_from p enc brokers i [] ≡ (acts, failures results)
  unfolding batch_from async_from
  nothing_left done i = refl

  batch_step :
      (i : ℕ) (bm : BatchMessage) (bms : List BatchMessage)
      → batch_from p enc brokers i (bm ∷ bms)
        ≡ batch_next p enc brokers i
            (publish_one p enc brokers i bm)
            (batch_from p enc brokers (i + 1) bms)
  unfolding batch_from
  batch_step i bm bms = refl

  async_step :
      (done : ℕ → Option Error) (i : ℕ) (bm : BatchMessage) (bms : List BatchMessage)
      → done i ≡ none
      → async_from p enc brokers done i (bm ∷ bms)
        ≡ async_next p enc brokers i
            (publish_one p enc brokers i bm)
            (async_from p enc brokers done (i + 1) bms)
  unfolding async_from
  async_step done i bm bms h =
      ap
        (λ d. unless_done p enc brokers i d (
          async_next p enc brokers i (publish_one p enc brokers i bm)
            (async_from p enc brokers done (i + 1) bms)))
        h

  batch_from-async_from :
      (done : ℕ → Option Error) (i : ℕ) (bms : List BatchMessage)
      → ((j : ℕ) → done j ≡ none)
      → let (acts, results) = async_from p enc brokers done i bms in
        batch_from p enc brokers i bms ≡ (acts, failures results)
  batch_from-async_from done i [] never = nothing_left done i
  batch_from-async_from done i (bm ∷ bms) never =
      let ih = batch_from-async_from done (i + 1) bms never in
      let (acts, rest) = async_from p enc brokers done (i + 1) bms in
      rw (async_step done i bm bms (never i), batch_step i bm bms, ih)
        (next_agree i (publish_one p enc brokers i bm) acts rest)

  abbrev pub is_failure : Ended → Bool
  is_failure (returned none) = false
  is_failure (returned (some err)) = true
  is_failure panicked = false

  -- There is a message of the number `j`, and its Publish returns an error.
  abbrev pub fails_at : ℕ → Option BatchMessage → Bool
  fails_at j none = false
  fails_at j (some bm) = is_failure (publish_one p enc brokers j bm).1

  none_failed :
      (i : ℕ) (failed : List ℕ) → (batch_from p enc brokers i []).1 ≡ some failed → failed ≡ []
  unfolding batch_from
  none_failed i failed e = ground arith

  -- A message that did not panic, and the indices of those behind it.
  next_failed :
      (i : ℕ) (one : List Act × Ended) (more : List Act × Option (List ℕ)) (failed : List ℕ)
      → (batch_next p enc brokers i one more).1 ≡ some failed
      → (rest : List ℕ) × (more.1 ≡ some rest)
        × (failed ≡ (if is_failure one.1 then i ∷ rest else rest))
  next_failed i (a, panicked) more failed e = absurd (ground arith)
  next_failed i (a, returned none) (b, none) failed e = absurd (ground arith)
  next_failed i (a, returned (some err)) (b, none) failed e = absurd (ground arith)
  next_failed i (a, returned none) (b, some rest) failed e = (rest, refl, ground arith)
  next_failed i (a, returned (some err)) (b, some rest) failed e = (rest, refl, ground arith)

  -- The indices from a message's own on.
  contains-below :
      (i x : ℕ) (bms : List BatchMessage) (failed : List ℕ)
      → (batch_from p enc brokers i bms).1 ≡ some failed
      → x < i
      → contains x failed ≡ false
  contains-below i x [] failed e lt = ap (contains x) (none_failed i failed e)
  contains-below i x (bm ∷ bms) failed e lt =
      let (rest, more, all) =
        next_failed i (publish_one p enc brokers i bm) (batch_from p enc brokers (i + 1) bms) failed
          (rw (← batch_step i bm bms) e) in
      let ih = contains-below (i + 1) x bms rest more (omega arith) in
      ap (contains x) all ∙ ground (arith, ih)

  contains-batch_from :
      (i j x : ℕ) (bms : List BatchMessage) (failed : List ℕ)
      → i + j ≡ x
      → (batch_from p enc brokers i bms).1 ≡ some failed
      → contains x failed ≡ fails_at x (get_elem? bms j)
  contains-batch_from i j x [] failed at e = ap (contains x) (none_failed i failed e)
  contains-batch_from i zero x (bm ∷ bms) failed at e =
      let (rest, more, all) =
        next_failed i (publish_one p enc brokers i bm) (batch_from p enc brokers (i + 1) bms) failed
          (rw (← batch_step i bm bms) e) in
      let same : x ≡ i = omega arith in
      let below = contains-below (i + 1) i bms rest more (omega arith) in
      rw same (ap (contains i) all ∙ ground (arith, below))
  contains-batch_from i (suc j) x (bm ∷ bms) failed at e =
      let (rest, more, all) =
        next_failed i (publish_one p enc brokers i bm) (batch_from p enc brokers (i + 1) bms) failed
          (rw (← batch_step i bm bms) e) in
      let ih = contains-batch_from (i + 1) j x bms rest (omega arith) more in
      ap (contains x) all ∙ ground (arith, ih)

-- PublishBatch, if it does not panic, reports the index of a message exactly if there is such a message
-- and its Publish returns an error.
pub contains-publish_batch :
    (p : Publish) (enc : Encoding) (brokers : ℕ → Broker) (bms : List BatchMessage)
    (failed : List ℕ)
    → (publish_batch p enc brokers bms).1 ≡ some failed
    → (j : ℕ) → contains j failed ≡ fails_at p enc brokers j (get_elem? bms j)
contains-publish_batch p enc brokers bms failed e j =
    contains-batch_from p enc brokers 0 j j bms failed (omega arith) e

-- If the context is never done, PublishAsync makes the same publications as PublishBatch, in the same
-- order, and the indices of its results with an error are the ones that PublishBatch reports; one
-- panics if the other does.
pub publish_batch-publish_async :
    (p : Publish) (enc : Encoding) (brokers : ℕ → Broker) (done : ℕ → Option Error)
    (bms : List BatchMessage)
    → ((j : ℕ) → done j ≡ none)
    → let (acts, results) = publish_async p enc brokers done bms in
      publish_batch p enc brokers bms ≡ (acts, failures results)
publish_batch-publish_async p enc brokers done bms never =
    batch_from-async_from p enc brokers done 0 bms never

publish_encoded_returns :
    (p : Publish) (key id : Text) (broker : Broker) (x : Encoded)
    → (publish_encoded p key id broker x).1 ≢ panicked
publish_encoded_returns p key id broker (cannot err) e = ground arith
publish_encoded_returns p key id broker (body b) e = ground arith

-- sendToMQ panics exactly for an event whose payload is nil.
pub send_to_mq-panics :
    (p : Publish) (enc : Encoding) (e : Event) (broker : Broker)
    → ((send_to_mq p enc e broker).1 ≡ panicked) ↔ (enc.type_name e.payload ≡ none)
unfolding send_to_mq publish_message text_eq
send_to_mq-panics p enc e broker = elim (Option-cases (enc.type_name e.payload)) [
  | inl nil_payload ↦ (λ h. nil_payload, λ h. rw nil_payload refl)
  | inr (t, typed) ↦ (
    λ h. absurd (publish_encoded_returns p e.topic e.id broker _ (rw typed at h)),
    λ h. absurd (ground arith),
  )
]
