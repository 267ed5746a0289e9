-- ===== src/Bus/Races/Matching/Invariant.antt =====
-- The invariant of the racing calls, at a send and at Subscribe.
use eventbus.Base.{
  ℕ, ◌≤◌, List, [], ◌∷◌, ◌++◌, ◌≡◌, refl, sym, ap, ◌∙◌, fun_ext, inl, inr, Bool, true, ◌&&◌, not,
  Option, none, some, Text, get_elem?, get_elem?-end, arith, length, length-append, Bool-cases, All,
  text_eq_refl,
}
use mathlib.Core.Path.{subst}
use eventbus.Event.{Event}
use eventbus.Channel.{Channel, make}
use eventbus.Channel.Bounds.{length-make, length-send_safe}
use eventbus.Bus.State.{Subscription, Core}
use eventbus.Bus.Table.{subscribe, add_channel, next_channel, channel_size, new_subscription}
use eventbus.Bus.Table.Counts.{count_all, count_all-le, count_all-add_channel, one_if}
use eventbus.Bus.Dispatch.{deliver}
use eventbus.Bus.Lifecycle.Invariant.{
  CoreInv, subscribe-CoreInv, deliver-CoreInv, channels-add_channel,
}
use eventbus.Bus.Races.{Flight, Crowd}
use eventbus.Bus.Races.Closed.{channels-deliver}
use eventbus.Bus.Races.Matching.{made_for, matches, FlightMatches, QueuesMatch}
use eventbus.Bus.Races.Matching.Kept.{
  All-weaken, may_hold-matches, is_topic-append, send_safe-QueuesMatch, make-QueuesMatch,
}

-- No subscription in the tables has a channel that was made for another topic.
abbrev pub Owned : List Text → Core → Type 0
Owned topics w = count_all (λ s. not (made_for topics s)) w ≡ 0

pub record IsMatching (c : Crowd) : Type 0 where
  pub core_inv : CoreInv c.core
  pub enough : length c.topics ≡ length c.core.channels
  pub owned : Owned c.topics c.core
  pub flights : All (FlightMatches c.topics) c.flights
  pub queues : QueuesMatch c.topics c.core.channels

pub All-middle {ℓ κ} :
    {A : Type ℓ} (P : A → Type κ) (xs : List A) (y : A) (zs : List A)
    → All P (xs ++ y ∷ zs)
    → P y × All P (xs ++ zs)
All-middle P [] y zs h = h
All-middle P (x ∷ xs) y zs h = let (here, rest) = All-middle P xs y zs h.1 in (here, (h.0, rest))

All-replace {ℓ κ} :
    {A : Type ℓ} (P : A → Type κ) (xs : List A) (y z : A) (zs : List A)
    → All P (xs ++ y ∷ zs)
    → P z
    → All P (xs ++ z ∷ zs)
All-replace P [] y z zs h p = (p, h.1)
All-replace P (x ∷ xs) y z zs h p = (h.0, All-replace P xs y z zs h.1 p)

count_all-deliver :
    (p : Subscription → Bool) (k : Option ℕ) (s : Subscription) (e : Event) (w : Core)
    → count_all p (deliver k s e w) ≡ count_all p w
unfolding deliver
count_all-deliver p none s e w = refl
count_all-deliver p (some k) s e w = refl

pub sends-IsMatching :
    (before : List Flight) (f : Flight) (s : Subscription) (left : List Subscription)
    (after : List Flight) (c : Crowd)
    → c.flights ≡ before ++ f ∷ after
    → f.left ≡ s ∷ left
    → IsMatching c
    → IsMatching (record c {
      core = deliver f.collector s f.event c.core;
      flights = before ++ record f { left = left } ∷ after;
    })
sends-IsMatching before f s left after c at more h =
    let same = channels-deliver f.collector s f.event c.core in
    let all = subst (All (FlightMatches c.topics)) at h.flights in
    let targets_match = (All-middle (FlightMatches c.topics) before f after all).0 in
    let (one, rest) =
      subst (All (λ s. matches c.topics f.event.topic s ≡ true)) more targets_match in
    record {
      core_inv = deliver-CoreInv f.collector s f.event c.core h.core_inv;
      enough =
          h.enough
          ∙ sym (ap (length {A = Channel}) same ∙ length-send_safe s.ch f.event c.core.channels);
      owned = count_all-deliver _ f.collector s f.event c.core ∙ h.owned;
      flights =
          All-replace (FlightMatches c.topics) before f (record f { left = left }) after all rest;
      queues = subst (QueuesMatch c.topics) (sym same) (
          send_safe-QueuesMatch c.topics s.ch f.event c.core.channels
            (may_hold-matches c.topics f.event.topic s one) h.queues);
    }

-- More channels leave those that there are with their topics.
Owned-append : (topics us : List Text) (w : Core) → Owned topics w → Owned (topics ++ us) w
Owned-append topics us w h =
    let p = λ (s : Subscription). not (made_for topics s) in
    let q = λ (s : Subscription). not (made_for (topics ++ us) s) in
    let narrow : q ≡ (λ s. p s && q s) = fun_ext (λ s. cut s) in
    let less : count_all q w ≤ count_all p w =
      subst (λ f. count_all f w ≤ count_all p w) (sym narrow) (count_all-le p q w) in
    omega (arith, less, h)
  where
    cut :
        (s : Subscription)
        → not (made_for (topics ++ us) s)
          ≡ (not (made_for topics s) && not (made_for (topics ++ us) s))
    cut s = elim (Bool-cases (made_for topics s)) [
      | inl made ↦ rw (made, is_topic-append topics us s.ch s.topic made) refl
      | inr other ↦ rw other refl
    ]

-- The new subscription's channel is made for its topic.
new-made_for :
    (topics : List Text) (seq : ℕ) (t : Text) (ch : ℕ)
    → length topics ≡ ch
    → made_for (topics ++ t ∷ []) (new_subscription seq t ch) ≡ true
unfolding new_subscription
new-made_for topics seq t ch e =
    let last : get_elem? (topics ++ t ∷ []) ch ≡ some t =
      ap (get_elem? (topics ++ t ∷ [])) (sym e) ∙ get_elem?-end topics t in
    rw last (text_eq_refl t)

pub subscribes-IsMatching :
    (t : Text) (c : Crowd)
    → IsMatching c
    → IsMatching (record c { core = (subscribe t c.core).0; topics = c.topics ++ t ∷ [] })
unfolding subscribe
subscribes-IsMatching t c h =
    let w = record (c.core) { channels = make channel_size c.core.channels } in
    let ch = next_channel c.core in
    let topics = c.topics ++ t ∷ [] in
    let same = channels-add_channel t ch w in
    let bad = λ (s : Subscription). not (made_for topics s) in
    let counted = count_all-add_channel bad t ch w in
    let made = new-made_for c.topics (add_channel t ch w).sub_seq t ch h.enough in
    let good : one_if (bad (new_subscription (add_channel t ch w).sub_seq t ch)) ≡ 0 =
      ap (λ b. one_if (not b)) made in
    let before = Owned-append c.topics (t ∷ []) c.core h.owned in
    record {
      core_inv = subscribe-CoreInv t c.core h.core_inv;
      enough =
          length-append c.topics (t ∷ [])
          ∙ omega (arith, h.enough, length-make channel_size c.core.channels)
          ∙ sym (ap (length {A = Channel}) same);
      owned = omega (arith, counted, good, before);
      flights =
          All-weaken _ _ c.flights (λ f. All-weaken _ _ f.left (λ s. grown s f.event.topic))
            h.flights;
      queues =
          subst (QueuesMatch topics) (sym same)
            (make-QueuesMatch c.topics (t ∷ []) channel_size c.core.channels h.queues);
    }
  where
    grown :
        (s : Subscription) (u : Text)
        → matches c.topics u s ≡ true
        → matches (c.topics ++ t ∷ []) u s ≡ true
    grown s u m =
        let made = is_topic-append c.topics (t ∷ []) s.ch s.topic (ground arith) in
        ground (arith, made)
