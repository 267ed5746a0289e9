-- ===== src/Bus/Lifecycle/Close.antt =====
-- Close leaves nothing behind: no subscription, no open channel that was subscribed.
use eventbus.Base.{
  ℕ, ◌<◌, List, [], ◌∷◌, ◌≡◌, ◌≢◌, refl, sym, ◌∙◌, ap, inl, inr, ◌⊎◌, Bool, true, ◌||◌, Option,
  none, some, Text, arith, Bool-cases, Option-cases, get_elem?, get_elem?-set_self,
  get_elem?-set_ne, ◌==◌,
}
use eventbus.Channel.{Channel, Channels, close_safe}
use eventbus.Bus.State.{Subscription, WildcardEntry, Core, AsyncSub}
use eventbus.Bus.Table.{remove_channel, subs_of}
use eventbus.Bus.Table.Counts.{count_if, count_exact, count_wild, count_all, on_channel}
use eventbus.Bus.Table.Counts.Removal.{remove_channel-others, channels-remove_channel}
use eventbus.Bus.Dispatch.{wildcard_hits}
use eventbus.Bus.Dispatch.Targets.{targets}
use eventbus.Bus.Chain.{EventBus}
use eventbus.Bus.Lifecycle.{
  erase_first, unsubscribe, unsubscribe_all, release_sub, close_subs, close_exact, close_wild,
  close_tables, close,
}

-- Closed, or not there at all.
abbrev shut : Option Channel → Bool
shut none = true
shut (some c) = c.closed

shut_at : ℕ → Channels → Bool
shut_at i chs = shut (get_elem? chs i)

shut_at-close_safe :
    (i j : ℕ) (chs : Channels) → shut_at j (close_safe i chs) ≡ (i == j || shut_at j chs)
unfolding close_safe shut_at
shut_at-close_safe i j chs = elim (Option-cases (get_elem? chs i)) [
  | inl missing ↦ rw missing (ground arith)
  | inr (c, found) ↦ elim (Bool-cases (i == j)) [
    | inl same ↦
        let same' : j ≡ i = ground arith in
        let written = get_elem?-set_self chs i (record c { closed = true }) c found in
        rw (same', found) (ground (arith, written))
    | inr other ↦
        let other' : i ≢ j = λ q. ground arith in
        let kept = get_elem?-set_ne chs (record c { closed = true }) other' in
        rw (other, found) (ground (arith, kept))
  ]
]

-- The channel is closed already, or will be by the loop over these subscriptions.
close_subs-shut :
    (j : ℕ) (subs : List Subscription) (chs : Channels)
    → (shut_at j chs ≡ true) ⊎ (0 < count_if (on_channel j) subs)
    → shut_at j (close_subs subs chs) ≡ true
unfolding close_subs
close_subs-shut j [] chs (inl h) = h
close_subs-shut j [] chs (inr h) = absurd (omega arith)
close_subs-shut j (s ∷ subs) chs h =
    close_subs-shut j subs (close_safe s.ch chs) (ground (arith, shut_at-close_safe s.ch j chs))

close_exact-shut :
    (j : ℕ) (m : List (Text × List Subscription)) (chs : Channels)
    → (shut_at j chs ≡ true) ⊎ (0 < count_exact (on_channel j) m)
    → shut_at j (close_exact m chs) ≡ true
unfolding close_exact
close_exact-shut j [] chs (inl h) = h
close_exact-shut j [] chs (inr h) = absurd (omega arith)
close_exact-shut j ((t, subs) ∷ m) chs h =
    close_exact-shut j m (close_subs subs chs) (ground (arith, close_subs-shut j subs chs))

close_wild-shut :
    (j : ℕ) (es : List WildcardEntry) (chs : Channels)
    → (shut_at j chs ≡ true) ⊎ (0 < count_wild (on_channel j) es)
    → shut_at j (close_wild es chs) ≡ true
unfolding close_wild
close_wild-shut j [] chs (inl h) = h
close_wild-shut j [] chs (inr h) = absurd (omega arith)
close_wild-shut j (e ∷ es) chs h =
    close_wild-shut j es (close_subs e.subs chs) (ground (arith, close_subs-shut j e.subs chs))

-- The channel is closed, or some subscription still holds it.
abbrev Settled : ℕ → Core → Type 0
Settled j w = (shut_at j w.channels ≡ true) ⊎ (0 < count_all (on_channel j) w)

close_tables-shut : (j : ℕ) (w : Core) → Settled j w → shut_at j (close_tables w).channels ≡ true
unfolding close_tables
close_tables-shut j w h =
    close_wild-shut j w.wildcard_subs (close_exact w.subscribers w.channels)
      (ground (arith, close_exact-shut j w.subscribers w.channels))

release_sub-Settled :
    (j i : ℕ) (sub : AsyncSub) (eb : EventBus)
    → Settled j eb.core
    → Settled j (release_sub i sub eb).core
unfolding release_sub
release_sub-Settled j i sub eb h =
    let w = remove_channel sub.topic sub.ch eb.core in
    let closed = shut_at-close_safe sub.ch j w.channels in
    let same = channels-remove_channel sub.topic sub.ch eb.core in
    elim (Bool-cases (sub.ch == j)) [
      | inl hit ↦ inl (closed ∙ rw hit)
      | inr miss ↦
          let counts = remove_channel-others j sub.topic sub.ch eb.core miss in
          let kept : shut_at j (close_safe sub.ch w.channels) ≡ shut_at j eb.core.channels =
            closed ∙ rw miss (ap (shut_at j) same) in
          elim h [ inl s ↦ inl (kept ∙ s) | inr c ↦ inr (omega (arith, counts)) ]
    ]

unsubscribe-Settled :
    (j i : ℕ) (eb : EventBus) → Settled j eb.core → Settled j (unsubscribe i eb).core
unfolding unsubscribe
unsubscribe-Settled j i eb h = elim (Option-cases (get_elem? eb.async_subs i)) [
  | inl missing ↦ rw missing h
  | inr (sub, found) ↦ rw found (elim (Bool-cases sub.once) [
    | inl done ↦ simp done h
    | inr first ↦ simp first (release_sub-Settled j i sub eb h)
  ])
]

unsubscribe_all-Settled :
    (j : ℕ) (is : List ℕ) (eb : EventBus)
    → Settled j eb.core
    → Settled j (unsubscribe_all is eb).core
unfolding unsubscribe_all
unsubscribe_all-Settled j [] eb h = h
unsubscribe_all-Settled j (i ∷ is) eb h =
    unsubscribe_all-Settled j is (unsubscribe i eb) (unsubscribe-Settled j i eb h)

-- A channel that some subscription in the tables held when Close was called is closed when it returns,
-- if there is such a channel.
pub close-closes :
    (eb : EventBus) (ch : ℕ) (c : Channel)
    → 0 < count_all (on_channel ch) eb.core
    → get_elem? (close eb).core.channels ch ≡ some c
    → c.closed ≡ true
unfolding close shut_at
close-closes eb ch c h found =
    let eb' = unsubscribe_all eb.active_subs (record eb { active_subs = [] }) in
    sym (ap shut found)
    ∙ close_tables-shut ch eb'.core
        (unsubscribe_all-Settled ch eb.active_subs (record eb { active_subs = [] }) (inr h))

unsubscribe-no_active :
    (i : ℕ) (eb : EventBus) → eb.active_subs ≡ [] → (unsubscribe i eb).active_subs ≡ []
unfolding unsubscribe release_sub erase_first
unsubscribe-no_active i eb h = elim (Option-cases (get_elem? eb.async_subs i)) [
  | inl missing ↦ rw missing h
  | inr (sub, found) ↦ rw found (ground arith)
]

unsubscribe_all-no_active :
    (is : List ℕ) (eb : EventBus) → eb.active_subs ≡ [] → (unsubscribe_all is eb).active_subs ≡ []
unfolding unsubscribe_all
unsubscribe_all-no_active [] eb h = h
unsubscribe_all-no_active (i ∷ is) eb h =
    unsubscribe_all-no_active is (unsubscribe i eb) (unsubscribe-no_active i eb h)

-- After Close no subscription is tracked or stored, whatever the bus held, and an event of any topic
-- has nobody to go to.
pub close_lem :
    (eb : EventBus)
    → let eb' = close eb in
      (eb'.active_subs ≡ [])
      × ((p : Subscription → Bool) → count_all p eb'.core ≡ 0)
      × ((t : Text) → targets eb'.core t ≡ [])
unfolding close close_tables
close_lem eb = (
  unsubscribe_all-no_active eb.active_subs (record eb { active_subs = [] }) refl,
  (λ p. refl),
  λ t. no_hits t,
)
  where
    no_hits : (t : Text) → targets (close eb).core t ≡ []
    no_hits t = unfold subs_of wildcard_hits in refl
