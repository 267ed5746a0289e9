-- ===== src/Bus/Dispatch/Targets/Topics.antt =====
-- The subscriptions that were made for a topic, counted over the whole bus, and what removeChannel
-- does to those for other channels.
use mathlib.Core.Path.{subst}
use eventbus.Base.{
  ℕ, ◌<◌, List, [], ◌∷◌, ◌≡◌, refl, ap, inl, inr, Bool, true, false, not, ◌&&◌, Text, text_eq,
  text_eq→eq, arith, All, Bool-cases, ◌==◌, if◌then◌else◌,
}
use eventbus.Wildcard.{is_wildcard_pattern}
use eventbus.Bus.State.{Subscription, WildcardEntry, Core}
use eventbus.Bus.Table.{subs_of, remove_channel}
use eventbus.Bus.Table.Valid.{IsValid, ExactEntry, WildEntry, KeyAbsent, DistinctKeys}
use eventbus.Bus.Table.Counts.{
  one_if, count_if, count_exact, count_wild, count_all, on_channel, count_if-append,
}
use eventbus.Bus.Table.Counts.Removal.{entry_subs, subs_at, remove_channel-RemovesOne}
use eventbus.Bus.Dispatch.Targets.{count_if-uniform, All-map}

-- A pattern is no plain topic.
kinds_differ :
    (k t : Text) (b : Bool)
    → is_wildcard_pattern k ≡ b
    → is_wildcard_pattern t ≡ not b
    → text_eq k t ≡ false
kinds_differ k t b hk ht = elim (Bool-cases (text_eq k t)) [
  | inl same ↦ absurd (clash b hk ht (ap is_wildcard_pattern (text_eq→eq k t same)))
  | inr other ↦ other
]
  where
    clash :
        (b : Bool)
        → is_wildcard_pattern k ≡ b
        → is_wildcard_pattern t ≡ not b
        → is_wildcard_pattern k ≡ is_wildcard_pattern t
        → ⊥
    clash true hk ht e = cc
    clash false hk ht e = cc

module _ (p : Subscription → Bool) (t : Text) where
  abbrev for_topic : Subscription → Bool
  for_topic s = p s && text_eq s.topic t

  for_key :
      (k : Text) (subs : List Subscription)
      → All (λ s. s.topic ≡ k) subs
      → count_if for_topic subs ≡ (if text_eq k t then count_if p subs else 0)
  for_key k subs h =
      count_if-uniform p (λ s. text_eq s.topic t) (text_eq k t) subs
        (All-map subs (λ s e. ap (λ u. text_eq u t) e) h)

  for_topic-absent :
      (m : List (Text × List Subscription))
      → All ExactEntry m
      → KeyAbsent t m
      → count_exact for_topic m ≡ 0
  for_topic-absent [] h a = refl
  for_topic-absent ((k, subs) ∷ m) h a =
      ground (arith, for_key k subs h.0.1, for_topic-absent m h.1 a.1)

  for_topic-exact :
      (m : List (Text × List Subscription))
      → All ExactEntry m
      → DistinctKeys m
      → count_exact for_topic m ≡ count_if p (subs_of t m)
  unfolding subs_of
  for_topic-exact [] h d = refl
  for_topic-exact ((k, subs) ∷ m) h d =
      let here = for_key k subs h.0.1 in
      elim (Bool-cases (text_eq k t)) [
        | inl e ↦
            let absent = subst (λ u. KeyAbsent u m) (text_eq→eq k t e) d.0 in
            rw e (omega (arith, rw e at here, for_topic-absent m h.1 absent))
        | inr e ↦ rw e (omega (arith, rw e at here, for_topic-exact m h.1 d.1))
      ]

  for_topic-wild :
      (es : List WildcardEntry)
      → All WildEntry es
      → count_wild for_topic es ≡ count_if p (entry_subs t es)
  for_topic-wild [] h = refl
  for_topic-wild (e ∷ es) h =
      let here = for_key e.pattern e.subs h.0.3 in
      elim (Bool-cases (text_eq e.pattern t)) [
        | inl same ↦ rw same (
            omega (
              arith,
              rw same at here,
              for_topic-wild es h.1,
              count_if-append p e.subs (entry_subs t es),
            ))
        | inr other ↦ rw other (omega (arith, rw other at here, for_topic-wild es h.1))
      ]

  for_topic-plain :
      (es : List WildcardEntry)
      → All WildEntry es
      → is_wildcard_pattern t ≡ false
      → count_wild for_topic es ≡ 0
  for_topic-plain [] h plain = refl
  for_topic-plain (e ∷ es) h plain = ground (
    arith,
    for_key e.pattern e.subs h.0.3,
    kinds_differ e.pattern t true h.0.0 plain,
    for_topic-plain es h.1 plain,
  )

  for_topic-pattern :
      (m : List (Text × List Subscription))
      → All ExactEntry m
      → is_wildcard_pattern t ≡ true
      → count_exact for_topic m ≡ 0
  for_topic-pattern [] h wild = refl
  for_topic-pattern ((k, subs) ∷ m) h wild =
      ground (
        arith,
        for_key k subs h.0.1,
        kinds_differ k t false h.0.0 wild,
        for_topic-pattern m h.1 wild,
      )

  -- The subscriptions that stand where the topic is looked up are those that were made for it.
  pub count_if-subs_at : (w : Core) → IsValid w → count_if p (subs_at t w) ≡ count_all for_topic w
  count_if-subs_at w v = elim (Bool-cases (is_wildcard_pattern t)) [
    | inl wild ↦ rw wild (
        omega (
          arith,
          for_topic-wild w.wildcard_subs v.wild,
          for_topic-pattern w.subscribers v.exact wild,
        ))
    | inr plain ↦ rw plain (
        omega (
          arith,
          for_topic-exact w.subscribers v.exact v.keys,
          for_topic-plain w.wildcard_subs v.wild plain,
        ))
  ]

-- The subscriptions that hold a channel and were made for a topic.
abbrev pub holds : Text → ℕ → Core → ℕ
holds t ch w = count_all (λ s. on_channel ch s && text_eq s.topic t) w

other_channel :
    (s : Subscription) (ch other : ℕ) (b : Bool)
    → s.ch ≡ ch
    → (other == ch) ≡ false
    → one_if (on_channel other s && b) ≡ 0
other_channel s ch other b on ne = ground arith

-- removeChannel for a channel that is subscribed to a topic leaves the other channels' subscriptions.
pub holds-remove_channel :
    (topic : Text) (ch : ℕ) (w : Core)
    → IsValid w
    → 0 < holds topic ch w
    → (t : Text) (other : ℕ) → (other == ch) ≡ false
    → holds t other (remove_channel topic ch w) ≡ holds t other w
holds-remove_channel topic ch w v there t other ne =
    let (s, on, counts) =
      remove_channel-RemovesOne topic ch w
        (omega (arith, count_if-subs_at (on_channel ch) topic w v)) in
    omega (
      arith,
      counts (λ r. on_channel other r && text_eq r.topic t),
      other_channel s ch other (text_eq s.topic t) on ne,
    )
