-- ===== src/Bus/Roster/Removal.antt =====
-- What removeChannel takes out of the tables, whether the channel was subscribed to the topic or not.
use eventbus.Base.{
  ℕ, ◌+◌, ◌<◌, List, [], ◌∷◌, ◌++◌, ◌≡◌, refl, inl, inr, Bool, false, not, ◌&&◌, none, Text,
  text_eq, arith, Bool-cases, ◌==◌, ltb,
}
use eventbus.Wildcard.{is_wildcard_pattern}
use eventbus.Bus.State.{Subscription, WildcardEntry, Core}
use eventbus.Bus.Table.{subs_of, remove_first, remove_wildcard, remove_channel}
use eventbus.Bus.Table.Valid.{IsValid}
use eventbus.Bus.Table.Counts.{
  one_if, count_if, count_all, on_channel, count_if-append, count_all-le,
}
use eventbus.Bus.Table.Counts.Removal.{entry_subs, subs_at, remove_channel-RemovesOne}
use eventbus.Bus.Dispatch.Targets.Removal.{OnePerChannel}
use eventbus.Bus.Dispatch.Targets.Topics.{count_if-subs_at}
use eventbus.Bus.Roster.{all_subs, belongs, count_if-all_subs}

-- Each subscription passes a second test or does not.
split_count :
    (p f : Subscription → Bool) (xs : List Subscription)
    → count_if p xs ≡ count_if (λ s. f s && p s) xs + count_if (λ s. p s && not (f s)) xs
split_count p f [] = refl
split_count p f (s ∷ xs) = ground (arith, split_count p f xs)

count_all-split :
    (p f : Subscription → Bool) (w : Core)
    → count_all p w ≡ count_all (λ s. f s && p s) w + count_all (λ s. p s && not (f s)) w
count_all-split p f w = omega (
  arith,
  split_count p f (all_subs w),
  count_if-all_subs p w,
  count_if-all_subs (λ s. f s && p s) w,
  count_if-all_subs (λ s. p s && not (f s)) w,
)

-- A channel that is not there is not removed.
remove_first-absent :
    (ch : ℕ) (subs : List Subscription)
    → count_if (on_channel ch) subs ≡ 0
    → remove_first ch subs ≡ none
unfolding remove_first
remove_first-absent ch [] h = refl
remove_first-absent ch (s ∷ subs) h =
    let off : (s.ch == ch) ≡ false = ground arith in
    rw (off, remove_first-absent ch subs (omega arith))

remove_wildcard-absent :
    (topic : Text) (ch : ℕ) (es : List WildcardEntry)
    → count_if (on_channel ch) (entry_subs topic es) ≡ 0
    → remove_wildcard topic ch es ≡ es
unfolding remove_wildcard
remove_wildcard-absent topic ch [] h = refl
remove_wildcard-absent topic ch (e ∷ es) h = elim (Bool-cases (text_eq e.pattern topic)) [
  | inr other ↦ rw (other, remove_wildcard-absent topic ch es (rw other at h))
  | inl same ↦
      let h' : count_if (on_channel ch) (e.subs ++ entry_subs topic es) ≡ 0 = rw same at h in
      let both = count_if-append (on_channel ch) e.subs (entry_subs topic es) in
      let here = remove_first-absent ch e.subs (omega arith) in
      rw (same, here, remove_wildcard-absent topic ch es (omega arith))
]

remove_channel-absent :
    (topic : Text) (ch : ℕ) (w : Core)
    → count_if (on_channel ch) (subs_at topic w) ≡ 0
    → remove_channel topic ch w ≡ w
unfolding remove_channel
remove_channel-absent topic ch w h = elim (Bool-cases (is_wildcard_pattern topic)) [
  | inl wild ↦ rw (wild, remove_wildcard-absent topic ch w.wildcard_subs (rw wild at h))
  | inr plain ↦ rw (plain, remove_first-absent ch (subs_of topic w.subscribers) (rw plain at h))
]

module _ (topic : Text) (ch : ℕ) (w : Core) (v : IsValid w) (one : OnePerChannel w) where
  abbrev w' : Core
  w' = remove_channel topic ch w

  -- Nothing that belongs to the channel and the topic is left.
  pub none_left : count_all (belongs topic ch) w' ≡ 0
  none_left = elim (Bool-cases (ltb 0 (count_if (on_channel ch) (subs_at topic w)))) [
    | inl there ↦
        let (s, on, counts) = remove_channel-RemovesOne topic ch w (ground arith) in
        let hit : one_if (on_channel ch s) ≡ 1 = ground arith in
        omega (
          arith,
          hit,
          counts (on_channel ch),
          one ch,
          count_all-le (on_channel ch) (λ s. text_eq s.topic topic) w',
        )
    | inr gone ↦
        let absent = count_if-subs_at (on_channel ch) topic w v in
        rw (remove_channel-absent topic ch w (ground arith)) (ground arith)
  ]

  -- And nothing else is missing.
  others_stay :
      (p : Subscription → Bool)
      → count_all (λ s. p s && not (belongs topic ch s)) w'
        ≡ count_all (λ s. p s && not (belongs topic ch s)) w
  others_stay p = elim (Bool-cases (ltb 0 (count_if (on_channel ch) (subs_at topic w)))) [
    | inl there ↦
        let (s, on, counts) = remove_channel-RemovesOne topic ch w (ground arith) in
        let some_there : 0 < count_if (on_channel ch) (subs_at topic w) = ground arith in
        let made : 0 < one_if (belongs topic ch s) = omega (
          arith,
          some_there,
          none_left,
          counts (belongs topic ch),
          count_if-subs_at (on_channel ch) topic w v,
        ) in
        let out : one_if (p s && not (belongs topic ch s)) ≡ 0 = ground arith in
        omega (arith, out, counts (λ s. p s && not (belongs topic ch s)))
    | inr gone ↦ rw (remove_channel-absent topic ch w (ground arith))
  ]

  -- In well-formed tables with one subscription to a channel at most, what removeChannel leaves is
  -- all that did not belong to the channel and the topic.
  pub count_all-removed :
      (p : Subscription → Bool)
      → count_all p w' ≡ count_all (λ s. p s && not (belongs topic ch s)) w
  count_all-removed p = omega (
    arith,
    count_all-split p (belongs topic ch) w',
    count_all-le (belongs topic ch) p w',
    none_left,
    others_stay p,
  )
