-- ===== src/Bus/Table/RoundTrip.antt =====
-- removeChannel undoes addChannel.
use eventbus.Base.{
  ℕ, ◌+◌, ◌≤◌, List, [], ◌∷◌, ◌++◌, ◌≡◌, ◌≢◌, refl, ◌∙◌, ap, inl, inr, Bool, true, false, some,
  Text, arith, All, Bool-cases, ◌==◌, if◌then◌else◌, text_eq, text_eq_refl, text_eq_iff, text_eq→eq,
}
use eventbus.Base.Order.{u64}
use eventbus.Wildcard.{is_wildcard_pattern}
use eventbus.Bus.State.{Subscription, WildcardEntry, Core}
use eventbus.Bus.Table.{
  subs_of, put_subs, add_wildcard, add_channel, remove_first, remove_wildcard, remove_channel,
  new_subscription, shrink_entry,
}
use eventbus.Bus.Table.Valid.{IsValid, WildEntry}
use eventbus.Bus.Table.Counts.{count_if, count_exact, count_wild, count_all, on_channel}

-- A lookup after a store.
pub subs_of-put_subs :
    (t u : Text) (subs : List Subscription) (m : List (Text × List Subscription))
    → subs_of u (put_subs t subs m) ≡ (if text_eq t u then subs else subs_of u m)
unfolding subs_of put_subs
subs_of-put_subs t u subs [] = refl
subs_of-put_subs t u subs ((k, old) ∷ m) =
    ground (arith, text_eq_iff k t, text_eq_iff k u, text_eq_iff t u, subs_of-put_subs t u subs m)

remove_first-end :
    (ch : ℕ) (s : Subscription) (subs : List Subscription)
    → s.ch ≡ ch
    → count_if (on_channel ch) subs ≡ 0
    → remove_first ch (subs ++ s ∷ []) ≡ some subs
unfolding remove_first
remove_first-end ch s [] e h = ground arith
remove_first-end ch s (x ∷ subs) e h =
    let ih = remove_first-end ch s subs e (ground arith) in
    let off : (x.ch == ch) ≡ false = ground arith in rw (off, ih)

shrink_entry_self :
    (x : WildcardEntry) (es : List WildcardEntry) (more subs : List Subscription)
    → x.subs ≡ subs
    → subs ≢ []
    → shrink_entry (record x { subs = more }) es subs ≡ x ∷ es
shrink_entry_self x es more [] same h = absurd (h refl)
shrink_entry_self x es more (s ∷ subs) same h = ground arith

remove_wildcard-add_wildcard :
    (t : Text) (ch : ℕ) (s : Subscription) (es : List WildcardEntry)
    → s.ch ≡ ch
    → All WildEntry es
    → count_wild (on_channel ch) es ≡ 0
    → remove_wildcard t ch (add_wildcard t s es) ≡ es
unfolding remove_wildcard add_wildcard
remove_wildcard-add_wildcard t ch s [] e w h = rw (text_eq_refl t, remove_first-end ch s [] e refl)
remove_wildcard-add_wildcard t ch s (x ∷ es) e w h =
    let ih = remove_wildcard-add_wildcard t ch s es e w.1 (omega arith) in
    elim (Bool-cases (text_eq x.pattern t)) [
      | inl same ↦
          rw (same, same, remove_first-end ch s x.subs e (omega arith))
            (shrink_entry_self x es (x.subs ++ s ∷ []) x.subs refl w.0.2)
      | inr differs ↦ rw (differs, differs, ih)
    ]

count_if-subs_of :
    (p : Subscription → Bool) (t : Text) (m : List (Text × List Subscription))
    → count_if p (subs_of t m) ≤ count_exact p m
unfolding subs_of
count_if-subs_of p t [] = omega arith
count_if-subs_of p t ((k, subs) ∷ m) =
    let ih = count_if-subs_of p t m in
    elim (Bool-cases (text_eq k t)) [ inl e ↦ rw e (omega arith) | inr e ↦ rw e (omega arith) ]

-- What a subscription and its removal leave of the exact table, topic by topic.
exact_again :
    (t u : Text) (more : List Subscription) (m : List (Text × List Subscription))
    → subs_of u (put_subs t (subs_of t m) (put_subs t more m)) ≡ subs_of u m
exact_again t u more m =
    subs_of-put_subs t u (subs_of t m) (put_subs t more m) ∙ (elim (Bool-cases (text_eq t u)) [
      | inl same ↦ rw same (ap (λ v. subs_of v m) (text_eq→eq t u same))
      | inr differs ↦ rw differs (subs_of-put_subs t u more m ∙ rw differs)
    ])

-- The sequence number and the subscription that addChannel takes next.
abbrev next_seq : Core → ℕ
next_seq w = u64 (w.sub_seq + 1)

abbrev next_subscription : Text → ℕ → Core → Subscription
next_subscription t ch w = new_subscription (next_seq w) t ch

abbrev added_plain : Text → ℕ → Core → Core
added_plain t ch w = record w {
  sub_seq = next_seq w;
  subscribers = put_subs t (subs_of t w.subscribers ++ next_subscription t ch w ∷ []) w.subscribers;
}

abbrev added_wild : Text → ℕ → Core → Core
added_wild t ch w = record w {
  sub_seq = next_seq w;
  wildcard_subs = add_wildcard t (next_subscription t ch w) w.wildcard_subs;
}

add_channel_plain :
    (t : Text) (ch : ℕ) (w : Core)
    → is_wildcard_pattern t ≡ false
    → add_channel t ch w ≡ added_plain t ch w
unfolding add_channel
add_channel_plain t ch w h = rw h

add_channel_wild :
    (t : Text) (ch : ℕ) (w : Core)
    → is_wildcard_pattern t ≡ true
    → add_channel t ch w ≡ added_wild t ch w
unfolding add_channel
add_channel_wild t ch w h = rw h

remove_channel_plain :
    (t : Text) (ch : ℕ) (w : Core) (subs : List Subscription)
    → is_wildcard_pattern t ≡ false
    → remove_first ch (subs_of t w.subscribers) ≡ some subs
    → remove_channel t ch w ≡ record w { subscribers = put_subs t subs w.subscribers }
unfolding remove_channel
remove_channel_plain t ch w subs h found = rw (h, found)

remove_channel_wild :
    (t : Text) (ch : ℕ) (w : Core)
    → is_wildcard_pattern t ≡ true
    → remove_channel t ch w ≡ record w { wildcard_subs = remove_wildcard t ch w.wildcard_subs }
unfolding remove_channel
remove_channel_wild t ch w h = rw h

next_subscription-ch : (t : Text) (ch : ℕ) (w : Core) → (next_subscription t ch w).ch ≡ ch
unfolding new_subscription
next_subscription-ch t ch w = refl

-- Where no subscription holds the channel, addChannel and then removeChannel leave the wildcard
-- entries as they were, and under every topic of the exact table the same subscriptions.
pub remove_channel-add_channel :
    (t : Text) (ch : ℕ) (w : Core)
    → IsValid w
    → count_all (on_channel ch) w ≡ 0
    → let w' = remove_channel t ch (add_channel t ch w) in
      (w'.wildcard_subs ≡ w.wildcard_subs)
      × ((u : Text) → subs_of u w'.subscribers ≡ subs_of u w.subscribers)
remove_channel-add_channel t ch w v h =
    let s = next_subscription t ch w in
    let on = next_subscription-ch t ch w in
    elim (Bool-cases (is_wildcard_pattern t)) [
      | inl wild ↦
          rw (add_channel_wild t ch w wild, remove_channel_wild t ch (added_wild t ch w) wild)
            (remove_wildcard-add_wildcard t ch s w.wildcard_subs on v.wild (omega arith), λ u. refl)
      | inr plain ↦
          let more = subs_of t w.subscribers ++ s ∷ [] in
          let stored : subs_of t (put_subs t more w.subscribers) ≡ more =
            subs_of-put_subs t t more w.subscribers ∙ rw (text_eq_refl t) in
          let found =
            remove_first-end ch s (subs_of t w.subscribers) on
              (omega (arith, count_if-subs_of (on_channel ch) t w.subscribers)) in
          rw
            (
              add_channel_plain t ch w plain,
              remove_channel_plain t ch (added_plain t ch w) (subs_of t w.subscribers) plain
                  (ap (remove_first ch) stored ∙ found),
            )
            (refl, λ u. exact_again t u more w.subscribers)
    ]
