-- ===== src/Bus/Lifecycle/Closing.antt =====
-- What the closing loops of Close in bus.go do to each channel.
use eventbus.Base.{
  ℕ, List, [], ◌∷◌, ◌≡◌, ◌≢◌, refl, ◌∙◌, inl, inr, Bool, true, false, ◌||◌, Option, none, some,
  Text, get_elem?, arith, ltb, Option-cases, Bool-cases, ◌==◌, get_elem?-set_self, get_elem?-set_ne,
}
use eventbus.Event.{Event}
use eventbus.Channel.{Channel, Channels, close_safe, receive, receive_from}
use eventbus.Bus.State.{Subscription, WildcardEntry, Core}
use eventbus.Bus.Table.Counts.{count_if, count_exact, count_wild, count_all, on_channel}
use eventbus.Bus.Lifecycle.{close_subs, close_exact, close_wild, close_tables}

abbrev pub shut_if : Bool → Option Channel → Option Channel
shut_if b none = none
shut_if true (some c) = some (record c { closed = true })
shut_if false (some c) = some c

shut_if-same : (o : Option Channel) → shut_if false o ≡ o
shut_if-same none = refl
shut_if-same (some c) = refl

shut_if-twice : (a b : Bool) (o : Option Channel) → shut_if a (shut_if b o) ≡ shut_if (b || a) o
shut_if-twice a b none = refl
shut_if-twice true true (some c) = refl
shut_if-twice true false (some c) = refl
shut_if-twice false true (some c) = refl
shut_if-twice false false (some c) = refl

pub close_safe-get :
    (i j : ℕ) (chs : Channels) → get_elem? (close_safe i chs) j ≡ shut_if (i == j) (get_elem? chs j)
unfolding close_safe
close_safe-get i j chs = elim (Option-cases (get_elem? chs i)) [
  | inl missing ↦ elim (Bool-cases (i == j)) [
    | inl same ↦ let same' : j ≡ i = ground arith in rw (same', missing, missing) refl
    | inr other ↦ rw (other, missing, shut_if-same (get_elem? chs j)) refl
  ]
  | inr (c, found) ↦ elim (Bool-cases (i == j)) [
    | inl same ↦
        let same' : j ≡ i = ground arith in
        let written = get_elem?-set_self chs i (record c { closed = true }) c found in
        rw (same', found) (ground (arith, written))
    | inr other ↦
        let other' : i ≢ j = λ q. ground arith in
        let kept = get_elem?-set_ne chs (record c { closed = true }) other' in
        rw (other, found, shut_if-same (get_elem? chs j)) kept
  ]
]

-- A receive from another channel.
pub receive-get_other :
    (i j : ℕ) (chs : Channels) → (i == j) ≡ false → get_elem? (receive i chs).0 j ≡ get_elem? chs j
unfolding receive
receive-get_other i j chs other = elim (Option-cases (get_elem? chs i)) [
  | inl missing ↦ rw missing refl
  | inr (c, found) ↦ rw found (at c.queue c refl)
]
  where
    at :
        (q : List Event) (c : Channel)
        → c.queue ≡ q
        → get_elem? (receive_from i chs (some c)).0 j ≡ get_elem? chs j
    at [] c e = rw e refl
    at (x ∷ q) c e =
        let other' : i ≢ j = λ r. ground arith in
        rw e (get_elem?-set_ne chs (record c { queue = q }) other')

module _ (j : ℕ) where
  close_subs-get :
      (subs : List Subscription) (chs : Channels)
      → get_elem? (close_subs subs chs) j
        ≡ shut_if (ltb 0 (count_if (on_channel j) subs)) (get_elem? chs j)
  unfolding close_subs
  close_subs-get [] chs = rw (shut_if-same (get_elem? chs j)) refl
  close_subs-get (s ∷ subs) chs =
      let either : ((s.ch == j) || ltb 0 (count_if (on_channel j) subs))
          ≡ ltb 0 (count_if (on_channel j) (s ∷ subs)) =
        ground arith in
      close_subs-get subs (close_safe s.ch chs)
      ∙ rw (close_safe-get s.ch j chs, shut_if-twice, either) refl

  close_exact-get :
      (m : List (Text × List Subscription)) (chs : Channels)
      → get_elem? (close_exact m chs) j
        ≡ shut_if (ltb 0 (count_exact (on_channel j) m)) (get_elem? chs j)
  unfolding close_exact
  close_exact-get [] chs = rw (shut_if-same (get_elem? chs j)) refl
  close_exact-get ((t, subs) ∷ m) chs =
      let either : (ltb 0 (count_if (on_channel j) subs) || ltb 0 (count_exact (on_channel j) m))
          ≡ ltb 0 (count_exact (on_channel j) ((t, subs) ∷ m)) =
        ground arith in
      close_exact-get m (close_subs subs chs)
      ∙ rw (close_subs-get subs chs, shut_if-twice, either) refl

  close_wild-get :
      (es : List WildcardEntry) (chs : Channels)
      → get_elem? (close_wild es chs) j
        ≡ shut_if (ltb 0 (count_wild (on_channel j) es)) (get_elem? chs j)
  unfolding close_wild
  close_wild-get [] chs = rw (shut_if-same (get_elem? chs j)) refl
  close_wild-get (e ∷ es) chs =
      let either : (ltb 0 (count_if (on_channel j) e.subs) || ltb 0 (count_wild (on_channel j) es))
          ≡ ltb 0 (count_wild (on_channel j) (e ∷ es)) =
        ground arith in
      close_wild-get es (close_subs e.subs chs)
      ∙ rw (close_subs-get e.subs chs, shut_if-twice, either) refl

  -- They close a channel exactly if a subscription holds it, and leave what it holds.
  pub close_tables-get :
      (w : Core)
      → get_elem? (close_tables w).channels j
        ≡ shut_if (ltb 0 (count_all (on_channel j) w)) (get_elem? w.channels j)
  unfolding close_tables
  close_tables-get w =
      let either : (ltb 0 (count_exact (on_channel j) w.subscribers)
            || ltb 0 (count_wild (on_channel j) w.wildcard_subs))
          ≡ ltb 0 (count_all (on_channel j) w) =
        ground arith in
      close_wild-get w.wildcard_subs (close_exact w.subscribers w.channels)
      ∙ rw (close_exact-get w.subscribers w.channels, shut_if-twice, either) refl
