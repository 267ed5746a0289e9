-- ===== src/Bus/Races/Matching/Kept.antt =====
-- Each step on the channels keeps the events where they belong.

use eventbus.Base.{
  ℕ, zero, suc, List, [], ◌∷◌, ◌++◌, ◌≡◌, ◌≢◌, refl, sym, ap, ◌∙◌, inl, inr, true, false, ◌&&◌,
  Option, none, some, Text, get_elem?, set, arith, ◌==◌, Bool-cases, Option-cases, All, All-append,
  text_eq→eq, get_elem?-set_self, get_elem?-set_ne, get_elem?-append,
}
use mathlib.Core.Path.{subst}
use eventbus.Event.{Event}
use eventbus.Channel.{Channel, Channels, make, send_safe, close_safe, receive, receive_from}
use eventbus.Channel.Sends.{has_room, pushed, send_safe-get}
use eventbus.Bus.State.{Subscription, WildcardEntry}
use eventbus.Bus.Dispatch.Targets.{receives}
use eventbus.Bus.Lifecycle.{close_subs, close_exact, close_wild}
use eventbus.Bus.Races.Matching.{is_topic, may_hold, queue_of, matches, QueuesMatch}

pub All-weaken {ℓ κ λ'} :
    {A : Type ℓ} (P : A → Type κ) (Q : A → Type λ') (xs : List A)
    → ((a : A) → P a → Q a)
    → All P xs
    → All Q xs
All-weaken P Q [] f h = tt
All-weaken P Q (x ∷ xs) f h = (f x h.0, All-weaken P Q xs f h.1)

pub may_hold-matches :
    (topics : List Text) (t : Text) (s : Subscription)
    → matches topics t s ≡ true
    → may_hold (get_elem? topics s.ch) t ≡ true
may_hold-matches topics t s h = go (get_elem? topics s.ch) h
  where
    go : (o : Option Text) → (is_topic o s.topic && receives s.topic t) ≡ true → may_hold o t ≡ true
    go none h = absurd (ground arith)
    go (some u) h =
        let same : u ≡ s.topic = text_eq→eq u s.topic (ground arith) in rw same (ground arith)

pub is_topic-append :
    (topics us : List Text) (i : ℕ) (t : Text)
    → is_topic (get_elem? topics i) t ≡ true
    → is_topic (get_elem? (topics ++ us) i) t ≡ true
is_topic-append topics us i t h = elim (Option-cases (get_elem? topics i)) [
  | inl missing ↦ let q : false ≡ true = rw missing at h in absurd (ground arith)
  | inr (u, found) ↦ rw (get_elem?-append topics us i found) (rw found at h)
]

pub may_hold-append :
    (topics us : List Text) (i : ℕ) (t : Text)
    → may_hold (get_elem? topics i) t ≡ true
    → may_hold (get_elem? (topics ++ us) i) t ≡ true
may_hold-append topics us i t h = elim (Option-cases (get_elem? topics i)) [
  | inl missing ↦ let q : false ≡ true = rw missing at h in absurd (ground arith)
  | inr (u, found) ↦ rw (get_elem?-append topics us i found) (rw found at h)
]

module _ (topics : List Text) where
  abbrev Held : ℕ → Option Channel → Type 0
  Held i o = All (λ (e : Event). may_hold (get_elem? topics i) e.topic ≡ true) (queue_of o)

  pushed-Held :
      (i : ℕ) (e : Event) (o : Option Channel)
      → may_hold (get_elem? topics i) e.topic ≡ true
      → Held i o
      → Held i (pushed e o)
  pushed-Held i e none fits h = h
  pushed-Held i e (some c) fits h = All-append _ c.queue (e ∷ []) h (fits, tt)

  pub send_safe-QueuesMatch :
      (j : ℕ) (e : Event) (chs : Channels)
      → may_hold (get_elem? topics j) e.topic ≡ true
      → QueuesMatch topics chs
      → QueuesMatch topics (send_safe j e chs).0
  send_safe-QueuesMatch j e chs fits h i =
      subst (Held i) (sym (send_safe-get j i e chs)) (elim (Bool-cases (i == j)) [
        | inl same ↦
            let same' : i ≡ j = ground arith in
            elim (Bool-cases (has_room chs j)) [
              | inl room ↦ rw (same, room) (pushed-Held i e (get_elem? chs i) (rw same' fits) (h i))
              | inr full ↦ rw (same, full) (h i)
            ]
        | inr other ↦ rw other (h i)
      ])

  -- A channel is written that holds some of the events of before.
  set-QueuesMatch :
      (j : ℕ) (d e : Channel) (chs : Channels)
      → get_elem? chs j ≡ some d
      → ((P : Event → Type 0) → All P d.queue → All P e.queue)
      → QueuesMatch topics chs
      → QueuesMatch topics (set chs j e)
  set-QueuesMatch j d e chs found fewer h i = elim (Bool-cases (i == j)) [
    | inl same ↦
        let same' : j ≡ i = ground arith in
        let written : get_elem? (set chs j e) i ≡ some e =
          ap (get_elem? (set chs j e)) (sym same') ∙ get_elem?-set_self chs j e d found in
        let old : get_elem? chs i ≡ some d = ap (get_elem? chs) (sym same') ∙ found in
        subst (Held i) (sym written) (fewer _ (subst (Held i) old (h i)))
    | inr other ↦
        let other' : j ≢ i = λ r. ground arith in
        subst (Held i) (sym (get_elem?-set_ne chs e other')) (h i)
  ]

  pub close_safe-QueuesMatch :
      (j : ℕ) (chs : Channels) → QueuesMatch topics chs → QueuesMatch topics (close_safe j chs)
  unfolding close_safe
  close_safe-QueuesMatch j chs h = elim (Option-cases (get_elem? chs j)) [
    | inl missing ↦ rw missing h
    | inr (d, found) ↦
        rw found (set-QueuesMatch j d (record d { closed = true }) chs found (λ P all. all) h)
  ]

  receive_from-QueuesMatch :
      (j : ℕ) (chs : Channels) (d : Channel) (events : List Event)
      → d.queue ≡ events
      → get_elem? chs j ≡ some d
      → QueuesMatch topics chs
      → QueuesMatch topics (receive_from j chs (some d)).0
  receive_from-QueuesMatch j chs d [] cut found h = rw cut h
  receive_from-QueuesMatch j chs d (e ∷ es) cut found h = rw cut (
      set-QueuesMatch j d (record d { queue = es }) chs found (λ P all. (subst (All P) cut all).1)
        h)

  pub receive-QueuesMatch :
      (j : ℕ) (chs : Channels) → QueuesMatch topics chs → QueuesMatch topics (receive j chs).0
  unfolding receive
  receive-QueuesMatch j chs h = elim (Option-cases (get_elem? chs j)) [
    | inl missing ↦ rw missing h
    | inr (d, found) ↦ rw found (receive_from-QueuesMatch j chs d d.queue refl found h)
  ]

  close_subs-QueuesMatch :
      (subs : List Subscription) (chs : Channels)
      → QueuesMatch topics chs
      → QueuesMatch topics (close_subs subs chs)
  unfolding close_subs
  close_subs-QueuesMatch [] chs h = h
  close_subs-QueuesMatch (s ∷ subs) chs h =
      close_subs-QueuesMatch subs (close_safe s.ch chs) (close_safe-QueuesMatch s.ch chs h)

  pub close_exact-QueuesMatch :
      (m : List (Text × List Subscription)) (chs : Channels)
      → QueuesMatch topics chs
      → QueuesMatch topics (close_exact m chs)
  unfolding close_exact
  close_exact-QueuesMatch [] chs h = h
  close_exact-QueuesMatch ((k, subs) ∷ m) chs h =
      close_exact-QueuesMatch m (close_subs subs chs) (close_subs-QueuesMatch subs chs h)

  pub close_wild-QueuesMatch :
      (es : List WildcardEntry) (chs : Channels)
      → QueuesMatch topics chs
      → QueuesMatch topics (close_wild es chs)
  unfolding close_wild
  close_wild-QueuesMatch [] chs h = h
  close_wild-QueuesMatch (e ∷ es) chs h =
      close_wild-QueuesMatch es (close_subs e.subs chs) (close_subs-QueuesMatch e.subs chs h)

queue_of_made :
    (chs : Channels) (n i : ℕ)
    → queue_of (get_elem? (chs ++ record { capacity = n; queue = []; closed = false } ∷ []) i)
      ≡ queue_of (get_elem? chs i)
queue_of_made [] n zero = refl
queue_of_made [] n (suc i) = refl
queue_of_made (c ∷ chs) n zero = refl
queue_of_made (c ∷ chs) n (suc i) = queue_of_made chs n i

-- A new channel is empty.
pub make-QueuesMatch :
    (topics us : List Text) (n : ℕ) (chs : Channels)
    → QueuesMatch topics chs
    → QueuesMatch (topics ++ us) (make n chs)
unfolding make
make-QueuesMatch topics us n chs h i =
    subst (All (λ (e : Event). may_hold (get_elem? (topics ++ us) i) e.topic ≡ true))
      (sym (queue_of_made chs n i))
      (All-weaken _ _ (queue_of (get_elem? chs i)) (λ e. may_hold-append topics us i e.topic) (h i))
