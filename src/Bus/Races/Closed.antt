-- ===== src/Bus/Races/Closed.antt =====
-- A closed channel, whatever calls race for it: it takes no event, and its reader gets what it held.
use eventbus.Base.{
  ℕ, List, [], ◌∷◌, ◌++◌, ◌≡◌, ◌≢◌, refl, sym, ap, ◌∙◌, inl, inr, true, ◌&&◌, Option, none, some,
  Text, get_elem?, set, arith, ◌==◌, if◌then◌else◌, Bool-cases, Option-cases, get_elem?-set_self,
  get_elem?-set_ne, get_elem?-append, append_assoc,
}
use mathlib.Core.Path.{subst}
use eventbus.Event.{Event}
use eventbus.Channel.{Channel, Channels, make, send_safe, close_safe, receive, receive_from}
use eventbus.Channel.Sends.{has_room, pushed, send_safe-get}
use eventbus.Bus.State.{Subscription, WildcardEntry, Core}
use eventbus.Bus.Table.{subscribe, next_channel, channel_size}
use eventbus.Bus.Table.Counts.Removal.{channels-remove_channel}
use eventbus.Bus.Dispatch.{deliver}
use eventbus.Bus.Lifecycle.{close_subs, close_exact, close_wild, close_tables}
use eventbus.Bus.Lifecycle.Invariant.{channels-add_channel}
use eventbus.Bus.Races.{
  Crowd, Step, looks_up, sends, returns, subscribes, removes, closes, shuts, receives, Steps, done,
  next,
}

-- The channel is closed, and what it holds is an end of the given events: the rest was received.
abbrev pub HoldsEnd : List Event → ℕ → Channels → Type 0
HoldsEnd q i chs =
    (c : Channel) × (taken : List Event) × (get_elem? chs i ≡ some c)
    × (c.closed ≡ true)
    × (q ≡ taken ++ c.queue)

some_inj : {c d : Channel} → some c ≡ some d → c ≡ d
some_inj e = cc

module _ (q : List Event) (i : ℕ) where
  send_safe-HoldsEnd :
      (j : ℕ) (e : Event) (chs : Channels) → HoldsEnd q i chs → HoldsEnd q i (send_safe j e chs).0
  send_safe-HoldsEnd j e chs (c, taken, at, closed, held) =
      let same : get_elem? (send_safe j e chs).0 i ≡ some c =
        send_safe-get j i e chs ∙ unsent j e chs c at closed in
      (c, taken, same, closed, held)
    where
      unsent :
          (j : ℕ) (e : Event) (chs : Channels) (c : Channel)
          → get_elem? chs i ≡ some c
          → c.closed ≡ true
          → (if i == j && has_room chs j then pushed e (get_elem? chs i) else get_elem? chs i)
            ≡ some c
      unsent j e chs c at closed = elim (Bool-cases (i == j)) [
        | inl same ↦ let same' : j ≡ i = ground arith in rw (same', at) (ground arith)
        | inr other ↦ rw (other, at) refl
      ]

  -- A channel is written that stays closed and loses its first events at most.
  set-HoldsEnd :
      (j : ℕ) (d e : Channel) (first : List Event) (chs : Channels)
      → get_elem? chs j ≡ some d
      → (d.closed ≡ true → e.closed ≡ true)
      → d.queue ≡ first ++ e.queue
      → HoldsEnd q i chs
      → HoldsEnd q i (set chs j e)
  set-HoldsEnd j d e first chs found stays cut (c, taken, at, closed, held) =
      elim (Bool-cases (i == j)) [
        | inl same ↦
            let same' : i ≡ j = ground arith in
            let is_d : c ≡ d = some_inj (sym at ∙ ap (get_elem? chs) same' ∙ found) in
            let rest : taken ++ c.queue ≡ (taken ++ first) ++ e.queue =
              ap (λ (x : Channel). taken ++ x.queue) is_d
              ∙ ap (λ xs. taken ++ xs) cut
              ∙ sym (append_assoc taken first e.queue) in
            (
              e,
              taken ++ first,
              ap (get_elem? (set chs j e)) same' ∙ get_elem?-set_self chs j e d found,
              stays (ap (λ (x : Channel). x.closed) (sym is_d) ∙ closed),
              held ∙ rest,
            )
        | inr other ↦
            let other' : j ≢ i = λ r. ground arith in
            (c, taken, get_elem?-set_ne chs e other' ∙ at, closed, held)
      ]

  close_safe-HoldsEnd :
      (j : ℕ) (chs : Channels) → HoldsEnd q i chs → HoldsEnd q i (close_safe j chs)
  unfolding close_safe
  close_safe-HoldsEnd j chs h = elim (Option-cases (get_elem? chs j)) [
    | inl missing ↦ rw missing h
    | inr (d, found) ↦
        rw found
          (set-HoldsEnd j d (record d { closed = true }) [] chs found (λ closed. refl) refl h)
  ]

  receive_from-HoldsEnd :
      (j : ℕ) (chs : Channels) (d : Channel) (events : List Event)
      → d.queue ≡ events
      → get_elem? chs j ≡ some d
      → HoldsEnd q i chs
      → HoldsEnd q i (receive_from j chs (some d)).0
  receive_from-HoldsEnd j chs d [] cut found h = rw cut h
  receive_from-HoldsEnd j chs d (e ∷ es) cut found h =
      rw cut
        (set-HoldsEnd j d (record d { queue = es }) (e ∷ []) chs found (λ closed. closed) cut h)

  receive-HoldsEnd : (j : ℕ) (chs : Channels) → HoldsEnd q i chs → HoldsEnd q i (receive j chs).0
  unfolding receive
  receive-HoldsEnd j chs h = elim (Option-cases (get_elem? chs j)) [
    | inl missing ↦ rw missing h
    | inr (d, found) ↦ rw found (receive_from-HoldsEnd j chs d d.queue refl found h)
  ]

  make-HoldsEnd : (n : ℕ) (chs : Channels) → HoldsEnd q i chs → HoldsEnd q i (make n chs)
  unfolding make
  make-HoldsEnd n chs (c, taken, at, closed, held) =
      (c, taken, get_elem?-append chs _ i at, closed, held)

  close_subs-HoldsEnd :
      (subs : List Subscription) (chs : Channels)
      → HoldsEnd q i chs
      → HoldsEnd q i (close_subs subs chs)
  unfolding close_subs
  close_subs-HoldsEnd [] chs h = h
  close_subs-HoldsEnd (s ∷ subs) chs h =
      close_subs-HoldsEnd subs (close_safe s.ch chs) (close_safe-HoldsEnd s.ch chs h)

  close_exact-HoldsEnd :
      (m : List (Text × List Subscription)) (chs : Channels)
      → HoldsEnd q i chs
      → HoldsEnd q i (close_exact m chs)
  unfolding close_exact
  close_exact-HoldsEnd [] chs h = h
  close_exact-HoldsEnd ((k, subs) ∷ m) chs h =
      close_exact-HoldsEnd m (close_subs subs chs) (close_subs-HoldsEnd subs chs h)

  close_wild-HoldsEnd :
      (es : List WildcardEntry) (chs : Channels)
      → HoldsEnd q i chs
      → HoldsEnd q i (close_wild es chs)
  unfolding close_wild
  close_wild-HoldsEnd [] chs h = h
  close_wild-HoldsEnd (e ∷ es) chs h =
      close_wild-HoldsEnd es (close_subs e.subs chs) (close_subs-HoldsEnd e.subs chs h)

pub channels-deliver :
    (k : Option ℕ) (s : Subscription) (e : Event) (w : Core)
    → (deliver k s e w).channels ≡ (send_safe s.ch e w.channels).0
unfolding deliver
channels-deliver none s e w = refl
channels-deliver (some k) s e w = refl

Step-HoldsEnd :
    (q : List Event) (i : ℕ) {c d : Crowd}
    → Step c d
    → HoldsEnd q i c.core.channels
    → HoldsEnd q i d.core.channels
unfolding subscribe close_tables
Step-HoldsEnd q i (looks_up ctx e c) h = h
Step-HoldsEnd q i (sends before f s left after c at more) h =
    subst (HoldsEnd q i) (sym (channels-deliver f.collector s f.event c.core))
      (send_safe-HoldsEnd q i s.ch f.event c.core.channels h)
Step-HoldsEnd q i (returns before f after c at none_left) h = h
Step-HoldsEnd q i (subscribes t c) h =
    let w = record (c.core) { channels = make channel_size c.core.channels } in
    subst (HoldsEnd q i) (sym (channels-add_channel t (next_channel c.core) w))
      (make-HoldsEnd q i channel_size c.core.channels h)
Step-HoldsEnd q i (removes t ch c) h =
    subst (HoldsEnd q i) (sym (channels-remove_channel t ch c.core)) h
Step-HoldsEnd q i (closes c) h =
    close_wild-HoldsEnd q i c.core.wildcard_subs _
      (close_exact-HoldsEnd q i c.core.subscribers c.core.channels h)
Step-HoldsEnd q i (shuts ch c) h = close_safe-HoldsEnd q i ch c.core.channels h
Step-HoldsEnd q i (receives ch c) h = receive-HoldsEnd q i ch c.core.channels h

-- However calls of dispatch, Subscribe, removeChannel and Close and the reads of subscribers take turns,
-- a send to a channel that was closed in the meantime does no harm: once a channel is closed, it stays
-- closed, no event is added to it, and its reader gets the events that it held, in order.
pub Steps-HoldsEnd :
    {c d : Crowd} (q : List Event) (i : ℕ)
    → Steps c d
    → HoldsEnd q i c.core.channels
    → HoldsEnd q i d.core.channels
Steps-HoldsEnd q i done h = h
Steps-HoldsEnd q i (next s more) h = Steps-HoldsEnd q i more (Step-HoldsEnd q i s h)
