-- ===== src/Pool/Attached/Kept.antt =====
-- A pool stays attached to its bus through its own steps: the receives of its forwarder, and the
-- RemoveChannel and closeEventChan of teardown.
use eventbus.Base.{
  ℕ, ◌+◌, List, [], ◌∷◌, ◌≡◌, refl, sym, ◌∙◌, ap, true, false, not, ◌&&◌, Text, get_elem?,
  get_elem?-set_self, get_elem?-end, arith, ◌==◌, text_eq_refl, text_eq,
}
use eventbus.Event.{Event}
use eventbus.Channel.{make, receive, close_safe}
use eventbus.Bus.State.{Subscription, Core}
use eventbus.Bus.Table.{remove_channel, subscribe, new_subscription, next_channel, channel_size}
use eventbus.Bus.Table.Counts.{
  one_if, count_if, count_all, on_channel, count_all-le, count_all-add_channel,
}
use eventbus.Bus.Table.Counts.Removal.{channels-remove_channel}
use eventbus.Bus.Lifecycle.Invariant.{CoreInv, channels-add_channel}
use eventbus.Bus.Lifecycle.Closing.{close_safe-get}
use eventbus.Bus.Roster.{belongs, all_subs, count_if-all_subs}
use eventbus.Bus.Roster.Removal.{none_left, count_all-removed}
use eventbus.Pool.Lifecycle.{Line, subscribe_with_pool, removed, over}
use eventbus.Pool.Attached.{IsAttached, own_channel}

module _ (topic : Text) (ch : ℕ) where
  pub receives-IsAttached :
      (e : Event) (w : Core) (l m : Line)
      → l.inbox ≡ e ∷ m.inbox
      → m.inbox_closed ≡ l.inbox_closed
      → m.registered ≡ l.registered
      → IsAttached topic ch w l
      → IsAttached topic ch (record w { channels = (receive ch w.channels).0 }) m
  unfolding receive
  receives-IsAttached e w l m inbox closed registered h = record {
    channel =
        let written = get_elem?-set_self w.channels ch (own_channel m) (own_channel l) h.channel in
        rw (h.channel, inbox, ← closed) written;
    there = h.there ∙ ap one_if (sym registered);
    only = h.only ∙ ap one_if (sym registered);
  }

  pub works-IsAttached :
      (w : Core) (l m : Line)
      → m.inbox ≡ l.inbox
      → m.inbox_closed ≡ l.inbox_closed
      → m.registered ≡ l.registered
      → IsAttached topic ch w l
      → IsAttached topic ch w m
  works-IsAttached w l m inbox closed registered h = record {
    channel = h.channel ∙ rw (inbox, closed) refl;
    there = h.there ∙ ap one_if (sym registered);
    only = h.only ∙ ap one_if (sym registered);
  }

  other_topic :
      (xs : List Subscription)
      → count_if (λ s. on_channel ch s && not (belongs topic ch s)) xs
          + count_if (belongs topic ch) xs
        ≡ count_if (on_channel ch) xs
  other_topic [] = refl
  other_topic (s ∷ xs) = ground (arith, other_topic xs)

  on_other_topic :
      (w : Core)
      → count_all (λ s. on_channel ch s && not (belongs topic ch s)) w
          + count_all (belongs topic ch) w
        ≡ count_all (on_channel ch) w
  on_other_topic w = omega (
    arith,
    other_topic (all_subs w),
    count_if-all_subs (λ s. on_channel ch s && not (belongs topic ch s)) w,
    count_if-all_subs (belongs topic ch) w,
    count_if-all_subs (on_channel ch) w,
  )

  pub detaches-IsAttached :
      (w : Core) (l : Line)
      → CoreInv w
      → IsAttached topic ch w l
      → IsAttached topic ch
          (remove_channel topic ch w)
          (record l { registered = false; teardown = removed })
  detaches-IsAttached w l v h = record {
    channel = ap (λ chs. get_elem? chs ch) (channels-remove_channel topic ch w) ∙ h.channel;
    there = none_left topic ch w v.valid v.one;
    only = omega (
      arith,
      count_all-removed topic ch w v.valid v.one (on_channel ch),
      on_other_topic w,
      h.there,
      h.only,
    );
  }

  pub shuts-IsAttached :
      (w : Core) (l : Line)
      → IsAttached topic ch w l
      → IsAttached topic ch
          (record w { channels = close_safe ch w.channels })
          (record l { inbox_closed = true; teardown = over })
  shuts-IsAttached w l h =
      let self : (ch == ch) ≡ true = ground arith in
      record {
        channel = close_safe-get ch ch w.channels ∙ rw (self, h.channel) refl;
        there = h.there;
        only = h.only;
      }

-- SubscribeWithPool attaches the pool.
pub subscribe-IsAttached :
    (topic : Text) (w : Core) (queue_size workers : ℕ)
    → CoreInv w
    → IsAttached topic
        (next_channel w)
        (subscribe topic w).0
        (subscribe_with_pool queue_size workers)
unfolding subscribe new_subscription make
subscribe-IsAttached topic w queue_size workers v =
    let ch = next_channel w in
    let w0 = record w { channels = make channel_size w.channels } in
    let self : (ch == ch) ≡ true = ground arith in
    let nobody = v.known ch (omega arith) in
    record {
      channel =
          ap (λ chs. get_elem? chs ch) (channels-add_channel topic ch w0)
          ∙ get_elem?-end w.channels _;
      there =
          count_all-add_channel (belongs topic ch) topic ch w0
          ∙ rw (self, text_eq_refl topic)
              (omega (arith, nobody, count_all-le (on_channel ch) (λ s. text_eq s.topic topic) w));
      only = count_all-add_channel (on_channel ch) topic ch w0 ∙ rw self (omega (arith, nobody));
    }
