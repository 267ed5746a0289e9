-- ===== src/Pool/Attached/Sends.antt =====
-- The sends of a dispatch, one by one and at any time after its lookup, as an attached pool sees them.
use eventbus.Base.{
  ℕ, List, [], ◌∷◌, ◌++◌, ◌≡◌, refl, ◌∙◌, ap, inl, inr, Bool, true, false, not, ◌&&◌, ◌||◌, some,
  map, all, Text, get_elem?, arith, ◌==◌, if◌then◌else◌, Bool-cases,
}
use eventbus.Event.{Event}
use eventbus.Channel.Sends.{room, has_room, pushed, send_safe-get}
use eventbus.Delivery.{Context}
use eventbus.Bus.State.{Subscription, Core}
use eventbus.Bus.Table.Counts.{one_if}
use eventbus.Bus.Dispatch.{deliver}
use eventbus.Bus.Dispatch.Targets.{targets, receives}
use eventbus.Bus.Dispatch.Receipts.{on_list, deliver-channels}
use eventbus.Bus.Lifecycle.Invariant.{CoreInv}
use eventbus.Pool.Lifecycle.{Line, Steps, done, next, delivers}
use eventbus.Pool.Attached.{
  IsAttached, own_channel, Sending, look_up, reaches, receive_sent, brought,
}
use eventbus.Pool.Attached.Tables.{count_all-deliver}
use eventbus.Pool.Attached.Others.{on_list-targets}

abbrev pushes : Bool → Event → Line → Line
pushes b e l = if b then record l { inbox = l.inbox ++ e ∷ [] } else l

pushed_if :
    (b : Bool) (e : Event) (l : Line)
    → (if b then pushed e (some (own_channel l)) else some (own_channel l))
      ≡ some (own_channel (pushes b e l))
pushed_if true e l = refl
pushed_if false e l = refl

registered_still : (b : Bool) (e : Event) (l : Line) → l.registered ≡ (pushes b e l).registered
registered_still true e l = refl
registered_still false e l = refl

room_sent :
    (ch i : ℕ) (w : Core) (l : Line)
    → get_elem? w.channels ch ≡ some (own_channel l)
    → (ch == i && has_room w.channels i) ≡ (ch == i && room (some (own_channel l)))
room_sent ch i w l h = elim (Bool-cases (ch == i)) [
  | inl same ↦ let same' : i ≡ ch = ground arith in rw (same', h) refl
  | inr other ↦ rw other refl
]

module _ (topic : Text) (ch : ℕ) where
  pub sent-IsAttached :
      (x : Sending) (w : Core) (l : Line)
      → IsAttached topic ch w l
      → IsAttached topic ch (deliver x.collector x.sub x.event w) (receive_sent ch l x)
  sent-IsAttached x w l h =
      let b = reaches ch l x in
      let sent =
        ap (λ chs. get_elem? chs ch) (deliver-channels x.collector x.sub x.event w)
        ∙ send_safe-get x.sub.ch ch x.event w.channels in
      let same = ap one_if (registered_still b x.event l) in
      record {
        channel =
            sent ∙ rw (room_sent ch x.sub.ch w l h.channel, h.channel) (pushed_if b x.event l);
        there = count_all-deliver _ x.collector x.sub x.event w ∙ h.there ∙ same;
        only = count_all-deliver _ x.collector x.sub x.event w ∙ h.only ∙ same;
      }

  -- A send that waits for the pool's channel is one of an event for the pool.
  abbrev pub is_meant : Sending → Bool
  is_meant x = not (ch == x.sub.ch) || receives topic x.event.topic

  all_meant :
      (ctx : Context) (e : Event) (subs : List Subscription)
      → receives topic e.topic ≡ true
      → all is_meant (map (λ s. record { collector = ctx.collector; sub = s; event = e }) subs)
        ≡ true
  all_meant ctx e [] hr = refl
  all_meant ctx e (s ∷ subs) hr = ground (arith, all_meant ctx e subs hr)

  meant_of :
      (ctx : Context) (e : Event) (subs : List Subscription) (r b : Bool)
      → receives topic e.topic ≡ r
      → on_list ch subs ≡ (b && r)
      → all is_meant (map (λ s. record { collector = ctx.collector; sub = s; event = e }) subs)
        ≡ true
  meant_of ctx e [] r b hr h = refl
  meant_of ctx e (s ∷ subs) true b hr h = all_meant ctx e (s ∷ subs) hr
  meant_of ctx e (s ∷ subs) false b hr h =
      ground (arith, meant_of ctx e subs false b hr (ground arith))

  pub look_up-meant :
      (ctx : Context) (e : Event) (w : Core) (l : Line)
      → CoreInv w
      → IsAttached topic ch w l
      → all is_meant (look_up ctx e w) ≡ true
  unfolding look_up
  look_up-meant ctx e w l v h =
      meant_of ctx e (targets w e.topic) (receives topic e.topic) l.registered refl
        (on_list-targets topic ch e.topic w l v h)

sent_Steps :
    (ch : ℕ) (x : Sending) (l : Line) (b : Bool)
    → reaches ch l x ≡ b
    → Steps l (if b then x.event ∷ [] else []) (pushes b x.event l)
sent_Steps ch x l true r = next (delivers x.event l (ground arith) (ground arith)) done
sent_Steps ch x l false r = done

pub sent-Steps : (ch : ℕ) (x : Sending) (l : Line) → Steps l (brought ch l x) (receive_sent ch l x)
sent-Steps ch x l = sent_Steps ch x l (reaches ch l x) refl
