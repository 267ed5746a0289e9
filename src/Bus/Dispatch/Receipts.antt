-- ===== src/Bus/Dispatch/Receipts.antt =====
-- What the receipts of PublishReport say, and what the deliveries do to the channels.
use eventbus.Base.{
  ℕ, ◌+◌, ◌≤◌, List, [], ◌∷◌, ◌++◌, ◌≡◌, refl, ◌∙◌, ap, inl, inr, Bool, false, ◌&&◌, Option, none,
  some, Text, arith, All, any, Bool-cases, ◌==◌, if◌then◌else◌, get_elem?, get_elem?-set_self,
  append_assoc, append-nil,
}
use eventbus.Event.{Event}
use eventbus.Channel.{Channels, send_safe}
use eventbus.Channel.Sends.{has_room, room, pushed, send_safe-has_room, send_safe-get}
use eventbus.Delivery.{Collectors, DeliveryReceipt, add_receipt}
use eventbus.Bus.State.{Subscription, Core}
use eventbus.Bus.Table.Valid.{IsValid}
use eventbus.Bus.Table.Counts.{count_if, on_channel, count_all-le}
use eventbus.Bus.Dispatch.Targets.{targets, receives, count_if-targets}
use eventbus.Bus.Dispatch.Targets.Removal.{OnePerChannel}
use eventbus.Bus.Dispatch.{deliver, deliver_all, receipt_for}

-- No two of the subscriptions share a channel.
abbrev pub DistinctChannels : List Subscription → Type 0
DistinctChannels [] = Unit {0}
DistinctChannels (s ∷ subs) = All (λ r. (r.ch == s.ch) ≡ false) subs × DistinctChannels subs

-- One receipt for each subscription: queued exactly if its channel had room, and the clock's next
-- reading.
abbrev pub expected : Channels → (ℕ → ℕ) → ℕ → Event → List Subscription → List DeliveryReceipt
expected chs clock n e [] = []
expected chs clock n e (s ∷ subs) =
    receipt_for s e (has_room chs s.ch) (clock n) ∷ expected chs clock (n + 1) e subs

expected-same_room :
    (chs chs' : Channels) (clock : ℕ → ℕ) (n : ℕ) (e : Event) (subs : List Subscription)
    → All (λ s. has_room chs' s.ch ≡ has_room chs s.ch) subs
    → expected chs' clock n e subs ≡ expected chs clock n e subs
expected-same_room chs chs' clock n e [] h = refl
expected-same_room chs chs' clock n e (s ∷ subs) h =
    ground (arith, h.0, expected-same_room chs chs' clock (n + 1) e subs h.1)

same_room :
    (chs : Channels) (e : Event) (i : ℕ) (subs : List Subscription)
    → All (λ r. (r.ch == i) ≡ false) subs
    → All (λ s. has_room (send_safe i e chs).0 s.ch ≡ has_room chs s.ch) subs
same_room chs e i [] h = tt
same_room chs e i (s ∷ subs) h = (
  ap room {y = get_elem? chs s.ch} (send_safe-get i s.ch e chs ∙ rw h.0),
  same_room chs e i subs h.1,
)

add_receipt-get :
    (k : ℕ) (r : DeliveryReceipt) (cs : Collectors) (rs : List DeliveryReceipt)
    → get_elem? cs k ≡ some rs
    → get_elem? (add_receipt k r cs) k ≡ some (rs ++ r ∷ [])
unfolding add_receipt
add_receipt-get k r cs rs found = rw found (get_elem?-set_self cs k (rs ++ r ∷ []) rs found)

-- What one delivery leaves of the bus, field by field.
module _ (k : ℕ) (s : Subscription) (e : Event) (w : Core) where
  deliver-collectors :
      (rs : List DeliveryReceipt)
      → get_elem? w.collectors k ≡ some rs
      → get_elem? (deliver (some k) s e w).collectors k
        ≡ some (rs ++ receipt_for s e (has_room w.channels s.ch) (w.clock w.readings) ∷ [])
  unfolding deliver
  deliver-collectors rs found =
      add_receipt-get k _ w.collectors rs found ∙ rw (send_safe-has_room s.ch e w.channels)

  deliver-readings : (deliver (some k) s e w).readings ≡ w.readings + 1
  unfolding deliver
  deliver-readings = refl

  deliver-clock : (deliver (some k) s e w).clock ≡ w.clock
  unfolding deliver
  deliver-clock = refl

pub deliver-channels :
    (o : Option ℕ) (s : Subscription) (e : Event) (w : Core)
    → (deliver o s e w).channels ≡ (send_safe s.ch e w.channels).0
unfolding deliver
deliver-channels none s e w = refl
deliver-channels (some k) s e w = refl

-- The receipts still to come are the same before a delivery and after it.
expected-deliver :
    (k : ℕ) (s : Subscription) (subs : List Subscription) (e : Event) (w : Core)
    → All (λ r. (r.ch == s.ch) ≡ false) subs
    → let w' = deliver (some k) s e w in
      expected w'.channels w'.clock w'.readings e subs
      ≡ expected w.channels w.clock (w.readings + 1) e subs
expected-deliver k s subs e w d =
    rw (deliver-channels (some k) s e w, deliver-clock k s e w, deliver-readings k s e w)
      (expected-same_room w.channels _ w.clock (w.readings + 1) e subs
        (same_room w.channels e s.ch subs d))

-- The collector afterwards.
pub deliver_all-collectors :
    (k : ℕ) (subs : List Subscription) (e : Event) (w : Core) (rs : List DeliveryReceipt)
    → DistinctChannels subs
    → get_elem? w.collectors k ≡ some rs
    → get_elem? (deliver_all (some k) subs e w).collectors k
      ≡ some (rs ++ expected w.channels w.clock w.readings e subs)
unfolding deliver_all
deliver_all-collectors k [] e w rs d found = rw append-nil found
deliver_all-collectors k (s ∷ subs) e w rs d found =
    deliver_all-collectors k subs e (deliver (some k) s e w) _ d.1
      (deliver-collectors k s e w rs found)
    ∙ rw (append_assoc, expected-deliver k s subs e w d.0)

abbrev pub on_list : ℕ → List Subscription → Bool
on_list i = any (λ s. i == s.ch)

on_list_later :
    (i : ℕ) (subs : List Subscription)
    → All (λ r. (r.ch == i) ≡ false) subs
    → on_list i subs ≡ false
on_list_later i [] h = refl
on_list_later i (s ∷ subs) h = ground (arith, on_list_later i subs h.1)

-- The channels afterwards: the event stands at the end of each channel of the list that had room,
-- once, and no other channel has changed.
pub deliver_all-channels :
    (o : Option ℕ) (subs : List Subscription) (e : Event) (w : Core) (i : ℕ)
    → DistinctChannels subs
    → get_elem? (deliver_all o subs e w).channels i ≡ (
        if on_list i subs && has_room w.channels i
        then pushed e (get_elem? w.channels i)
        else get_elem? w.channels i)
unfolding deliver_all
deliver_all-channels o [] e w i d = refl
deliver_all-channels o (s ∷ subs) e w i d =
    let sent =
      ap (λ chs. get_elem? chs i) (deliver-channels o s e w) ∙ send_safe-get s.ch i e w.channels in
    deliver_all-channels o subs e (deliver o s e w) i d.1
    ∙ rw sent (elim (Bool-cases (i == s.ch)) [
      | inl same ↦
          let at_head : i ≡ s.ch = ground arith in
          let off : on_list i subs ≡ false = rw at_head (on_list_later s.ch subs d.0) in
          rw (same, off, at_head) refl
      | inr other ↦ rw other refl
    ])

zero_of_count :
    (i : ℕ) (subs : List Subscription)
    → count_if (on_channel i) subs ≡ 0
    → All (λ r. (r.ch == i) ≡ false) subs
zero_of_count i [] h = tt
zero_of_count i (s ∷ subs) h = (ground arith, zero_of_count i subs (ground arith))

DistinctChannels-of_counts :
    (subs : List Subscription)
    → ((i : ℕ) → count_if (on_channel i) subs ≤ 1)
    → DistinctChannels subs
DistinctChannels-of_counts [] h = tt
DistinctChannels-of_counts (s ∷ subs) h = (
  zero_of_count s.ch subs (ground (arith, h s.ch)),
  DistinctChannels-of_counts subs (λ i. omega (arith, h i)),
)

-- On a bus where each channel has one subscription the targets of any topic have distinct channels.
pub targets-DistinctChannels :
    (t : Text) (w : Core) → IsValid w → OnePerChannel w → DistinctChannels (targets w t)
targets-DistinctChannels t w v one = DistinctChannels-of_counts (targets w t) λ i. omega (
  arith,
  count_if-targets (on_channel i) t w v,
  count_all-le (on_channel i) (λ s. receives s.topic t) w,
  one i,
)
