-- ===== src/Bus/Roster/Refinement.antt =====
-- The bus of bus.go implements a bag of subscriptions: Subscribe, RemoveChannel, dispatch, the
-- receives of subscribers and the closing loops of Close, in any order.
use mathlib.Core.Quot
use eventbus.Base.{
  ℕ, ◌+◌, List, [], ◌∷◌, ◌≡◌, refl, sym, ◌∙◌, ap, Bool, not, ◌&&◌, Option, none, some, Text, arith,
  length,
}
use eventbus.Base.Order.{u64}
use eventbus.Event.{Event}
use eventbus.Channel.{Channel, make, receive}
use eventbus.Channel.Bounds.{length-make, length-receive, length-send_safe}
use eventbus.Delivery.{Context}
use eventbus.Bus.State.{Subscription, Core}
use eventbus.Bus.Table.{
  add_channel, remove_channel, subscribe, new_subscription, next_channel, channel_size,
}
use eventbus.Bus.Table.Counts.{count_if, count_all-add_channel}
use eventbus.Bus.Table.Counts.Removal.{channels-remove_channel}
use eventbus.Bus.Dispatch.{dispatch, deliver, deliver_all}
use eventbus.Bus.Dispatch.Targets.{targets, receives, count_if-targets, dispatch-deliver_all}
use eventbus.Bus.Lifecycle.{close_tables}
use eventbus.Bus.Lifecycle.Invariant.{
  CoreInv, channels-add_channel, subscribe-CoreInv, remove_channel-CoreInv, receive-CoreInv,
  dispatch-CoreInv, close_tables-CoreInv, length-close_tables,
}
use eventbus.Bus.Roster.{
  Roster, bag, tally, tally-bag, join, count_if-keep, leave, audience, those, belongs, all_subs,
  roster, count_if-all_subs,
}
use eventbus.Bus.Roster.Removal.{count_all-removed}

-- What reaches the tables and channels of a bus.
pub data TableOp : Type 0 where
  subscribes : Text → TableOp
  removes : Text → (ch : ℕ) → TableOp
  sends : Context → Event → TableOp
  takes : (ch : ℕ) → TableOp
  clears : TableOp

unfoldable pub table_op : Core → TableOp → Core
table_op w (subscribes topic) = (subscribe topic w).0
table_op w (removes topic ch) = remove_channel topic ch w
table_op w (sends ctx e) = (dispatch ctx e w).0
table_op w (takes ch) = record w { channels = (receive ch w.channels).0 }
table_op w clears = close_tables w

unfoldable pub run_ops : Core → List TableOp → Core
run_ops w [] = w
run_ops w (op ∷ ops) = run_ops (table_op w op) ops

-- The abstract bus: how many subscriptions and channels were made, and a bag of subscriptions.
pub record View : Type 0 where
  pub seq : ℕ
  pub next : ℕ
  pub subs : Roster

pub view : Core → View
view w = record { seq = w.sub_seq; next = length w.channels; subs = roster w }

unfoldable pub view_op : View → TableOp → View
view_op a (subscribes topic) = record {
  seq = u64 (a.seq + 1);
  next = a.next + 1;
  subs = join (new_subscription (u64 (a.seq + 1)) topic a.next) a.subs;
}
view_op a (removes topic ch) = record a { subs = leave topic ch a.subs }
view_op a (sends ctx e) = a
view_op a (takes ch) = a
view_op a clears = record a { subs = bag [] }

unfoldable pub view_ops : View → List TableOp → View
view_ops a [] = a
view_ops a (op ∷ ops) = view_ops (view_op a op) ops

view_eq :
    (w : Core) (seq next : ℕ) (subs : Roster)
    → w.sub_seq ≡ seq
    → length w.channels ≡ next
    → roster w ≡ subs
    → view w ≡ record { seq = seq; next = next; subs = subs }
unfolding view roster
view_eq w seq next subs s n r = rw (s, n, r)

sub_seq-add_channel :
    (topic : Text) (ch : ℕ) (w : Core) → (add_channel topic ch w).sub_seq ≡ u64 (w.sub_seq + 1)
unfolding add_channel
sub_seq-add_channel topic ch w = ground arith

sub_seq-remove_channel :
    (topic : Text) (ch : ℕ) (w : Core) → (remove_channel topic ch w).sub_seq ≡ w.sub_seq
unfolding remove_channel
sub_seq-remove_channel topic ch w = ground arith

roster-add_channel :
    (topic : Text) (ch : ℕ) (w : Core)
    → roster (add_channel topic ch w)
      ≡ join (new_subscription (add_channel topic ch w).sub_seq topic ch) (roster w)
unfolding roster join
roster-add_channel topic ch w = Quot.sound (λ p. omega (
  arith,
  count_if-all_subs p w,
  count_if-all_subs p (add_channel topic ch w),
  count_all-add_channel p topic ch w,
))

roster-remove_channel :
    (topic : Text) (ch : ℕ) (w : Core)
    → CoreInv w
    → roster (remove_channel topic ch w) ≡ leave topic ch (roster w)
unfolding roster those
roster-remove_channel topic ch w v = Quot.sound (λ p. omega (
  arith,
  count_if-keep p (λ s. not (belongs topic ch s)) (all_subs w),
  count_if-all_subs p (remove_channel topic ch w),
  count_if-all_subs (λ s. p s && not (belongs topic ch s)) w,
  count_all-removed topic ch w v.valid v.one p,
))

-- A delivery leaves the tables alone.
view-deliver :
    (o : Option ℕ) (s : Subscription) (e : Event) (w : Core) → view (deliver o s e w) ≡ view w
unfolding deliver view roster
view-deliver none s e w = rw (length-send_safe s.ch e w.channels)
view-deliver (some k) s e w = rw (length-send_safe s.ch e w.channels)

view-deliver_all :
    (o : Option ℕ) (subs : List Subscription) (e : Event) (w : Core)
    → view (deliver_all o subs e w) ≡ view w
unfolding deliver_all
view-deliver_all o [] e w = refl
view-deliver_all o (s ∷ subs) e w =
    view-deliver_all o subs e (deliver o s e w) ∙ view-deliver o s e w

view-subscribe :
    (topic : Text) (w : Core) → view (subscribe topic w).0 ≡ view_op (view w) (subscribes topic)
unfolding subscribe view_op view join roster
view-subscribe topic w =
    let w0 = record w { channels = make channel_size w.channels } in
    view_eq (add_channel topic (next_channel w) w0) _ _ _
      (sub_seq-add_channel topic (next_channel w) w0)
      (ap (length {A = Channel}) (channels-add_channel topic (next_channel w) w0)
        ∙ length-make channel_size w.channels)
      (roster-add_channel topic (next_channel w) w0
        ∙ rw (sub_seq-add_channel topic (next_channel w) w0))

view-dispatch : (ctx : Context) (e : Event) (w : Core) → view (dispatch ctx e w).0 ≡ view w
view-dispatch ctx e w =
    rw (dispatch-deliver_all ctx e w) (view-deliver_all ctx.collector (targets w e.topic) e w)

view-remove_channel :
    (topic : Text) (ch : ℕ) (w : Core)
    → CoreInv w
    → view (remove_channel topic ch w) ≡ view_op (view w) (removes topic ch)
unfolding view_op view
view-remove_channel topic ch w v =
    view_eq (remove_channel topic ch w) _ _ _ (sub_seq-remove_channel topic ch w)
      (ap (length {A = Channel}) (channels-remove_channel topic ch w))
      (roster-remove_channel topic ch w v)

view-table_op : (op : TableOp) (w : Core) → CoreInv w → view (table_op w op) ≡ view_op (view w) op
unfolding table_op view_op view roster close_tables
view-table_op (subscribes topic) w v = view-subscribe topic w
view-table_op (removes topic ch) w v = view-remove_channel topic ch w v
view-table_op (sends ctx e) w v = view-dispatch ctx e w
view-table_op (takes ch) w v = rw (length-receive ch w.channels)
view-table_op clears w v = rw (length-close_tables w)

pub table_op-CoreInv : (op : TableOp) (w : Core) → CoreInv w → CoreInv (table_op w op)
unfolding table_op
table_op-CoreInv (subscribes topic) w v = subscribe-CoreInv topic w v
table_op-CoreInv (removes topic ch) w v = remove_channel-CoreInv topic ch w v
table_op-CoreInv (sends ctx e) w v = dispatch-CoreInv ctx e w v
table_op-CoreInv (takes ch) w v = receive-CoreInv ch w v
table_op-CoreInv clears w v = close_tables-CoreInv w v

run_ops-CoreInv : (ops : List TableOp) (w : Core) → CoreInv w → CoreInv (run_ops w ops)
unfolding run_ops
run_ops-CoreInv [] w v = v
run_ops-CoreInv (op ∷ ops) w v = run_ops-CoreInv ops (table_op w op) (table_op-CoreInv op w v)

view-run_ops :
    (ops : List TableOp) (w : Core) → CoreInv w → view (run_ops w ops) ≡ view_ops (view w) ops
unfolding run_ops view_ops
view-run_ops [] w v = refl
view-run_ops (op ∷ ops) w v =
    view-run_ops ops (table_op w op) (table_op-CoreInv op w v)
    ∙ ap (λ a. view_ops a ops) (view-table_op op w v)

bag-targets : (t : Text) (w : Core) → CoreInv w → bag (targets w t) ≡ audience t (view w).subs
unfolding view roster those
bag-targets t w v = Quot.sound (λ p. omega (
  arith,
  count_if-keep p (λ s. receives s.topic t) (all_subs w),
  count_if-all_subs (λ s. p s && receives s.topic t) w,
  count_if-targets p t w v.valid,
))

-- The bus refines a bag of subscriptions. After any sequence of Subscribe, RemoveChannel, dispatch,
-- receives and closing loops, from a bus that satisfies the invariant, the tables stand for the bag
-- that the abstract operations give (Subscribe joins one subscription with the next number and a new
-- channel, RemoveChannel takes out those of its channel and topic, the closing loops empty it, dispatch
-- and receives leave it), and an event of any topic is sent to exactly those of the bag whose topic
-- receives the event's, each as often as it is there, whatever test singles subscriptions out.
pub run_ops-refines :
    (ops : List TableOp) (w : Core)
    → CoreInv w
    → let a = view_ops (view w) ops in
      (view (run_ops w ops) ≡ a)
      × ((p : Subscription → Bool) (t : Text)
          → count_if p (targets (run_ops w ops) t) ≡ tally p (audience t a.subs))
run_ops-refines ops w v =
    let w' = run_ops w ops in
    let same = view-run_ops ops w v in
    (
      same,
      λ p t.
          sym (tally-bag p (targets w' t))
          ∙ ap (tally p) (bag-targets t w' (run_ops-CoreInv ops w v))
          ∙ ap (λ a. tally p (audience t a.subs)) same,
    )
