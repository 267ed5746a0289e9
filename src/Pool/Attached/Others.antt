-- ===== src/Pool/Attached/Others.antt =====
-- Whatever others do with the bus, a pool that is attached to it stays so, and takes the steps of its
-- step relation.
use eventbus.Base.{
  ℕ, zero, suc, ◌<◌, [], ◌∷◌, ◌≡◌, refl, ◌∙◌, ap, Bool, true, false, ◌&&◌, some, Text, get_elem?,
  get_elem?-append, length, arith, ◌==◌, if◌then◌else◌,
}
use eventbus.Channel.{Channel, Channels, make, receive}
use eventbus.Bus.State.{Core}
use eventbus.Bus.Table.{remove_channel, subscribe, new_subscription, next_channel, channel_size}
use eventbus.Bus.Table.Counts.{one_if, count_if, on_channel, count_all-add_channel}
use eventbus.Bus.Table.Counts.Removal.{remove_channel-others, channels-remove_channel}
use eventbus.Bus.Dispatch.Targets.{targets, receives, count_if-targets}
use eventbus.Bus.Dispatch.Receipts.{on_list}
use eventbus.Bus.Lifecycle.{close_tables}
use eventbus.Bus.Lifecycle.Invariant.{CoreInv, channels-add_channel}
use eventbus.Bus.Lifecycle.Closing.{close_tables-get, receive-get_other}
use eventbus.Bus.Roster.{belongs, all_subs, count_if-all_subs}
use eventbus.Bus.Roster.Refinement.{TableOp, subscribes, removes, sends, takes, clears, table_op}
use eventbus.Pool.Lifecycle.{Line, Steps, done, next, bus_closes}
use eventbus.Pool.Attached.{IsAttached, others_op, follow}
use eventbus.Pool.Attached.Tables.{count_all-removes, count_if-one_topic, on_list-count_if}

in_bounds : (chs : Channels) (i : ℕ) {c : Channel} → get_elem? chs i ≡ some c → i < length chs
in_bounds [] i h = absurd (ground arith)
in_bounds (x ∷ chs) zero h = omega arith
in_bounds (x ∷ chs) (suc i) h = omega (arith, in_bounds chs i h)

-- A channel that is there stays where it is when one more is made.
module _ (topic : Text) (ch : ℕ) where
  subscribes-IsAttached :
      (t : Text) (w : Core) (l : Line)
      → CoreInv w
      → IsAttached topic ch w l
      → IsAttached topic ch (subscribe t w).0 l
  unfolding subscribe new_subscription make
  subscribes-IsAttached t w l v h =
      let w0 = record w { channels = make channel_size w.channels } in
      let here : (next_channel w == ch) ≡ false =
        ground (arith, in_bounds w.channels ch h.channel) in
      record {
        channel =
            ap (λ chs. get_elem? chs ch) (channels-add_channel t (next_channel w) w0)
            ∙ get_elem?-append w.channels _ ch h.channel;
        there =
            count_all-add_channel (belongs topic ch) t (next_channel w) w0
            ∙ rw here (omega (arith, h.there));
        only =
            count_all-add_channel (on_channel ch) t (next_channel w) w0
            ∙ rw here (omega (arith, h.only));
      }

  removes-IsAttached :
      (t : Text) (c : ℕ) (w : Core) (l : Line)
      → CoreInv w
      → (c == ch) ≡ false
      → IsAttached topic ch w l
      → IsAttached topic ch (remove_channel t c w) l
  removes-IsAttached t c w l v ne h = record {
    channel = ap (λ chs. get_elem? chs ch) (channels-remove_channel t c w) ∙ h.channel;
    there = count_all-removes topic t ch c w v ne ∙ h.there;
    only = remove_channel-others ch t c w ne ∙ h.only;
  }

  takes-IsAttached :
      (c : ℕ) (w : Core) (l : Line)
      → (c == ch) ≡ false
      → IsAttached topic ch w l
      → IsAttached topic ch (record w { channels = (receive c w.channels).0 }) l
  takes-IsAttached c w l ne h = record {
    channel = receive-get_other c ch w.channels ne ∙ h.channel;
    there = h.there;
    only = h.only;
  }

  clears-at :
      (b : Bool) (w : Core) (l : Line)
      → l.registered ≡ b
      → IsAttached topic ch w l
      → IsAttached topic ch
          (close_tables w)
          (if b then record l { inbox_closed = true; registered = false } else l)
  unfolding close_tables
  clears-at true w l on h = record {
    channel = close_tables-get ch w ∙ rw (h.only, on, h.channel) refl;
    there = refl;
    only = refl;
  }
  clears-at false w l off h = record {
    channel = close_tables-get ch w ∙ rw (h.only, off, h.channel) refl;
    there = rw off refl;
    only = rw off refl;
  }

  -- The pool is among the targets exactly if its topic receives the event's.
  pub on_list-targets :
      (t : Text) (w : Core) (l : Line)
      → CoreInv w
      → IsAttached topic ch w l
      → on_list ch (targets w t) ≡ (l.registered && receives topic t)
  on_list-targets t w l v h =
      let all = count_if-all_subs in
      let one =
        count_if-one_topic topic t ch (all_subs w)
          (omega (arith, all (on_channel ch) w, all (belongs topic ch) w, h.there, h.only)) in
      let reached = count_if-targets (on_channel ch) t w v.valid in
      let hits : count_if (on_channel ch) (targets w t)
          ≡ (if receives topic t then one_if l.registered else 0) =
        ground (
          arith,
          one,
          reached,
          all (on_channel ch) w,
          all (λ s. on_channel ch s && receives s.topic t) w,
          h.only,
        ) in
      on_list-count_if ch (targets w t) ∙ rw hits (ground arith)

  -- Whatever others do in one step, the pool stays attached.
  pub others-IsAttached :
      (op : TableOp) (w : Core) (l : Line)
      → CoreInv w
      → others_op ch op ≡ true
      → IsAttached topic ch w l
      → IsAttached topic ch (table_op w op) (follow l op)
  unfolding table_op
  others-IsAttached (subscribes t) w l v o h = subscribes-IsAttached t w l v h
  others-IsAttached (removes t c) w l v o h = removes-IsAttached t c w l v (ground arith) h
  others-IsAttached (sends ctx e) w l v o h = absurd (ground arith)
  others-IsAttached (takes c) w l v o h = takes-IsAttached c w l (ground arith) h
  others-IsAttached clears w l v o h = clears-at l.registered w l refl h

clears-Steps :
    (l : Line) (b : Bool)
    → Steps l [] (if b then record l { inbox_closed = true; registered = false } else l)
clears-Steps l true = next (bus_closes l) done
clears-Steps l false = done

-- And what they do to it is a step of its relation, or none.
pub others-Steps : (op : TableOp) (l : Line) → Steps l [] (follow l op)
others-Steps (subscribes t) l = done
others-Steps (removes t c) l = done
others-Steps (sends ctx e) l = done
others-Steps (takes c) l = done
others-Steps clears l = clears-Steps l l.registered
