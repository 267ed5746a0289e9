-- ===== src/Pool/Attached.antt =====
-- A pool of ext/pool/pool.go on the bus that it subscribes to: the channel and the subscription of
-- SubscribeWithPool stand in the state of the bus.
pub mod Tables
pub mod Others
pub mod Sends
pub mod Moves
pub mod Kept
pub mod Joint
use eventbus.Base.{
  ℕ, ◌+◌, List, [], ◌∷◌, ◌++◌, ◌≡◌, Bool, true, false, not, ◌&&◌, Option, some, map, Text,
  get_elem?, ◌==◌, if◌then◌else◌,
}
use eventbus.Event.{Event}
use eventbus.Channel.{Channel}
use eventbus.Channel.Sends.{room}
use eventbus.Delivery.{Context}
use eventbus.Bus.State.{Subscription, Core}
use eventbus.Bus.Table.{channel_size}
use eventbus.Bus.Table.Counts.{one_if, count_all, on_channel}
use eventbus.Bus.Dispatch.Targets.{targets}
use eventbus.Bus.Roster.{belongs}
use eventbus.Bus.Roster.Refinement.{TableOp, subscribes, removes, sends, takes, clears}
use eventbus.Pool.Lifecycle.{Line}

abbrev pub own_channel : Line → Channel
own_channel l = record { capacity = channel_size; queue = l.inbox; closed = l.inbox_closed }

-- The channel `ch` of the bus is the pool's, and in the tables it stands under `topic` alone.
pub record IsAttached (topic : Text) (ch : ℕ) (w : Core) (l : Line) : Type 0 where
  pub channel : get_elem? w.channels ch ≡ some (own_channel l)
  pub there : count_all (belongs topic ch) w ≡ one_if l.registered
  pub only : count_all (on_channel ch) w ≡ one_if l.registered

-- What others do with the bus in one step, neither a removal of the pool's channel nor a receive from
-- it. A dispatch is more than one step.
abbrev pub others_op : ℕ → TableOp → Bool
others_op ch (subscribes t) = true
others_op ch (removes t c) = not (c == ch)
others_op ch (sends ctx e) = false
others_op ch (takes c) = not (c == ch)
others_op ch clears = true

-- What becomes of the pool.
abbrev pub follow : Line → TableOp → Line
follow l (subscribes t) = l
follow l (removes t c) = l
follow l (sends ctx e) = l
follow l (takes c) = l
follow l clears = if l.registered then record l { inbox_closed = true; registered = false } else l

-- A send that a dispatch has still to do, after it has released the lock.
pub record Sending : Type 0 where
  pub collector : Option ℕ
  pub sub : Subscription
  pub event : Event

-- The lookup of dispatch.
unfoldable pub look_up : Context → Event → Core → List Sending
look_up ctx e w =
    map (λ s. record { collector = ctx.collector; sub = s; event = e }) (targets w e.topic)

-- The send goes to the pool's channel, which has room.
abbrev pub reaches : ℕ → Line → Sending → Bool
reaches ch l x = ch == x.sub.ch && room (some (own_channel l))

abbrev pub receive_sent : ℕ → Line → Sending → Line
receive_sent ch l x = if reaches ch l x then record l { inbox = l.inbox ++ x.event ∷ [] } else l

abbrev pub brought : ℕ → Line → Sending → List Event
brought ch l x = if reaches ch l x then x.event ∷ [] else []
