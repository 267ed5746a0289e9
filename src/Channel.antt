-- ===== src/Channel.antt =====
-- Go channels of events as the program uses them, with sendSafe and closeSafe of bus.go. A channel
-- is a place in a list of channels; `make` adds one at the end.
pub mod Bounds
pub mod Sends
use eventbus.Base.{
  ℕ, List, [], ◌∷◌, ◌++◌, Bool, true, false, Option, none, some, get_elem?, set, length, ltb,
  if◌then◌else◌,
}
use eventbus.Event.{Event}

pub record Channel : Type 0 where
  pub capacity : ℕ
  pub queue : List Event
  pub closed : Bool

abbrev pub Channels : Type 0
Channels = List Channel

-- `make(EventChan, n)`; the new channel's number is the length before.
unfoldable pub make : ℕ → Channels → Channels
make n chs = chs ++ record { capacity = n; queue = []; closed = false } ∷ []

-- The select of sendSafe, with its recover: false for a full channel, and for a closed one, where
-- the send panics. A send to a channel that is not there (a nil channel) is never ready.
abbrev send_to : Channel → Event → Option Channel
send_to c e =
    if c.closed
    then none
    else (if ltb (length c.queue) c.capacity
        then some (record c { queue = c.queue ++ e ∷ [] })
        else none)

abbrev store_sent : ℕ → Channels → Option Channel → Channels × Bool
store_sent i chs none = (chs, false)
store_sent i chs (some c) = (set chs i c, true)

abbrev find_and_send : Option Channel → Event → Option Channel
find_and_send none e = none
find_and_send (some c) e = send_to c e

-- sendSafe.
unfoldable pub send_safe : ℕ → Event → Channels → Channels × Bool
send_safe i e chs = store_sent i chs (find_and_send (get_elem? chs i) e)

abbrev close_at : ℕ → Channels → Option Channel → Channels
close_at i chs none = chs
close_at i chs (some c) = set chs i (record c { closed = true })

-- closeSafe; closing a closed channel panics, and the panic is ignored.
unfoldable pub close_safe : ℕ → Channels → Channels
close_safe i chs = close_at i chs (get_elem? chs i)

pub data Received : Type 0 where
  -- `event, ok := <-ch`: an event, the end of a closed channel, or nothing yet.
  event : Event → Received
  ended blocked : Received

abbrev pub receive_from : ℕ → Channels → Option Channel → Channels × Received
receive_from i chs none = (chs, blocked)
receive_from i chs (some c) = elim c.queue [
  | [] ↦ (chs, if c.closed then ended else blocked)
  | e ∷ es ↦ (set chs i (record c { queue = es }), event e)
]

-- A receive.
unfoldable pub receive : ℕ → Channels → Channels × Received
receive i chs = receive_from i chs (get_elem? chs i)
