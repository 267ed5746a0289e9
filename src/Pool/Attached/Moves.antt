-- ===== src/Pool/Attached/Moves.antt =====
-- A pool of ext/pool/pool.go and the bus that it subscribes to, as one system: others use the bus, and
-- the goroutines of the pool take turns with them.
use eventbus.Base.{ℕ, List, [], ◌∷◌, ◌++◌, ◌≡◌, true, false, Text}
use eventbus.Event.{Event}
use eventbus.Channel.{receive, close_safe}
use eventbus.Delivery.{Context}
use eventbus.Bus.State.{Core}
use eventbus.Bus.Table.{remove_channel}
use eventbus.Bus.Dispatch.{deliver}
use eventbus.Bus.Roster.Refinement.{TableOp, table_op}
use eventbus.Pool.Lifecycle.{Line, Step, not_begun, removed, stopping, over}
use eventbus.Pool.Attached.{others_op, follow, Sending, look_up, receive_sent, brought}

-- The bus, the sends of the dispatches that have looked up, and the pool.
pub record Joint : Type 0 where
  pub core : Core
  pub in_flight : List Sending
  pub line : Line

-- What happens next, and the events that enter the pool's channel with it.
pub data Move (topic : Text) (ch : ℕ) : Joint → List Event → Joint → Type 0 where
  others_do :
      (op : TableOp) (j : Joint)
      → others_op ch op ≡ true
      → Move topic ch j [] (record j { core = table_op j.core op; line = follow j.line op })
  -- A dispatch looks up under the read lock, and sends later, whatever has happened in between.
  looks_up :
      (ctx : Context) (e : Event) (j : Joint)
      → Move topic ch j [] (record j { in_flight = j.in_flight ++ look_up ctx e j.core })
  sends_one :
      (before : List Sending) (x : Sending) (after : List Sending) (j : Joint)
      → j.in_flight ≡ before ++ x ∷ after
      → Move topic ch j (brought ch j.line x) (record {
        core = deliver x.collector x.sub x.event j.core;
        in_flight = before ++ after;
        line = receive_sent ch j.line x;
      })
  -- The forwarder receives an event, which goes to the queue, to a worker or to FailHandler.
  forwards :
      (e : Event) (j : Joint) (m : Line)
      → Step j.line [] m
      → j.line.inbox ≡ e ∷ m.inbox
      → m.inbox_closed ≡ j.line.inbox_closed
      → m.registered ≡ j.line.registered
      → Move topic ch j [] (record j {
        core = record (j.core) { channels = (receive ch j.core.channels).0 };
        line = m;
      })
  -- Steps that leave the bus alone.
  works :
      (j : Joint) (m : Line)
      → Step j.line [] m
      → m.inbox ≡ j.line.inbox
      → m.inbox_closed ≡ j.line.inbox_closed
      → m.registered ≡ j.line.registered
      → Move topic ch j [] (record j { line = m })
  -- RemoveChannel and closeEventChan of teardown.
  detaches :
      (j : Joint)
      → j.line.forwarding ≡ false
      → j.line.teardown ≡ not_begun
      → Move topic ch j [] (record j {
        core = remove_channel topic ch j.core;
        line = record (j.line) { registered = false; teardown = removed };
      })
  shuts :
      (j : Joint)
      → j.line.teardown ≡ stopping
      → j.line.idle ≡ 0
      → j.line.busy ≡ []
      → Move topic ch j [] (record j {
        core = record (j.core) { channels = close_safe ch j.core.channels };
        line = record (j.line) { inbox_closed = true; teardown = over };
      })

pub data Moves (topic : Text) (ch : ℕ) : Joint → List Event → Joint → Type 0 where
  rests : {j : Joint} → Moves topic ch j [] j
  moves :
      {i j k : Joint} {es fs : List Event}
      → Move topic ch i es j
      → Moves topic ch j fs k
      → Moves topic ch i (es ++ fs) k
