-- ===== src/Bus/Races.antt =====
-- dispatch of bus.go as it runs beside other calls: it copies the targets under the read lock, lets go
-- of the lock, and then sends to one channel after the other.
pub mod Closed
pub mod Matching
pub mod Alone
use eventbus.Base.{ℕ, List, [], ◌∷◌, ◌++◌, ◌≡◌, Option, none, some, Text}
use eventbus.Event.{Event}
use eventbus.Channel.{Channels, close_safe, receive}
use eventbus.Delivery.{Context}
use eventbus.Bus.State.{Subscription, Core}
use eventbus.Bus.Table.{subscribe, remove_channel}
use eventbus.Bus.Dispatch.{deliver}
use eventbus.Bus.Dispatch.Targets.{targets}
use eventbus.Bus.Lifecycle.{close_tables}

-- A call of dispatch that has let go of the lock, with the targets that are left.
pub record Flight : Type 0 where
  pub collector : Option ℕ
  pub event : Event
  pub left : List Subscription

pub record Crowd : Type 0 where
  pub core : Core
  pub flights : List Flight
  -- For what topics the channels were made, in order; no code reads it.
  pub topics : List Text

abbrev pub with_channels : Channels → Core → Core
with_channels chs w = record w { channels = chs }

pub data Step : Crowd → Crowd → Type 0 where
  -- The first half of dispatch.
  looks_up :
      (ctx : Context) (e : Event) (c : Crowd)
      → Step c (record c {
        flights =
            c.flights
            ++ record { collector = ctx.collector; event = e; left = targets c.core e.topic } ∷ [];
      })
  -- The next send of a call of dispatch.
  sends :
      (before : List Flight) (f : Flight) (s : Subscription) (left : List Subscription)
      (after : List Flight) (c : Crowd)
      → c.flights ≡ before ++ f ∷ after
      → f.left ≡ s ∷ left
      → Step c (record c {
        core = deliver f.collector s f.event c.core;
        flights = before ++ record f { left = left } ∷ after;
      })
  -- A call of dispatch returns.
  returns :
      (before : List Flight) (f : Flight) (after : List Flight) (c : Crowd)
      → c.flights ≡ before ++ f ∷ after
      → f.left ≡ []
      → Step c (record c { flights = before ++ after })
  -- The calls that hold the write lock, and what subscribers do with their channels.
  subscribes :
      (t : Text) (c : Crowd)
      → Step c (record c { core = (subscribe t c.core).0; topics = c.topics ++ t ∷ [] })
  removes :
      (t : Text) (ch : ℕ) (c : Crowd) → Step c (record c { core = remove_channel t ch c.core })
  closes : (c : Crowd) → Step c (record c { core = close_tables c.core })
  shuts :
      (ch : ℕ) (c : Crowd)
      → Step c (record c { core = with_channels (close_safe ch c.core.channels) c.core })
  receives :
      (ch : ℕ) (c : Crowd)
      → Step c (record c { core = with_channels (receive ch c.core.channels).0 c.core })

pub data Steps : Crowd → Crowd → Type 0 where
  done : {c : Crowd} → Steps c c
  next : {c d e : Crowd} → Step c d → Steps d e → Steps c e
