-- ===== src/Bus/State.antt =====
-- The state of the bus. Pointers to subscriptions are the subscriptions themselves, which are never
-- changed once made; a channel is a number.
use eventbus.Base.{ℕ, List, Text, [], Bool}
use eventbus.Channel.{Channels}
use eventbus.Delivery.{Collectors}

-- subscription.
pub record Subscription : Type 0 where
  pub id : Text
  pub topic : Text
  pub ch : ℕ

-- wildcardEntry.
pub record WildcardEntry : Type 0 where
  pub pattern : Text
  pub segments : List Text
  pub subs : List Subscription

-- What dispatch, handlers and middlewares reach: the tables, the channels and the collectors, the
-- readings of the clock (the n-th call of time.Now gives `clock n`), and the notes in which
-- middlewares and handlers keep what is theirs.
pub record Core : Type 0 where
  pub channels : Channels
  pub subscribers : List (Text × List Subscription)
  pub wildcard_subs : List WildcardEntry
  pub sub_seq : ℕ
  pub collectors : Collectors
  pub clock : ℕ → ℕ
  pub readings : ℕ
  pub notes : List ℕ

-- A bus with nothing on it.
abbrev pub empty_core : (ℕ → ℕ) → Core
empty_core clock = record {
  channels = [];
  subscribers = [];
  wildcard_subs = [];
  sub_seq = 0;
  collectors = [];
  clock = clock;
  readings = 0;
  notes = [];
}

-- asyncSub, with the number of its workers that have not returned, and whether its sync.Once has run.
pub record AsyncSub : Type 0 where
  pub topic : Text
  pub ch : ℕ
  pub canceled : Bool
  pub workers : ℕ
  pub once : Bool
