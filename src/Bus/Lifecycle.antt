-- ===== src/Bus/Lifecycle.antt =====
-- SubscribeAsync, asyncSub.Unsubscribe and Close of bus.go. An Unsubscribe is one step here: the wait
-- for the workers ends when all have seen the cancelled context and returned.
pub mod Unsubscribe
pub mod Close
pub mod Closing
pub mod Invariant
pub mod Reachable
use eventbus.Base.{
  ℕ, zero, suc, List, [], ◌∷◌, ◌++◌, Bool, true, false, Option, none, some, Text, get_elem?, set,
  length, ◌==◌, if◌then◌else◌,
}
use eventbus.Channel.{Channels, close_safe}
use eventbus.Bus.State.{Subscription, WildcardEntry, Core, AsyncSub}
use eventbus.Bus.Table.{remove_channel, subscribe}
use eventbus.Bus.Chain.{EventBus}

-- trackSub.
abbrev pub track_sub : ℕ → EventBus → EventBus
track_sub i eb = record eb { active_subs = eb.active_subs ++ i ∷ [] }

unfoldable pub erase_first : ℕ → List ℕ → List ℕ
erase_first i [] = []
erase_first i (j ∷ is) = if j == i then is else j ∷ erase_first i is

-- untrackSub.
abbrev pub untrack_sub : ℕ → EventBus → EventBus
untrack_sub i eb = record eb { active_subs = erase_first i eb.active_subs }

-- Subscribe, as a method of the bus.
unfoldable pub subscribe_bus : Text → EventBus → EventBus × ℕ
subscribe_bus topic eb = let (w, ch) = subscribe topic eb.core in (record eb { core = w }, ch)

-- SubscribeAsync: the number of the new subscription; `concurrency` workers are started.
unfoldable pub subscribe_async : Text → ℕ → EventBus → EventBus × ℕ
unfolding subscribe_bus
subscribe_async topic concurrency eb =
    let (eb', ch) = subscribe_bus topic eb in
    let i = length eb'.async_subs in
    let sub : AsyncSub = record {
      topic = topic;
      ch = ch;
      canceled = false;
      workers = concurrency;
      once = false;
    } in
    (track_sub i (record eb' { async_subs = eb'.async_subs ++ sub ∷ [] }), i)

-- The function that the sync.Once of Unsubscribe runs.
unfoldable pub release_sub : ℕ → AsyncSub → EventBus → EventBus
release_sub i sub eb =
    let gone = record sub { canceled = true; workers = 0; once = true } in
    let w = remove_channel sub.topic sub.ch eb.core in
    untrack_sub i (record eb {
      core = record w { channels = close_safe sub.ch w.channels };
      async_subs = set eb.async_subs i gone;
    })

abbrev pub run_once : ℕ → Option AsyncSub → EventBus → EventBus
run_once i none eb = eb
run_once i (some sub) eb = if sub.once then eb else release_sub i sub eb

-- Unsubscribe.
unfoldable pub unsubscribe : ℕ → EventBus → EventBus
unsubscribe i eb = run_once i (get_elem? eb.async_subs i) eb

unfoldable pub unsubscribe_all : List ℕ → EventBus → EventBus
unsubscribe_all [] eb = eb
unsubscribe_all (i ∷ is) eb = unsubscribe_all is (unsubscribe i eb)

-- The loops of Close over the channels that are left.
unfoldable pub close_subs : List Subscription → Channels → Channels
close_subs [] chs = chs
close_subs (s ∷ subs) chs = close_subs subs (close_safe s.ch chs)

unfoldable pub close_exact : List (Text × List Subscription) → Channels → Channels
unfolding close_subs
close_exact [] chs = chs
close_exact ((k, subs) ∷ m) chs = close_exact m (close_subs subs chs)

unfoldable pub close_wild : List WildcardEntry → Channels → Channels
unfolding close_subs
close_wild [] chs = chs
close_wild (e ∷ es) chs = close_wild es (close_subs e.subs chs)

-- The second half of Close, under the lock.
unfoldable pub close_tables : Core → Core
unfolding close_exact close_wild
close_tables w = record w {
  channels = close_wild w.wildcard_subs (close_exact w.subscribers w.channels);
  subscribers = [];
  wildcard_subs = [];
}

-- Close; it returns nil always.
unfoldable pub close : EventBus → EventBus
unfolding unsubscribe_all close_tables
close eb =
    let eb' = unsubscribe_all eb.active_subs (record eb { active_subs = [] }) in
    record eb' { core = close_tables eb'.core }
