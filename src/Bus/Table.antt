-- ===== src/Bus/Table.antt =====
-- The subscription tables of bus.go: addChannel and removeChannel, under the write lock.
pub mod Valid
pub mod Counts
pub mod RoundTrip
use eventbus.Base.{
  ℕ, List, [], ◌∷◌, ◌++◌, Bool, true, false, Option, none, some, Text, codes, split, text_eq, ◌+◌,
  ◌==◌, if◌then◌else◌, length,
}
use eventbus.Base.Order.{u64}
use eventbus.Channel.{Channels, make}
use eventbus.Wildcard.{dot, is_wildcard_pattern}
use eventbus.Bus.Decimal.{format_uint}
use eventbus.Bus.State.{Subscription, WildcardEntry, Core}

-- The map from topics to subscriptions; a key that is not there has none.
unfoldable pub subs_of : Text → List (Text × List Subscription) → List Subscription
subs_of t [] = []
subs_of t ((k, subs) ∷ m) = if text_eq k t then subs else subs_of t m

unfoldable pub put_subs :
    Text → List Subscription → List (Text × List Subscription) → List (Text × List Subscription)
put_subs t subs [] = (t, subs) ∷ []
put_subs t subs ((k, old) ∷ m) = if text_eq k t then (k, subs) ∷ m else (k, old) ∷ put_subs t subs m

-- The loop of addChannel over the wildcard entries, and the entry that it makes at the end.
unfoldable pub add_wildcard : Text → Subscription → List WildcardEntry → List WildcardEntry
add_wildcard topic sub [] =
    record { pattern = topic; segments = split dot topic; subs = sub ∷ [] } ∷ []
add_wildcard topic sub (e ∷ es) =
    if text_eq e.pattern topic
    then record e { subs = e.subs ++ sub ∷ [] } ∷ es
    else e ∷ add_wildcard topic sub es

-- The subscription that addChannel makes, at the sequence number it has drawn.
unfoldable pub new_subscription : ℕ → Text → ℕ → Subscription
new_subscription seq topic ch = record {
  id = codes "sub-" ++ format_uint seq;
  topic = topic;
  ch = ch;
}

-- addChannel.
unfoldable pub add_channel : Text → ℕ → Core → Core
add_channel topic ch w =
    let seq = u64 (w.sub_seq + 1) in
    let sub = new_subscription seq topic ch in
    if is_wildcard_pattern topic
    then record w { sub_seq = seq; wildcard_subs = add_wildcard topic sub w.wildcard_subs }
    else record w {
      sub_seq = seq;
      subscribers = put_subs topic (subs_of topic w.subscribers ++ sub ∷ []) w.subscribers;
    }

abbrev keep_before : Subscription → Option (List Subscription) → Option (List Subscription)
keep_before s none = none
keep_before s (some rest) = some (s ∷ rest)

-- The list without the first subscription to the channel, if there is one.
unfoldable pub remove_first : ℕ → List Subscription → Option (List Subscription)
remove_first ch [] = none
remove_first ch (s ∷ subs) = if s.ch == ch then some subs else keep_before s (remove_first ch subs)

abbrev shrink_entry : WildcardEntry → List WildcardEntry → List Subscription → List WildcardEntry
shrink_entry e es [] = es
shrink_entry e es (s ∷ subs) = record e { subs = s ∷ subs } ∷ es

-- The loop of removeChannel over the wildcard entries; an entry that is left empty goes too.
unfoldable pub remove_wildcard : Text → ℕ → List WildcardEntry → List WildcardEntry
remove_wildcard topic ch [] = []
remove_wildcard topic ch (e ∷ es) =
    let rest = e ∷ remove_wildcard topic ch es in
    if text_eq e.pattern topic
    then elim (remove_first ch e.subs) [ none ↦ rest | some subs ↦ shrink_entry e es subs ]
    else rest

-- removeChannel, and RemoveChannel, which calls it.
unfoldable pub remove_channel : Text → ℕ → Core → Core
remove_channel topic ch w =
    if is_wildcard_pattern topic
    then record w { wildcard_subs = remove_wildcard topic ch w.wildcard_subs }
    else elim (remove_first ch (subs_of topic w.subscribers)) [
      | none ↦ w
      | some subs ↦ record w { subscribers = put_subs topic subs w.subscribers }
    ]

-- The capacity of a subscriber's channel.
abbrev pub channel_size : ℕ
channel_size = 64

abbrev pub next_channel : Core → ℕ
next_channel w = length w.channels

-- Subscribe: the new channel, and the bus with it.
unfoldable pub subscribe : Text → Core → Core × ℕ
unfolding add_channel
subscribe topic w = (
  add_channel topic (next_channel w) (record w { channels = make channel_size w.channels }),
  next_channel w,
)
