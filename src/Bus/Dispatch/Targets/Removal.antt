-- ===== src/Bus/Dispatch/Targets/Removal.antt =====
-- A channel that is removed gets no event any more.
use eventbus.Base.{
  ℕ, ◌≤◌, ◌<◌, ◌≡◌, inl, inr, Bool, false, ◌&&◌, Text, arith, Bool-cases, ◌==◌, if◌then◌else◌,
}
use eventbus.Bus.State.{Subscription, Core}
use eventbus.Bus.Table.{remove_channel}
use eventbus.Bus.Table.Valid.{IsValid}
use eventbus.Bus.Table.Valid.Removal.{remove_channel-IsValid}
use eventbus.Bus.Table.Counts.{one_if, count_if, count_all, on_channel, count_all-le}
use eventbus.Bus.Table.Counts.Removal.{subs_at, remove_channel-RemovesOne}
use eventbus.Bus.Dispatch.Targets.{targets, receives, count_if-targets}

-- Each channel belongs to one subscription at most, as Subscribe makes it.
abbrev pub OnePerChannel : Core → Type 0
OnePerChannel w = (ch : ℕ) → count_all (on_channel ch) w ≤ 1

one_if-on : (s : Subscription) (ch : ℕ) → s.ch ≡ ch → one_if (on_channel ch s) ≡ 1
one_if-on s ch e = ground arith

one_if-off :
    (s : Subscription) (ch : ℕ) (b : Bool)
    → (s.ch == ch) ≡ false
    → one_if (on_channel ch s && b) ≡ 0
one_if-off s ch b e = ground arith

-- In well-formed tables with one subscription to a channel at most, once removeChannel has returned for
-- a channel that was subscribed to the topic, no event of any topic goes to it any more, and every
-- other channel is a target as often as before.
pub targets-remove_channel :
    (topic : Text) (ch : ℕ) (w : Core)
    → IsValid w
    → OnePerChannel w
    → 0 < count_if (on_channel ch) (subs_at topic w)
    → (t : Text) (other : ℕ)
    → count_if (on_channel other) (targets (remove_channel topic ch w) t)
      ≡ (if other == ch then 0 else count_if (on_channel other) (targets w t))
targets-remove_channel topic ch w v one there t other =
    let w' = remove_channel topic ch w in
    let v' = remove_channel-IsValid topic ch w v in
    let (s, on, counts) = remove_channel-RemovesOne topic ch w there in
    elim (Bool-cases (other == ch)) [
      | inl same ↦
          let same' : other ≡ ch = ground arith in
          rw (same, same')
            (omega (
              arith,
              count_if-targets (on_channel ch) t w' v',
              count_all-le (on_channel ch) (λ r. receives r.topic t) w',
              counts (on_channel ch),
              one ch,
              one_if-on s ch on,
            ))
      | inr differs ↦ rw differs (
          omega (
            arith,
            count_if-targets (on_channel other) t w' v',
            count_if-targets (on_channel other) t w v,
            counts (λ r. on_channel other r && receives r.topic t),
            one_if-off s other (receives s.topic t) (rw on (ground arith)),
          ))
    ]
