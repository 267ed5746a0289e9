-- ===== src/Channel/Sends.antt =====
-- What a send does to each channel.
use eventbus.Base.{
  ℕ, [], ◌∷◌, ◌++◌, ◌≡◌, inl, inr, Bool, false, not, ◌&&◌, Option, none, some, get_elem?, length,
  arith, ltb, if◌then◌else◌, Option-cases, Bool-cases, ◌==◌, get_elem?-set_self, get_elem?-set_ne,
  ◌≢◌,
}
use eventbus.Event.{Event}
use eventbus.Channel.{Channel, Channels, send_safe}

-- Whether a send succeeds: the channel is there, open, and not full.
abbrev pub room : Option Channel → Bool
room none = false
room (some c) = not c.closed && ltb (length c.queue) c.capacity

abbrev pub has_room : Channels → ℕ → Bool
has_room chs i = room (get_elem? chs i)

abbrev pub pushed : Event → Option Channel → Option Channel
pushed e none = none
pushed e (some c) = some (record c { queue = c.queue ++ e ∷ [] })

-- sendSafe answers whether there was room.
pub send_safe-has_room :
    (i : ℕ) (e : Event) (chs : Channels) → (send_safe i e chs).1 ≡ has_room chs i
unfolding send_safe
send_safe-has_room i e chs = elim (Option-cases (get_elem? chs i)) [
  | inl missing ↦ rw missing
  | inr (c, found) ↦ rw found (ground arith)
]

-- The event is added at the end of the channel that it was sent to, and no other channel changes.
pub send_safe-get :
    (i j : ℕ) (e : Event) (chs : Channels)
    → get_elem? (send_safe i e chs).0 j
      ≡ (if j == i && has_room chs i then pushed e (get_elem? chs j) else get_elem? chs j)
unfolding send_safe
send_safe-get i j e chs = elim (Option-cases (get_elem? chs i)) [
  | inl missing ↦ rw missing (ground arith)
  | inr (c, found) ↦ elim (Bool-cases (j == i)) [
    | inl same ↦
        let same' : j ≡ i = ground arith in
        let written = get_elem?-set_self chs i (record c { queue = c.queue ++ e ∷ [] }) c found in
        rw (same', found) (ground (arith, written))
    | inr other ↦
        let other' : i ≢ j = λ q. ground arith in
        let kept = get_elem?-set_ne chs (record c { queue = c.queue ++ e ∷ [] }) other' in
        rw (other, found) (ground (arith, kept))
  ]
]
