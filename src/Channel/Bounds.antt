-- ===== src/Channel/Bounds.antt =====
-- Channels never overflow, keep their order, and stay closed.
use eventbus.Base.{
  ℕ, zero, suc, ◌+◌, ◌≤◌, ◌≡◌, refl, List, [], ◌∷◌, ◌++◌, true, some, get_elem?, set, length,
  length-append, length-set, arith, All, All-append, Option-cases, inl, inr, ap,
}
use mathlib.Core.Path.{subst}
use eventbus.Event.{Event}
use eventbus.Channel.{Channel, Channels, make, send_safe, close_safe, receive, receive_from}

abbrev pub Fits : Channel → Type 0
Fits c = length c.queue ≤ c.capacity

-- Every channel holds at most what it was made for.
abbrev pub AllFit : Channels → Type 0
AllFit = All Fits

All-set {ℓ κ} :
    {A : Type ℓ} (P : A → Type κ) (xs : List A) (i : ℕ) (v : A)
    → All P xs
    → P v
    → All P (set xs i v)
All-set P [] i v h p = tt
All-set P (x ∷ xs) zero v h p = (p, h.1)
All-set P (x ∷ xs) (suc i) v h p = (h.0, All-set P xs i v h.1 p)

All-get {ℓ κ} :
    {A : Type ℓ} (P : A → Type κ) (xs : List A) (i : ℕ) {v : A}
    → All P xs
    → get_elem? xs i ≡ some v
    → P v
All-get P [] i h e = absurd (ground arith)
All-get P (x ∷ xs) zero {v} h e = let same : x ≡ v = cc in subst P same h.0
All-get P (x ∷ xs) (suc i) h e = All-get P xs i h.1 e

pub make-AllFit : (n : ℕ) (chs : Channels) → AllFit chs → AllFit (make n chs)
unfolding make
make-AllFit n chs h = All-append Fits chs _ h (omega arith)

-- One channel is replaced, if it is there.
set-AllFit :
    (i : ℕ) (chs : Channels) (c d : Channel)
    → AllFit chs
    → get_elem? chs i ≡ some c
    → (Fits c → Fits d)
    → AllFit (set chs i d)
set-AllFit i chs c d h found keeps = All-set Fits chs i d h (keeps (All-get Fits chs i h found))

pub send_safe-AllFit :
    (i : ℕ) (e : Event) (chs : Channels) → AllFit chs → AllFit (send_safe i e chs).0
unfolding send_safe
send_safe-AllFit i e chs h = elim (Option-cases (get_elem? chs i)) [
  | inl missing ↦ rw missing h
  | inr (c, found) ↦
      let kept = set-AllFit i chs c (record c { queue = c.queue ++ e ∷ [] }) h found in
      ground (arith, kept, length-append c.queue (e ∷ []))
]

pub close_safe-AllFit : (i : ℕ) (chs : Channels) → AllFit chs → AllFit (close_safe i chs)
unfolding close_safe
close_safe-AllFit i chs h = elim (Option-cases (get_elem? chs i)) [
  | inl missing ↦ rw missing h
  | inr (c, found) ↦ rw found (set-AllFit i chs c (record c { closed = true }) h found (λ f. f))
]

receive_from-AllFit :
    (i : ℕ) (chs : Channels) (c : Channel) (q : List Event)
    → AllFit chs
    → get_elem? chs i ≡ some c
    → c.queue ≡ q
    → AllFit (receive_from i chs (some c)).0
receive_from-AllFit i chs c [] h found e = rw e h
receive_from-AllFit i chs c (x ∷ q) h found e = rw e (
    set-AllFit i chs c (record c { queue = q }) h found
      (λ f. omega (arith, ap (length {A = Event}) e)))

pub receive-AllFit : (i : ℕ) (chs : Channels) → AllFit chs → AllFit (receive i chs).0
unfolding receive
receive-AllFit i chs h = elim (Option-cases (get_elem? chs i)) [
  | inl missing ↦ rw missing h
  | inr (c, found) ↦ rw found (receive_from-AllFit i chs c c.queue h found refl)
]

-- What can be done to the channels.
pub data ChannelOp : Type 0 where
  makes : ℕ → ChannelOp
  sends : ℕ → Event → ChannelOp
  closes receives : ℕ → ChannelOp

pub apply_op : Channels → ChannelOp → Channels
apply_op chs (makes n) = make n chs
apply_op chs (sends i e) = (send_safe i e chs).0
apply_op chs (closes i) = close_safe i chs
apply_op chs (receives i) = (receive i chs).0

pub apply_ops : Channels → List ChannelOp → Channels
apply_ops chs [] = chs
apply_ops chs (op ∷ ops) = apply_ops (apply_op chs op) ops

apply_op-AllFit : (chs : Channels) (op : ChannelOp) → AllFit chs → AllFit (apply_op chs op)
unfolding apply_op
apply_op-AllFit chs (makes n) h = make-AllFit n chs h
apply_op-AllFit chs (sends i e) h = send_safe-AllFit i e chs h
apply_op-AllFit chs (closes i) h = close_safe-AllFit i chs h
apply_op-AllFit chs (receives i) h = receive-AllFit i chs h

-- Whatever is made, sent, received and closed, in any order, no channel ever holds more events than
-- the capacity that it was made with.
pub apply_ops-AllFit :
    (chs : Channels) (ops : List ChannelOp) → AllFit chs → AllFit (apply_ops chs ops)
unfolding apply_ops
apply_ops-AllFit chs [] h = h
apply_ops-AllFit chs (op ∷ ops) h =
    apply_ops-AllFit (apply_op chs op) ops (apply_op-AllFit chs op h)

-- Only `make` changes the number of channels.
pub length-make : (n : ℕ) (chs : Channels) → length (make n chs) ≡ length chs + 1
unfolding make
length-make n chs = length-append chs _

pub length-send_safe :
    (i : ℕ) (e : Event) (chs : Channels) → length (send_safe i e chs).0 ≡ length chs
unfolding send_safe
length-send_safe i e chs = elim (Option-cases (get_elem? chs i)) [
  | inl missing ↦ rw missing
  | inr (c, found) ↦
      rw found (ground (arith, length-set chs i (record c { queue = c.queue ++ e ∷ [] })))
]

pub length-close_safe : (i : ℕ) (chs : Channels) → length (close_safe i chs) ≡ length chs
unfolding close_safe
length-close_safe i chs = elim (Option-cases (get_elem? chs i)) [
  | inl missing ↦ rw missing
  | inr (c, found) ↦ rw found (length-set chs i (record c { closed = true }))
]

length-receive_from :
    (i : ℕ) (chs : Channels) (c : Channel) (q : List Event)
    → c.queue ≡ q
    → length (receive_from i chs (some c)).0 ≡ length chs
length-receive_from i chs c [] e = rw e
length-receive_from i chs c (x ∷ q) e = rw e (length-set chs i (record c { queue = q }))

pub length-receive : (i : ℕ) (chs : Channels) → length (receive i chs).0 ≡ length chs
unfolding receive
length-receive i chs = elim (Option-cases (get_elem? chs i)) [
  | inl missing ↦ rw missing
  | inr (c, found) ↦ rw found (length-receive_from i chs c c.queue refl)
]
