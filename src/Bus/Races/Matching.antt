-- ===== src/Bus/Races/Matching.antt =====
-- Whatever calls race with dispatch, a subscriber gets no event that it has not subscribed to.
pub mod Kept
pub mod Invariant
pub mod Reached
use eventbus.Base.{
  ℕ, zero, suc, ◌+◌, ◌≤◌, List, [], ◌∷◌, ◌++◌, ◌≡◌, ◌≢◌, refl, sym, ap, ◌∙◌, fun_ext, inl, inr,
  Bool, true, false, ◌&&◌, not, Option, none, some, Text, get_elem?, set, arith, length, ◌==◌,
  if◌then◌else◌, Bool-cases, Option-cases, All, All-append, text_eq, text_eq→eq, text_eq_refl,
}
use mathlib.Core.Path.{subst}
use eventbus.Event.{Event}
use eventbus.Channel.{Channel, Channels}
use eventbus.Bus.State.{Subscription, Core}
use eventbus.Bus.Table.Counts.{count_if, count_all, count_all-le, one_if}
use eventbus.Bus.Table.Valid.{IsValid}
use eventbus.Bus.Dispatch.Targets.{targets, receives, count_if-targets}
use eventbus.Bus.Races.{Flight, Crowd}

abbrev pub is_topic : Option Text → Text → Bool
is_topic none t = false
is_topic (some u) t = text_eq u t

-- The subscription's channel was made for its topic.
abbrev pub made_for : List Text → Subscription → Bool
made_for topics s = is_topic (get_elem? topics s.ch) s.topic

-- A channel that was made for the topic may hold an event of topic `t`.
abbrev pub may_hold : Option Text → Text → Bool
may_hold none t = false
may_hold (some u) t = receives u t

abbrev pub queue_of : Option Channel → List Event
queue_of none = []
queue_of (some c) = c.queue

-- A target that is left to a call of dispatch for an event of topic `t`.
abbrev pub matches : List Text → Text → Subscription → Bool
matches topics t s = made_for topics s && receives s.topic t

abbrev pub FlightMatches : List Text → Flight → Type 0
FlightMatches topics f = All (λ s. matches topics f.event.topic s ≡ true) f.left

-- Every event in a channel is one that the channel's topic receives.
abbrev pub QueuesMatch : List Text → Channels → Type 0
QueuesMatch topics chs =
    (i : ℕ)
    → All (λ (e : Event). may_hold (get_elem? topics i) e.topic ≡ true) (queue_of (get_elem? chs i))

All-count_if :
    (p : Subscription → Bool) (xs : List Subscription)
    → count_if (λ s. not (p s)) xs ≡ 0
    → All (λ s. p s ≡ true) xs
All-count_if p [] h = tt
All-count_if p (x ∷ xs) h = elim (Bool-cases (p x)) [
  | inl holds ↦ (holds, All-count_if p xs (ground arith))
  | inr fails ↦ absurd (ground arith)
]

-- Where every subscription's channel was made for its topic, dispatch finds matching targets.
targets-match :
    (topics : List Text) (t : Text) (w : Core)
    → IsValid w
    → count_all (λ s. not (made_for topics s)) w ≡ 0
    → All (λ s. matches topics t s ≡ true) (targets w t)
targets-match topics t w v owned = All-count_if (matches topics t) (targets w t) (
    let p = λ (s : Subscription). not (matches topics t s) in
    let found = count_if-targets p t w v in
    let narrow : (λ (s : Subscription). p s && receives s.topic t)
        ≡ (λ s. not (made_for topics s) && (p s && receives s.topic t)) =
      fun_ext (λ s. cut (made_for topics s) (receives s.topic t)) in
    let less : count_all (λ s. p s && receives s.topic t) w
        ≤ count_all (λ s. not (made_for topics s)) w =
      subst (λ f. count_all f w ≤ count_all (λ s. not (made_for topics s)) w) (sym narrow)
        (count_all-le (λ s. not (made_for topics s)) (λ s. p s && receives s.topic t) w) in
    omega (arith, found, less))
  where
    cut : (a b : Bool) → (not (a && b) && b) ≡ (not a && (not (a && b) && b))
    cut true true = refl
    cut true false = refl
    cut false true = refl
    cut false false = refl
