-- ===== src/Pool/Attached/Tables.antt =====
-- The subscriptions that stand for a pool's channel, counted: what becomes of them, and when dispatch
-- reaches them.
use eventbus.Base.{
  ℕ, ◌≤◌, List, [], ◌∷◌, ◌≡◌, refl, inl, inr, Bool, false, not, ◌&&◌, Option, none, some, Text,
  text_eq, text_eq→eq, arith, ltb, ◌==◌, if◌then◌else◌, Bool-cases,
}
use eventbus.Event.{Event}
use eventbus.Bus.State.{Subscription, Core}
use eventbus.Bus.Table.{remove_channel}
use eventbus.Bus.Table.Counts.{count_if, count_all, on_channel}
use eventbus.Bus.Dispatch.{deliver}
use eventbus.Bus.Dispatch.Targets.{receives}
use eventbus.Bus.Dispatch.Receipts.{on_list}
use eventbus.Bus.Lifecycle.Invariant.{CoreInv}
use eventbus.Bus.Roster.{belongs, all_subs, count_if-all_subs}
use eventbus.Bus.Roster.Removal.{count_all-removed}

-- Others' subscriptions are not the pool's.
removed_others :
    (topic t : Text) (ch c : ℕ) (xs : List Subscription)
    → (c == ch) ≡ false
    → count_if (λ s. belongs topic ch s && not (belongs t c s)) xs ≡ count_if (belongs topic ch) xs
removed_others topic t ch c [] ne = refl
removed_others topic t ch c (s ∷ xs) ne = ground (arith, removed_others topic t ch c xs ne)

pub count_all-removes :
    (topic t : Text) (ch c : ℕ) (w : Core)
    → CoreInv w
    → (c == ch) ≡ false
    → count_all (belongs topic ch) (remove_channel t c w) ≡ count_all (belongs topic ch) w
count_all-removes topic t ch c w v ne = omega (
  arith,
  count_all-removed t c w v.valid v.one (belongs topic ch),
  count_if-all_subs (λ s. belongs topic ch s && not (belongs t c s)) w,
  count_if-all_subs (belongs topic ch) w,
  removed_others topic t ch c (all_subs w) ne,
)

-- A delivery leaves the tables.
pub count_all-deliver :
    (p : Subscription → Bool) (o : Option ℕ) (s : Subscription) (e : Event) (w : Core)
    → count_all p (deliver o s e w) ≡ count_all p w
unfolding deliver
count_all-deliver p none s e w = refl
count_all-deliver p (some k) s e w = refl

belongs-le :
    (topic : Text) (ch : ℕ) (xs : List Subscription)
    → count_if (belongs topic ch) xs ≤ count_if (on_channel ch) xs
belongs-le topic ch [] = omega arith
belongs-le topic ch (s ∷ xs) = ground (arith, belongs-le topic ch xs)

-- The subscriptions to a channel that stands under one topic alone.
pub count_if-one_topic :
    (topic t : Text) (ch : ℕ) (xs : List Subscription)
    → count_if (on_channel ch) xs ≡ count_if (belongs topic ch) xs
    → count_if (λ s. on_channel ch s && receives s.topic t) xs
      ≡ (if receives topic t then count_if (on_channel ch) xs else 0)
count_if-one_topic topic t ch [] h = ground arith
count_if-one_topic topic t ch (s ∷ xs) h =
    let le = belongs-le topic ch xs in
    elim (Bool-cases (s.ch == ch)) [
      | inr off ↦
          let ih = count_if-one_topic topic t ch xs (ground arith) in rw off (ground (arith, ih))
      | inl on ↦ elim (Bool-cases (text_eq s.topic topic)) [
        | inr differs ↦ absurd (ground arith)
        | inl same ↦
            let ih = count_if-one_topic topic t ch xs (ground arith) in
            rw (on, text_eq→eq s.topic topic same) (ground (arith, ih))
      ]
    ]

pub on_list-count_if :
    (ch : ℕ) (xs : List Subscription) → on_list ch xs ≡ ltb 0 (count_if (on_channel ch) xs)
on_list-count_if ch [] = refl
on_list-count_if ch (s ∷ xs) = ground (arith, on_list-count_if ch xs)
