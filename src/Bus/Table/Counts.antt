-- ===== src/Bus/Table/Counts.antt =====
-- How often subscriptions of a kind stand in the tables, whatever the order.
pub mod Removal
use eventbus.Base.{
  ℕ, zero, suc, ◌+◌, ◌≤◌, ◌<◌, List, [], ◌∷◌, ◌++◌, ◌≡◌, refl, inl, inr, Bool, true, false, ◌&&◌,
  Option, none, some, Text, arith, Bool-cases, Option-cases, ◌==◌, if◌then◌else◌, text_eq, ap,
}
use eventbus.Wildcard.{is_wildcard_pattern}
use eventbus.Bus.State.{Subscription, WildcardEntry, Core}
use eventbus.Bus.Table.{
  subs_of, put_subs, add_wildcard, add_channel, remove_first, remove_wildcard, remove_channel,
  new_subscription, shrink_entry, keep_before,
}

abbrev pub one_if : Bool → ℕ
one_if true = 1
one_if false = 0

abbrev pub count_if : (Subscription → Bool) → List Subscription → ℕ
count_if p [] = 0
count_if p (s ∷ subs) = one_if (p s) + count_if p subs

abbrev pub count_exact : (Subscription → Bool) → List (Text × List Subscription) → ℕ
count_exact p [] = 0
count_exact p ((k, subs) ∷ m) = count_if p subs + count_exact p m

abbrev pub count_wild : (Subscription → Bool) → List WildcardEntry → ℕ
count_wild p [] = 0
count_wild p (e ∷ es) = count_if p e.subs + count_wild p es

-- The subscriptions on the bus that pass a test.
abbrev pub count_all : (Subscription → Bool) → Core → ℕ
count_all p w = count_exact p w.subscribers + count_wild p w.wildcard_subs

abbrev pub on_channel : ℕ → Subscription → Bool
on_channel ch s = s.ch == ch

pub count_if-append :
    (p : Subscription → Bool) (xs ys : List Subscription)
    → count_if p (xs ++ ys) ≡ count_if p xs + count_if p ys
count_if-append p [] ys = omega arith
count_if-append p (x ∷ xs) ys = omega (arith, count_if-append p xs ys)

-- A narrower test passes no more subscriptions.
count_if-le :
    (p q : Subscription → Bool) (xs : List Subscription)
    → count_if (λ s. p s && q s) xs ≤ count_if p xs
count_if-le p q [] = omega arith
count_if-le p q (x ∷ xs) = ground (arith, count_if-le p q xs)

count_exact-le :
    (p q : Subscription → Bool) (m : List (Text × List Subscription))
    → count_exact (λ s. p s && q s) m ≤ count_exact p m
count_exact-le p q [] = omega arith
count_exact-le p q ((k, subs) ∷ m) = omega (arith, count_if-le p q subs, count_exact-le p q m)

count_wild-le :
    (p q : Subscription → Bool) (es : List WildcardEntry)
    → count_wild (λ s. p s && q s) es ≤ count_wild p es
count_wild-le p q [] = omega arith
count_wild-le p q (e ∷ es) = omega (arith, count_if-le p q e.subs, count_wild-le p q es)

pub count_all-le :
    (p q : Subscription → Bool) (w : Core) → count_all (λ s. p s && q s) w ≤ count_all p w
count_all-le p q w =
    omega (arith, count_exact-le p q w.subscribers, count_wild-le p q w.wildcard_subs)

-- What is stored under a key takes the place of what was there.
count_exact-put_subs :
    (p : Subscription → Bool) (t : Text) (subs : List Subscription)
    (m : List (Text × List Subscription))
    → count_exact p (put_subs t subs m) + count_if p (subs_of t m)
      ≡ count_exact p m + count_if p subs
unfolding put_subs subs_of
count_exact-put_subs p t subs [] = omega arith
count_exact-put_subs p t subs ((k, old) ∷ m) =
    let ih = count_exact-put_subs p t subs m in
    elim (Bool-cases (text_eq k t)) [ inl e ↦ rw e (omega arith) | inr e ↦ rw e (omega arith) ]

count_wild-add_wildcard :
    (p : Subscription → Bool) (t : Text) (s : Subscription) (es : List WildcardEntry)
    → count_wild p (add_wildcard t s es) ≡ count_wild p es + one_if (p s)
unfolding add_wildcard
count_wild-add_wildcard p t s [] = omega arith
count_wild-add_wildcard p t s (e ∷ es) =
    let ih = count_wild-add_wildcard p t s es in
    let added = count_if-append p e.subs (s ∷ []) in
    elim (Bool-cases (text_eq e.pattern t)) [
      | inl same ↦ rw same (omega arith)
      | inr other ↦ rw other (omega arith)
    ]

-- addChannel adds one subscription, the new one.
pub count_all-add_channel :
    (p : Subscription → Bool) (t : Text) (ch : ℕ) (w : Core)
    → count_all p (add_channel t ch w)
      ≡ count_all p w + one_if (p (new_subscription (add_channel t ch w).sub_seq t ch))
unfolding add_channel
count_all-add_channel p t ch w = elim (Bool-cases (is_wildcard_pattern t)) [
  | inl wild ↦ rw wild (omega (arith, count_wild-add_wildcard p t _ w.wildcard_subs))
  | inr plain ↦ rw plain (
      omega (
        arith,
        count_exact-put_subs p t (subs_of t w.subscribers ++ new_subscription _ t ch ∷ [])
            w.subscribers,
        count_if-append p (subs_of t w.subscribers) (new_subscription _ t ch ∷ []),
      ))
]
