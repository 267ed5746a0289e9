-- ===== src/Bus/Roster.antt =====
-- What the subscription tables of bus.go stand for: a bag of subscriptions, with no table, order,
-- grouping or cached segments.
pub mod Removal
pub mod Refinement
use mathlib.Core.Quot
use mathlib.Core.Quot.{Quot, Quot-set}
use eventbus.Base.{
  ℕ, ◌+◌, List, [], ◌∷◌, ◌++◌, ◌≡◌, refl, ◌∙◌, Bool, true, false, not, ◌&&◌, Text, text_eq, arith,
  if◌then◌else◌, Bool-cases, inl, inr,
}
use eventbus.Bus.State.{Subscription, WildcardEntry, Core}
use eventbus.Bus.Table.Counts.{
  one_if, count_if, count_exact, count_wild, count_all, on_channel, count_if-append,
}
use eventbus.Bus.Dispatch.Targets.{receives}

-- The same subscriptions, each as often, whatever test singles them out.
abbrev pub SameSubs : List Subscription → List Subscription → Type 0
SameSubs xs ys = (p : Subscription → Bool) → count_if p xs ≡ count_if p ys

abbrev pub Roster : Type 0
Roster = Quot SameSubs

abbrev pub bag : List Subscription → Roster
bag xs = Quot.mk xs

-- How many of a bag pass a test.
pub tally : (Subscription → Bool) → Roster → ℕ
tally p = Quot.lift (hlevel) (count_if p) (λ xs ys h. h p)

pub tally-bag :
    (p : Subscription → Bool) (xs : List Subscription) → tally p (bag xs) ≡ count_if p xs
unfolding tally
tally-bag p xs = refl

pub join : Subscription → Roster → Roster
join s = Quot.lift Quot-set (λ xs. bag (s ∷ xs)) (λ xs ys h. Quot.sound (λ p. omega (arith, h p)))

pub keep : (Subscription → Bool) → List Subscription → List Subscription
keep f [] = []
keep f (s ∷ subs) = if f s then s ∷ keep f subs else keep f subs

pub count_if-keep :
    (p f : Subscription → Bool) (xs : List Subscription)
    → count_if p (keep f xs) ≡ count_if (λ s. p s && f s) xs
unfolding keep
count_if-keep p f [] = refl
count_if-keep p f (s ∷ xs) = ground (arith, count_if-keep p f xs)

keep-SameSubs :
    (f : Subscription → Bool) (xs ys : List Subscription)
    → SameSubs xs ys
    → SameSubs (keep f xs) (keep f ys)
keep-SameSubs f xs ys h p =
    omega (arith, count_if-keep p f xs, count_if-keep p f ys, h (λ s. p s && f s))

pub those : (Subscription → Bool) → Roster → Roster
those f =
    Quot.lift Quot-set (λ xs. bag (keep f xs)) (λ xs ys h. Quot.sound (keep-SameSubs f xs ys h))

-- Those whose topic receives the event's.
abbrev pub audience : Text → Roster → Roster
audience t = those (λ s. receives s.topic t)

abbrev pub belongs : Text → ℕ → Subscription → Bool
belongs topic ch s = on_channel ch s && text_eq s.topic topic

-- All but the subscriptions that a channel has to a topic.
abbrev pub leave : Text → ℕ → Roster → Roster
leave topic ch = those (λ s. not (belongs topic ch s))

abbrev pub exact_subs : List (Text × List Subscription) → List Subscription
exact_subs [] = []
exact_subs ((k, subs) ∷ m) = subs ++ exact_subs m

abbrev pub wild_subs : List WildcardEntry → List Subscription
wild_subs [] = []
wild_subs (e ∷ es) = e.subs ++ wild_subs es

abbrev pub all_subs : Core → List Subscription
all_subs w = exact_subs w.subscribers ++ wild_subs w.wildcard_subs

-- The bag that a bus stands for.
pub roster : Core → Roster
roster w = bag (all_subs w)

count_exact-exact_subs :
    (p : Subscription → Bool) (m : List (Text × List Subscription))
    → count_if p (exact_subs m) ≡ count_exact p m
count_exact-exact_subs p [] = refl
count_exact-exact_subs p ((k, subs) ∷ m) =
    omega (arith, count_exact-exact_subs p m, count_if-append p subs (exact_subs m))

count_wild-wild_subs :
    (p : Subscription → Bool) (es : List WildcardEntry)
    → count_if p (wild_subs es) ≡ count_wild p es
count_wild-wild_subs p [] = refl
count_wild-wild_subs p (e ∷ es) =
    omega (arith, count_wild-wild_subs p es, count_if-append p e.subs (wild_subs es))

pub count_if-all_subs :
    (p : Subscription → Bool) (w : Core) → count_if p (all_subs w) ≡ count_all p w
count_if-all_subs p w = omega (
  arith,
  count_exact-exact_subs p w.subscribers,
  count_wild-wild_subs p w.wildcard_subs,
  count_if-append p (exact_subs w.subscribers) (wild_subs w.wildcard_subs),
)
