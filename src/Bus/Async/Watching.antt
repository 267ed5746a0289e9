-- ===== src/Bus/Async/Watching.antt =====
-- The watcher of a subscription sees to its end when the context is cancelled.
use eventbus.Base.{ℕ, zero, suc, List, [], ◌∷◌, ◌≡◌, refl, ap, ◌⊎◌, inl, inr, true, false, arith}
use eventbus.Event.{Event}
use eventbus.Bus.Async.{
  fresh, blocked, calling, Stage, not_begun, waiting, removed, shut, over, Async, subscribe_async,
  woken, Step, delivers, parent_cancels, tracks, watcher_blocks, watcher_sees_parent,
  watcher_sees_sub, watcher_unsubscribes, watcher_joins, unsubscribes, takes, finishes, leaves,
  removes, shuts, untracks, bus_closes, Steps, done, next,
}
use eventbus.Bus.Async.Ending.{begun, is_over, IsOrderly, run-IsOrderly, Steps-IsOrderly}

-- An Unsubscribe is under way, or the watcher is about to call it.
abbrev pub WillEnd : Async → Type 0
WillEnd s = (s.watcher ≡ calling) ⊎ (begun s.stage ≡ true)

-- The watcher waits at its select, or has been woken by the context.
abbrev Watched : Async → Type 0
Watched s = ((s.watcher ≡ blocked) × (s.parent_done ≡ false) × (s.sub_done ≡ false)) ⊎ WillEnd s

woken-Watched :
    (s : Async)
    → Watched s
    → Watched (record s { parent_done = true; sub_done = true; watcher = woken s.watcher })
woken-Watched s (inl (waits, p, d)) = inr (inl (ap woken waits))
woken-Watched s (inr (inl c)) = inr (inl (ap woken c))
woken-Watched s (inr (inr g)) = inr (inr g)

fresh-begun : (s : Async) → s.watcher ≡ fresh → Watched s → begun s.stage ≡ true
fresh-begun s f (inl (waits, p, d)) = absurd (ground arith)
fresh-begun s f (inr (inl c)) = absurd (ground arith)
fresh-begun s f (inr (inr g)) = g

Step-Watched : {s t : Async} {es : List Event} → Step s es t → Watched s → Watched t
Step-Watched (delivers e s c room) w = w
Step-Watched (parent_cancels s h) w = woken-Watched s w
Step-Watched (tracks s h) w = w
Step-Watched (watcher_blocks s h p q) w = inr (inr (fresh-begun s h w))
Step-Watched (watcher_sees_parent s h p) w = inr (inl refl)
Step-Watched (watcher_sees_sub s h p) w = inr (inr (fresh-begun s h w))
Step-Watched (watcher_unsubscribes s h p) w = inr (inr refl)
Step-Watched (watcher_joins s h p) w = inr (inr (ap begun p))
Step-Watched (unsubscribes s h p) w = inr (inr refl)
Step-Watched (takes e es n s idle inbox) w = w
Step-Watched (finishes before e after s busy) w = w
Step-Watched (leaves n s idle why) w = w
Step-Watched (removes s h i b) w = inr (inr refl)
Step-Watched (shuts s h) w = inr (inr refl)
Step-Watched (untracks s h) w = inr (inr refl)
Step-Watched (bus_closes s) w = w

Steps-Watched : {s t : Async} {es : List Event} → Steps s es t → Watched s → Watched t
Steps-Watched done w = w
Steps-Watched (next s more) w = Steps-Watched more (Step-Watched s w)

-- The Unsubscribe comes to its end, with no further event.
abbrev pub CanEnd : Async → Type 0
CanEnd s = (t : Async) × (Steps s [] t) × (is_over t.stage ≡ true)

after_step : {s t : Async} → Step s [] t → CanEnd t → CanEnd s
after_step st (u, run, last) = (u, next st run, last)

from_shut : (s : Async) → s.stage ≡ shut → CanEnd s
from_shut s g = after_step (untracks s g) (_, done, refl)

from_removed : (s : Async) → s.stage ≡ removed → CanEnd s
from_removed s g = after_step (shuts s g) (from_shut _ refl)

-- The workers leave, one after the other; before that, they finish what they have in hand.
workers_leave :
    (n : ℕ) (s : Async)
    → s.idle ≡ n
    → s.busy ≡ []
    → s.sub_done ≡ true
    → s.stage ≡ waiting
    → CanEnd s
workers_leave zero s idle busy d g = after_step (removes s g idle busy) (from_removed _ refl)
workers_leave (suc n) s idle busy d g =
    after_step (leaves n s idle (inl d)) (workers_leave n _ refl busy d g)

workers_finish :
    (es : List Event) (s : Async) → s.busy ≡ es → s.sub_done ≡ true → s.stage ≡ waiting → CanEnd s
workers_finish [] s busy d g = workers_leave s.idle s refl busy d g
workers_finish (e ∷ es) s busy d g =
    after_step (finishes [] e es s busy) (workers_finish es _ refl d g)

from_stage : (g : Stage) (s : Async) → s.stage ≡ g → IsOrderly s → begun g ≡ true → CanEnd s
from_stage not_begun s e o h = absurd (ground arith)
from_stage waiting s e o h = workers_finish s.busy s refl (ground arith) e
from_stage removed s e o h = from_removed s e
from_stage shut s e o h = from_shut s e
from_stage over s e o h = (s, done, ap is_over e)

from_calling : (g : Stage) (s : Async) → s.stage ≡ g → IsOrderly s → s.watcher ≡ calling → CanEnd s
from_calling not_begun s e o c =
    after_step (watcher_unsubscribes s c e) (workers_finish s.busy _ refl refl refl)
from_calling waiting s e o c = from_stage waiting s e o refl
from_calling removed s e o c = from_stage removed s e o refl
from_calling shut s e o c = from_stage shut s e o refl
from_calling over s e o c = from_stage over s e o refl

will_end : (s : Async) → IsOrderly s → WillEnd s → CanEnd s
will_end s o (inl c) = from_calling s.stage s refl o c
will_end s o (inr g) = from_stage s.stage s refl o g

parent_live : (s : Async) → IsOrderly s → s.sub_done ≡ false → s.parent_done ≡ false
parent_live s o live = let derived = o.derived in ground arith

only_will : (s : Async) → s.parent_done ≡ true → Watched s → WillEnd s
only_will s h (inl (waits, p, d)) = absurd (ground arith)
only_will s h (inr w) = w

-- If the watcher has come to its select before any context was done, then whatever the goroutines do
-- from there, once the context that SubscribeAsync was given is cancelled, Unsubscribe is running or
-- over or the watcher is about to call it, and it can come to its end with no further event.
pub canceled-WillEnd :
    {s t : Async} {es fs : List Event} (n : ℕ)
    → Steps (subscribe_async false n) es s
    → s.watcher ≡ blocked
    → s.sub_done ≡ false
    → Steps s fs t
    → t.parent_done ≡ true
    → WillEnd t × CanEnd t
canceled-WillEnd {s} {t} n before waits live run canceled =
    let o = run-IsOrderly false n before in
    let not_yet : s.parent_done ≡ false = parent_live s o live in
    let will = only_will t canceled (Steps-Watched run (inl (waits, not_yet, live))) in
    (will, will_end t (Steps-IsOrderly run o) will)
