-- ===== src/Bus/Lifecycle/Unsubscribe.antt =====
-- Unsubscribe may be called any number of times, and undoes SubscribeAsync.
use eventbus.Base.{
  ℕ, ◌≡◌, refl, ap, inl, inr, true, false, none, some, Bool-cases, Option-cases, get_elem?,
  get_elem?-set_self,
}
use eventbus.Bus.State.{AsyncSub}
use eventbus.Bus.Chain.{EventBus}
use eventbus.Bus.Lifecycle.{unsubscribe, release_sub}

release_sub-once :
    (i : ℕ) (sub : AsyncSub) (eb : EventBus)
    → get_elem? eb.async_subs i ≡ some sub
    → get_elem? (release_sub i sub eb).async_subs i
      ≡ some (record sub { canceled = true; workers = 0; once = true })
unfolding release_sub
release_sub-once i sub eb found = get_elem?-set_self eb.async_subs i _ sub found

unsubscribe_done :
    (i : ℕ) (sub : AsyncSub) (eb : EventBus)
    → get_elem? eb.async_subs i ≡ some sub
    → sub.once ≡ true
    → unsubscribe i eb ≡ eb
unfolding unsubscribe
unsubscribe_done i sub eb found h = rw found (simp h)

unsubscribe_first :
    (i : ℕ) (sub : AsyncSub) (eb : EventBus)
    → get_elem? eb.async_subs i ≡ some sub
    → sub.once ≡ false
    → unsubscribe i eb ≡ release_sub i sub eb
unfolding unsubscribe
unsubscribe_first i sub eb found h = rw found (simp h)

unsubscribe_missing :
    (i : ℕ) (eb : EventBus) → get_elem? eb.async_subs i ≡ none → unsubscribe i eb ≡ eb
unfolding unsubscribe
unsubscribe_missing i eb h = rw h

-- The second call of Unsubscribe, and every later one, changes nothing.
pub unsubscribe_twice :
    (i : ℕ) (eb : EventBus) → unsubscribe i (unsubscribe i eb) ≡ unsubscribe i eb
unsubscribe_twice i eb = elim (Option-cases (get_elem? eb.async_subs i)) [
  | inl missing ↦ ap (unsubscribe i) (unsubscribe_missing i eb missing)
  | inr (sub, found) ↦ elim (Bool-cases sub.once) [
    | inl done ↦ ap (unsubscribe i) (unsubscribe_done i sub eb found done)
    | inr first ↦
        rw (unsubscribe_first i sub eb found first)
          (unsubscribe_done i _ (release_sub i sub eb) (release_sub-once i sub eb found) refl)
  ]
]
