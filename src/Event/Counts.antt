-- ===== src/Event/Counts.antt =====
-- How many events of a list pass a test: lists are compared by it where goroutines set the order.
use eventbus.Base.{ℕ, ◌+◌, List, [], ◌∷◌, ◌++◌, ◌≡◌, Bool, true, false, Option, none, some, arith}
use eventbus.Event.{Event}

abbrev pub one_if : Bool → ℕ
one_if true = 1
one_if false = 0

module _ {ℓ} {A : Type ℓ} where
  abbrev pub count : (A → Bool) → List A → ℕ
  count test [] = 0
  count test (e ∷ es) = one_if (test e) + count test es

  pub count-append :
      (test : A → Bool) (xs ys : List A) → count test (xs ++ ys) ≡ count test xs + count test ys
  count-append test [] ys = omega arith
  count-append test (x ∷ xs) ys = omega (arith, count-append test xs ys)

abbrev pub count_hand : (Event → Bool) → Option Event → ℕ
count_hand test none = 0
count_hand test (some e) = one_if (test e)
