-- ===== src/Bus/Decimal.antt =====
-- strconv.FormatUint in base 10, for the identifiers of subscriptions.
use eventbus.Base.{
  ℕ, zero, suc, ◌+◌, ◌-◌, ◌*◌, ◌/◌, ◌%◌, ◌^◌, ◌<◌, ◌≡◌, sym, ◌∙◌, ap, [], ◌∷◌, Text, ltb,
  if◌then◌else◌, arith, Bool-cases, inl, inr,
}
use native.Mathlib.Nat.{pow-suc}

-- The digits in front of `acc`, one round for each; `rounds` bounds their number.
emit : ℕ → ℕ → Text → Text
emit zero n acc = acc
emit (suc rounds) n acc =
    let more = emit rounds (n / 10) ((b'0' + n % 10) ∷ acc) in
    if ltb n 10 then (b'0' + n) ∷ acc else more

-- A word of 64 bits has 20 digits at most.
unfoldable pub format_uint : ℕ → Text
unfolding emit
format_uint n = emit 20 n []

-- The number that digits stand for, behind a number read before.
value : ℕ → Text → ℕ
value acc [] = acc
value acc (c ∷ s) = value (acc * 10 + (c - b'0')) s

value-emit :
    (rounds n : ℕ) (acc : Text) → n < 10 ^ rounds → value 0 (emit rounds n acc) ≡ value n acc
unfolding value emit
value-emit zero n acc h = let e : n ≡ 0 = omega arith in rw e
value-emit (suc rounds) n acc h =
    let ih =
      value-emit rounds (n / 10) ((b'0' + n % 10) ∷ acc) (omega (arith, pow-suc 10 rounds)) in
    elim (Bool-cases (ltb n 10)) [
      | inl small ↦ rw small (ap (λ m. value m acc) (omega arith))
      | inr large ↦ rw large (ih ∙ ap (λ m. value m acc) (omega arith))
    ]

-- Different words of 64 bits have different digits.
pub format_uint-injective :
    (m n : ℕ) → m < 2 ^ 64 → n < 2 ^ 64 → format_uint m ≡ format_uint n → m ≡ n
unfolding format_uint value
format_uint-injective m n hm hn e =
    sym (value-emit 20 m [] (omega arith)) ∙ ap (value 0) e ∙ value-emit 20 n [] (omega arith)
