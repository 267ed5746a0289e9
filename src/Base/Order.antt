-- ===== src/Base/Order.antt =====
-- Signed numbers, as far as the program compares them, and words of 64 and 32 bits.
use native.Mathlib.Omega.{arith}
use mathlib.Core.Path.{◌≡◌}
use Prim.Native.Nat.{ℕ, suc, ◌<◌, ◌%◌, ◌^◌}
use mathlib.Core.Bool.{Bool, true, false}
use eventbus.Base.Tests.{leb, ltb, if◌then◌else◌, ◌==◌}

-- Go's `int`; `negsuc n` is -(n + 1).
pub data ℤ : Type 0 where
  pos : ℕ → ℤ
  negsuc : ℕ → ℤ

-- math.MaxInt.
abbrev pub max_int : ℕ
max_int = 9_223_372_036_854_775_807

-- The number of rounds of `for i := range n + 1`: at math.MaxInt the sum is negative.
abbrev pub rounds_upto : ℤ → ℕ
rounds_upto (pos n) = if ltb n max_int then suc n else 0
rounds_upto (negsuc n) = 0

pub rounds_upto-pos : (n : ℕ) → n < max_int → rounds_upto (pos n) ≡ suc n
rounds_upto-pos n h = ground arith

-- No number of rounds: n is negative, or n + 1 is.
abbrev pub no_round : ℤ → Bool
no_round (pos n) = leb max_int n
no_round (negsuc n) = true

-- `i == n` and `i >= n` for a counter that starts at 0.
abbrev pub eq_int : ℕ → ℤ → Bool
eq_int i (pos n) = i == n
eq_int i (negsuc n) = false

abbrev pub ge_int : ℕ → ℤ → Bool
ge_int i (pos n) = leb n i
ge_int i (negsuc n) = true

abbrev pub u64 : ℕ → ℕ
u64 n = n % 2 ^ 64

abbrev pub u32 : ℕ → ℕ
u32 n = n % 2 ^ 32
