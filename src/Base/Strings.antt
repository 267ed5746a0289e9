-- ===== src/Base/Strings.antt =====
-- Go strings as lists of character codes, and what the program takes from package strings.
use Prim.Native.Nat.{ℕ}
use Prim.Native.Char.{code}
use Prim.Native.String.{String}
use mathlib.Core.Path.{◌≡◌, refl}
use mathlib.Core.Logic.{◌↔◌}
use mathlib.Core.Bool.{Bool, true, false, ◌&&◌}
use mathlib.Core.List.{List, [], ◌∷◌, ◌++◌}
use native.Mathlib.Omega.{arith}
use eventbus.Base.Tests.{◌==◌, if◌then◌else◌}
use eventbus.Base.Lists.{any}

abbrev pub Text : Type 0
Text = List ℕ

-- The code points of a text: its bytes, as it is ASCII.
abbrev pub codes : String → Text
codes String.[] = []
codes (String.◌∷◌ c s) = code c ∷ codes s

-- `==` on strings.
unfoldable pub text_eq : Text → Text → Bool
text_eq [] [] = true
text_eq [] (b ∷ t) = false
text_eq (a ∷ s) [] = false
text_eq (a ∷ s) (b ∷ t) = a == b && text_eq s t

pub text_eq→eq : (s t : Text) → text_eq s t ≡ true → s ≡ t
unfolding text_eq
text_eq→eq [] [] h = refl
text_eq→eq [] (b ∷ t) h = ground arith
text_eq→eq (a ∷ s) [] h = ground arith
text_eq→eq (a ∷ s) (b ∷ t) h = ground (arith, text_eq→eq s t)

pub text_eq_refl : (s : Text) → text_eq s s ≡ true
unfolding text_eq
text_eq_refl [] = refl
text_eq_refl (a ∷ s) = ground (arith, text_eq_refl s)

pub text_eq_iff : (s t : Text) → (text_eq s t ≡ true) ↔ (s ≡ t)
text_eq_iff s t = (text_eq→eq s t, λ e. ground (arith, text_eq_refl s))

-- strings.ContainsAny for a list of characters.
abbrev pub contains : ℕ → Text → Bool
contains c = any (λ a. a == c)

abbrev pub contains_any : Text → Text → Bool
contains_any s set = any (λ a. contains a set) s

-- A piece goes on from the text's first character, or a new piece begins before it.
abbrev pub extend_piece : ℕ → List Text → List Text
extend_piece c [] = (c ∷ []) ∷ []
extend_piece c (p ∷ ps) = (c ∷ p) ∷ ps

-- strings.Split at a separator of one character; there is always one piece at least.
unfoldable pub split : ℕ → Text → List Text
split sep [] = [] ∷ []
split sep (c ∷ s) = let rest = split sep s in if c == sep then [] ∷ rest else extend_piece c rest

-- strings.Join, which puts `sep` between the pieces.
unfoldable pub join : ℕ → List Text → Text
join sep [] = []
join sep (p ∷ []) = p
join sep (p ∷ q ∷ ps) = p ++ sep ∷ join sep (q ∷ ps)
