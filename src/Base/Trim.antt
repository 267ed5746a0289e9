-- ===== src/Base/Trim.antt =====
-- strings.TrimSpace, for ASCII texts.
use eventbus.Base.{
  ℕ, [], ◌∷◌, ◌≡◌, refl, ap, ◌∙◌, inl, inr, Bool, true, false, ◌&&◌, ◌||◌, Text, leb, ◌==◌, arith,
  if◌then◌else◌, Bool-cases,
}

-- Tab to carriage return, and the blank.
abbrev pub is_space : ℕ → Bool
is_space c = (leb 9 c && leb c 13) || c == 32

pub trim_left : Text → Text
trim_left [] = []
trim_left (c ∷ s) = let rest = trim_left s in if is_space c then rest else c ∷ s

-- A character, unless it is blank and nothing follows.
abbrev pub put_before : ℕ → Text → Text
put_before c [] = if is_space c then [] else c ∷ []
put_before c (d ∷ s) = c ∷ d ∷ s

pub trim_right : Text → Text
trim_right [] = []
trim_right (c ∷ s) = put_before c (trim_right s)

unfoldable pub trim_space : Text → Text
unfolding trim_left trim_right
trim_space s = trim_left (trim_right s)

-- The text has no blank at its left end.
abbrev starts_tight : Text → Bool
starts_tight [] = true
starts_tight (c ∷ s) = if is_space c then false else true

trim_left-tight : (s : Text) → starts_tight s ≡ true → trim_left s ≡ s
unfolding trim_left
trim_left-tight [] h = refl
trim_left-tight (c ∷ s) h = ground arith

starts_tight-trim_left : (s : Text) → starts_tight (trim_left s) ≡ true
unfolding trim_left
starts_tight-trim_left [] = refl
starts_tight-trim_left (c ∷ s) = ground (arith, starts_tight-trim_left s)

trim_right_twice : (s : Text) → trim_right (trim_right s) ≡ trim_right s
unfolding trim_right
trim_right_twice [] = refl
trim_right_twice (c ∷ s) = go c (trim_right s) (trim_right_twice s)
  where
    go : (c : ℕ) (r : Text) → trim_right r ≡ r → trim_right (put_before c r) ≡ put_before c r
    go c [] h = ground arith
    go c (d ∷ r) h = ap (put_before c) h

-- A character that is kept has the rest behind it, as it was.
put_before-tail : (c : ℕ) (r s : Text) → put_before c r ≡ c ∷ s → r ≡ s
put_before-tail c [] s h = ground arith
put_before-tail c (d ∷ r) s h = cc

tail_trimmed : (c : ℕ) (s : Text) → trim_right (c ∷ s) ≡ c ∷ s → trim_right s ≡ s
unfolding trim_right
tail_trimmed c s h = put_before-tail c (trim_right s) s h

-- What is cut off at the left leaves the right end as it is.
trim_right-trim_left : (s : Text) → trim_right s ≡ s → trim_right (trim_left s) ≡ trim_left s
unfolding trim_left
trim_right-trim_left [] h = h
trim_right-trim_left (c ∷ s) h = elim (Bool-cases (is_space c)) [
  | inl blank ↦ rw blank (trim_right-trim_left s (tail_trimmed c s h))
  | inr other ↦ rw other h
]

-- Trimming once is enough.
pub trim_space_twice : (s : Text) → trim_space (trim_space s) ≡ trim_space s
unfolding trim_space
trim_space_twice s =
    ap trim_left (trim_right-trim_left (trim_right s) (trim_right_twice s))
    ∙ trim_left-tight (trim_left (trim_right s)) (starts_tight-trim_left (trim_right s))
