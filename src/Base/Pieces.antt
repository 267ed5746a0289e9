-- ===== src/Base/Pieces.antt =====
-- strings.Split and strings.Join at a separator of one character.
use Prim.Native.Nat.{ℕ}
use mathlib.Core.Path.{◌≡◌, refl, ◌∙◌, ap}
use mathlib.Core.Logic.{inl, inr}
use mathlib.Core.Bool.{false}
use mathlib.Core.List.{List, [], ◌∷◌}
use native.Mathlib.Omega.{arith}
use eventbus.Base.Tests.{◌==◌, Bool-cases}
use eventbus.Base.Lists.{All}
use eventbus.Base.Strings.{Text, contains_any, extend_piece, split, join}

join-extend_piece : (sep c : ℕ) (ps : List Text) → join sep (extend_piece c ps) ≡ c ∷ join sep ps
unfolding join
join-extend_piece sep c [] = refl
join-extend_piece sep c (p ∷ []) = refl
join-extend_piece sep c (p ∷ q ∷ ps) = refl

split_cases : (sep : ℕ) (s : Text) → (p : Text) × (ps : List Text) × (split sep s ≡ p ∷ ps)
unfolding split
split_cases sep [] = ([], [], refl)
split_cases sep (c ∷ s) = elim (Bool-cases (c == sep)) [
  | inl e ↦ ([], split sep s, rw e)
  | inr e ↦ let (p, ps, r) = split_cases sep s in (c ∷ p, ps, rw (e, r))
]

join_nil_piece :
    (sep : ℕ) (p : Text) (ps : List Text) → join sep ([] ∷ p ∷ ps) ≡ sep ∷ join sep (p ∷ ps)
unfolding join
join_nil_piece sep p ps = refl

-- strings.Join undoes strings.Split.
pub join-split : (sep : ℕ) (s : Text) → join sep (split sep s) ≡ s
unfolding split
join-split sep [] = unfold join in refl
join-split sep (c ∷ s) =
    let ih = join-split sep s in
    let (p, ps, r) = split_cases sep s in
    elim (Bool-cases (c == sep)) [
      | inl e ↦ rw e (ground (arith, join_nil_piece sep p ps))
      | inr e ↦ rw e (join-extend_piece sep c (split sep s) ∙ ap (◌∷◌ c) ih)
    ]

All-extend_piece :
    {P : Text → Type 0} (c : ℕ) (ps : List Text)
    → P (c ∷ [])
    → ((p : Text) → P p → P (c ∷ p))
    → All P ps
    → All P (extend_piece c ps)
All-extend_piece c [] one more h = (one, tt)
All-extend_piece c (p ∷ ps) one more h = (more p h.0, h.1)

-- The pieces have only characters of the text.
pub split-avoids :
    (set : Text) (sep : ℕ) (s : Text)
    → contains_any s set ≡ false
    → All (λ p. contains_any p set ≡ false) (split sep s)
unfolding split
split-avoids set sep [] h = (refl, tt)
split-avoids set sep (c ∷ s) h =
    let ih = split-avoids set sep s (ground arith) in
    elim (Bool-cases (c == sep)) [
      | inl e ↦ rw e (refl, ih)
      | inr e ↦ rw e (All-extend_piece c (split sep s) (ground arith) (λ p hp. ground arith) ih)
    ]
