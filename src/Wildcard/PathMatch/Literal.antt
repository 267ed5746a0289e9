-- ===== src/Wildcard/PathMatch/Literal.antt =====
-- path.Match on the two patterns that topics are mostly made of: a plain word, and a lone star.
use eventbus.Base.{
  ℕ, [], ◌∷◌, ◌≡◌, refl, true, false, none, some, Text, arith, text_eq, contains, contains_any,
  codes, if◌then◌else◌,
}
use eventbus.Wildcard.PathMatch.{
  miss, hit, outside, chunk_step, match_chunk, cut, chunks, accept, place, match_chunks,
  match_segment, rest_verdict, is_match,
}

abbrev pub meta_chars : Text
meta_chars = codes "*?[\\"

-- No character of the text means anything to path.Match.
abbrev pub IsPlain : Text → Type 0
IsPlain s = contains_any s meta_chars ≡ false

cut-IsPlain : (s : Text) → IsPlain s → cut false false s ≡ record { first = s; rest = [] }
unfolding cut
cut-IsPlain [] h = refl
cut-IsPlain (c ∷ s) h = ground (arith, cut-IsPlain s)

match_chunk-none : (s : Text) → IsPlain s → match_chunk outside none s ≡ miss
unfolding match_chunk chunk_step
match_chunk-none [] h = refl
match_chunk-none (c ∷ s) h = ground (arith, match_chunk-none s)

match_chunk-IsPlain :
    (s name : Text)
    → IsPlain s
    → accept true (match_chunk outside (some name) s) ≡ (if text_eq s name then hit [] else miss)
unfolding match_chunk chunk_step text_eq
match_chunk-IsPlain [] [] h = refl
match_chunk-IsPlain [] (a ∷ name) h = refl
match_chunk-IsPlain (c ∷ s) [] h = ground (arith, match_chunk-none s)
match_chunk-IsPlain (c ∷ s) (a ∷ name) h =
    ground (arith, match_chunk-none s, match_chunk-IsPlain s name)

chunks-IsPlain :
    (c : ℕ) (s : Text)
    → IsPlain (c ∷ s)
    → chunks (c ∷ s) ≡ record { star = false; body = c ∷ s } ∷ []
unfolding chunks
chunks-IsPlain c s h = rw (cut-IsPlain (c ∷ s) h)

place-IsPlain :
    (s name : Text)
    → IsPlain s
    → place false true s name ≡ (if text_eq s name then hit [] else miss)
unfolding place
place-IsPlain s name h = ground (arith, match_chunk-IsPlain s name h)

match_chunks-IsPlain :
    (c : ℕ) (s name : Text)
    → IsPlain (c ∷ s)
    → is_match (match_chunks (record { star = false; body = c ∷ s } ∷ []) name)
      ≡ text_eq (c ∷ s) name
unfolding match_chunks rest_verdict
match_chunks-IsPlain c s name h = ground (arith, place-IsPlain (c ∷ s) name h)

match_segment-eq : (s name : Text) → match_segment s name ≡ match_chunks (chunks s) name
unfolding match_segment
match_segment-eq s name = refl

-- A plain word matches itself alone.
pub match_segment-IsPlain :
    (s name : Text) → IsPlain s → is_match (match_segment s name) ≡ text_eq s name
match_segment-IsPlain [] [] h = unfold match_segment text_eq in refl
match_segment-IsPlain [] (a ∷ name) h = unfold match_segment text_eq in refl
match_segment-IsPlain (c ∷ s) name h =
    rw (match_segment-eq (c ∷ s) name, chunks-IsPlain c s h) (match_chunks-IsPlain c s name h)

-- A lone star matches every name without a slash.
pub match_segment-star :
    (name : Text)
    → is_match (match_segment (codes "*") name) ≡ (if contains b'/' name then false else true)
unfolding match_segment
match_segment-star name = ground arith
