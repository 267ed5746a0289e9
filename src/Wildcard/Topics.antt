-- ===== src/Wildcard/Topics.antt =====
-- What the patterns of wildcard.go match, topic by topic.
use eventbus.Base.{
  ℕ, List, [], ◌∷◌, ◌≡◌, refl, sym, ◌∙◌, ap, Bool, true, false, ◌&&◌, not, Text, all, arith,
  text_eq_refl, contains, codes, ◌==◌, split, join, length, All, replicate, text_eq_iff, suc, zero,
  ◌↔◌,
}
use eventbus.Base.Pieces.{join-split, split-avoids}
use eventbus.Wildcard.PathMatch.{match_segment, is_valid}
use eventbus.Wildcard.PathMatch.Validity.{is_valid-match_segment}
use eventbus.Wildcard.PathMatch.Literal.{
  IsPlain, meta_chars, match_segment-IsPlain, match_segment-star,
}
use eventbus.Wildcard.{dot, is_wildcard_pattern, match_segments, match_topic}

-- No name makes path.Match return an error for the segment.
abbrev pub NeverFails : Text → Type 0
NeverFails seg = (name : Text) → is_valid (match_segment seg name) ≡ true

NeverFails-all :
    (segs : List Text)
    → all (λ seg. is_valid (match_segment seg [])) segs ≡ true
    → All NeverFails segs
NeverFails-all [] h = tt
NeverFails-all (seg ∷ segs) h =
    (λ name. is_valid-match_segment seg name [] ∙ ground arith, NeverFails-all segs (ground arith))

-- A topic that is taken for a wildcard has only segments that path.Match accepts, whatever the name
-- they are held to: the `err != nil` of matchSegments never occurs for such a pattern.
pub is_wildcard_pattern-NeverFails :
    (pattern : Text) → is_wildcard_pattern pattern ≡ true → All NeverFails (split dot pattern)
unfolding is_wildcard_pattern
is_wildcard_pattern-NeverFails pattern h = NeverFails-all (split dot pattern) (ground arith)

-- A match has as many segments as its pattern.
match_segments-length : (ps ts : List Text) → match_segments ps ts ≡ true → length ps ≡ length ts
unfolding match_segments
match_segments-length [] [] h = refl
match_segments-length [] (t ∷ ts) h = ground arith
match_segments-length (p ∷ ps) [] h = ground arith
match_segments-length (p ∷ ps) (t ∷ ts) h = ground (arith, match_segments-length ps ts)

match_segments-IsPlain :
    (ps ts : List Text) → All IsPlain ps → match_segments ps ts ≡ true → ps ≡ ts
unfolding match_segments
match_segments-IsPlain [] [] h m = refl
match_segments-IsPlain [] (t ∷ ts) h m = ground arith
match_segments-IsPlain (p ∷ ps) [] h m = ground arith
match_segments-IsPlain (p ∷ ps) (t ∷ ts) h m =
    ground (arith, match_segment-IsPlain p t h.0, text_eq_iff p t, match_segments-IsPlain ps ts h.1)

match_segments_self : (ps : List Text) → All IsPlain ps → match_segments ps ps ≡ true
unfolding match_segments
match_segments_self [] h = refl
match_segments_self (p ∷ ps) h =
    ground (arith, match_segment-IsPlain p p h.0, text_eq_refl p, match_segments_self ps h.1)

-- A topic without `*`, `?`, `[` and backslash is not a wildcard, and as a pattern it matches itself
-- and nothing else: the exact table and the matcher agree on it.
pub match_topic-IsPlain :
    (pattern topic : Text)
    → IsPlain pattern
    → (is_wildcard_pattern pattern ≡ false)
      × ((match_topic pattern topic ≡ true) ↔ (pattern ≡ topic))
unfolding is_wildcard_pattern match_topic
match_topic-IsPlain pattern topic h = (
  ground arith,
  (
    (λ m.
        sym (join-split dot pattern)
        ∙ ap (join dot) (match_segments-IsPlain _ _ (split-avoids meta_chars dot pattern h) m)
        ∙ join-split dot topic),
    λ e. rw (← e) (match_segments_self _ (split-avoids meta_chars dot pattern h)),
  ),
)

abbrev pub slash_free : Text → Bool
slash_free s = not (contains b'/' s)

match_segments-stars :
    (n : ℕ) (ts : List Text)
    → match_segments (replicate n (codes "*")) ts ≡ (length ts == n && all slash_free ts)
unfolding match_segments
match_segments-stars zero [] = refl
match_segments-stars zero (t ∷ ts) = ground arith
match_segments-stars (suc n) [] = ground arith
match_segments-stars (suc n) (t ∷ ts) =
    ground (arith, match_segment-star t, match_segments-stars n ts)

split-join_stars :
    (n : ℕ) → split dot (join dot (replicate (suc n) (codes "*"))) ≡ replicate (suc n) (codes "*")
unfolding split join
split-join_stars zero = refl
split-join_stars (suc n) = rw (split-join_stars n)

-- The pattern `*.*. … .*` of n + 1 stars matches exactly the topics of n + 1 segments that hold no
-- slash: a star stands for one segment, never for several and never for none.
pub match_topic-stars :
    (n : ℕ) (topic : Text)
    → match_topic (join dot (replicate (suc n) (codes "*"))) topic
      ≡ (length (split dot topic) == suc n && all slash_free (split dot topic))
unfolding match_topic
match_topic-stars n topic = rw (split-join_stars n) (match_segments-stars (suc n) (split dot topic))
