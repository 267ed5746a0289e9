-- ===== src/Wildcard.antt =====
-- wildcard.go over a model of path.Match.
pub mod PathMatch
pub mod Topics
use eventbus.Base.{
  ℕ, List, Bool, true, false, Text, [], ◌∷◌, ◌&&◌, not, ◌||◌, all, split, codes, contains_any,
  if◌then◌else◌, arith,
}
use PathMatch.{match_segment, is_valid, is_match}

abbrev pub dot : ℕ
dot = b'.'

-- isWildcardPattern: the loop returns false at the first segment that is refused.
unfoldable pub is_wildcard_pattern : Text → Bool
is_wildcard_pattern pattern =
    if not (contains_any pattern (codes "*?[\\"))
    then false
    else all (λ seg. is_valid (match_segment seg [])) (split dot pattern)

-- matchSegments: the lengths are compared first in the source; here a difference shows at the end
-- of the shorter list, with the same answer.
unfoldable pub match_segments : List Text → List Text → Bool
match_segments [] [] = true
match_segments [] (t ∷ ts) = false
match_segments (p ∷ ps) [] = false
match_segments (p ∷ ps) (t ∷ ts) = is_match (match_segment p t) && match_segments ps ts

-- matchTopic.
unfoldable pub match_topic : Text → Text → Bool
unfolding match_segments
match_topic pattern topic = match_segments (split dot pattern) (split dot topic)
