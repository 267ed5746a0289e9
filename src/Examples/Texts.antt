-- ===== src/Examples/Texts.antt =====
-- Patterns, identifiers, errors and waits.
use eventbus.Base.{
  ◌*◌, ◌^◌, ◌<◌, ◌≤◌, [], ◌≡◌, true, ◌&&◌, none, codes, all, length, replicate, join, split, ◌==◌,
  min, arith,
}
use eventbus.Errors.{Error, wrap, unrecoverable}
use eventbus.Backoff.{backoff, retry_sleep, backoff_lem}
use eventbus.Wildcard.{dot, is_wildcard_pattern, match_topic}
use eventbus.Wildcard.PathMatch.Literal.{match_segment-star}
use eventbus.Wildcard.Topics.{slash_free, match_topic-stars}

match_topic-stars_example :
    match_topic (join dot (replicate 2 (codes "*"))) (codes "order.created") ≡ (
      length (split dot (codes "order.created")) == 2
      && all slash_free (split dot (codes "order.created")))
match_topic-stars_example = match_topic-stars 1 (codes "order.created")

star_is_wildcard : is_wildcard_pattern (codes "*.*") ≡ true
unfolding is_wildcard_pattern split
star_is_wildcard = ground (arith, match_segment-star [])

abbrev lost : Error
lost = wrap (codes "save") (unrecoverable none)

backoff_lem_example :
    (backoff 1_000_000_000 12 ≡ retry_sleep 1_000_000_000 12)
    × (retry_sleep 1_000_000_000 12 ≡ 1_000_000_000 * 2 ^ min 12 10)
    × (1_000_000_000 ≤ retry_sleep 1_000_000_000 12)
    × (retry_sleep 1_000_000_000 12 ≤ 1_000_000_000 * 1024)
    × (retry_sleep 1_000_000_000 12 < 2 ^ 63)
backoff_lem_example = backoff_lem 1_000_000_000 12 (omega arith)
