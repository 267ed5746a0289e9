-- ===== src/Wildcard/PathMatch.antt =====
-- What the program uses of Go's path.Match: a pattern of `*`, `?`, classes and escapes against a
-- name, over ASCII text, where a byte is a rune. The pattern is cut into chunks, each with a star
-- before it or none; a chunk is read once, and goes on being checked after the match has failed.
pub mod Validity
pub mod Literal
use eventbus.Base.{
  ℕ, List, [], ◌∷◌, Bool, true, false, ◌&&◌, ◌||◌, not, Option, none, some, Text, ◌==◌, leb,
  contains, if◌then◌else◌, any,
}

pub data Verdict : Type 0 where
  matched unmatched bad_pattern : Verdict

-- `err == nil` and `ok` after a call.
abbrev pub is_valid : Verdict → Bool
is_valid bad_pattern = false
is_valid _ = true

abbrev pub is_match : Verdict → Bool
is_match matched = true
is_match _ = false

-- The result of a chunk: what is left of the name.
pub data ChunkResult : Type 0 where
  bad miss : ChunkResult
  hit : Text → ChunkResult

-- Where in a chunk the reader stands. In a class: the name's character, whether the class is
-- negated, whether a range has held already, and whether there was a range at all.
pub data Mode : Type 0 where
  outside escaped opened : Mode
  low low_escaped : (negated held started : Bool) → Mode
  after_low high high_escaped : (lo : ℕ) (negated held : Bool) → Mode

-- The name that is left while the match goes on; none when it has failed.
abbrev pub Progress : Type 0
Progress = Option Text

abbrev in_range : ℕ → ℕ → Option ℕ → Bool
in_range lo hi none = false
in_range lo hi (some r) = leb lo r && leb r hi

-- `chunk[0] != s[0]`.
abbrev literal : ℕ → Progress → Progress
literal c none = none
literal c (some []) = none
literal c (some (a ∷ s)) = if a == c then some s else none

abbrev any_char : Progress → Progress
any_char none = none
any_char (some []) = none
any_char (some (a ∷ s)) = if a == b'/' then none else some s

-- The character that a class is compared with, and the rest of the name after it.
abbrev head_char : Progress → Option ℕ
head_char none = none
head_char (some []) = none
head_char (some (a ∷ s)) = some a

abbrev rest_of : Progress → Progress
rest_of none = none
rest_of (some []) = none
rest_of (some (a ∷ s)) = some s

abbrev close_class : Bool → Bool → Progress → Progress
close_class negated held p =
    if negated then (if held then none else rest_of p) else (if held then rest_of p else none)

-- One character of a chunk: the next mode and progress, or none for a bad pattern.
-- A class takes the name's character when it is closed.
low_step : ℕ → Bool → Bool → Bool → Progress → Option (Mode × Progress)
low_step c negated held started p =
    if c == b']' && started
    then some (outside, close_class negated held p)
    else if c == b'-' || c == b']'
    then none
    else if c == 0x5c
    then some (low_escaped negated held started, p)
    else some (after_low c negated held, p)

abbrev outside_step : ℕ → Progress → Option (Mode × Progress)
outside_step c p =
    if c == b'['
    then some (opened, p)
    else if c == b'?'
    then some (outside, any_char p)
    else if c == 0x5c
    then some (escaped, p)
    else some (outside, literal c p)

abbrev high_step : ℕ → ℕ → Bool → Bool → Progress → Option (Mode × Progress)
high_step c lo negated held p =
    if c == b'-' || c == b']'
    then none
    else if c == 0x5c
    then some (high_escaped lo negated held, p)
    else some (low negated (held || in_range lo c (head_char p)) true, p)

chunk_step : Mode → ℕ → Progress → Option (Mode × Progress)
unfolding low_step
chunk_step outside c p = outside_step c p
chunk_step escaped c p = some (outside, literal c p)
chunk_step opened c p =
    if c == b'^' then some (low true false false, p) else low_step c false false false p
chunk_step (low negated held started) c p = low_step c negated held started p
chunk_step (low_escaped negated held started) c p = some (after_low c negated held, p)
chunk_step (after_low lo negated held) c p =
    if c == b'-'
    then some (high lo negated held, p)
    else low_step c negated (held || in_range lo lo (head_char p)) true p
chunk_step (high lo negated held) c p = high_step c lo negated held p
chunk_step (high_escaped lo negated held) c p =
    some (low negated (held || in_range lo c (head_char p)) true, p)

-- A chunk that ends within an escape or a class is bad.
abbrev chunk_end : Mode → Progress → ChunkResult
chunk_end outside none = miss
chunk_end outside (some s) = hit s
chunk_end _ _ = bad

-- matchChunk.
match_chunk : Mode → Progress → Text → ChunkResult
match_chunk m p [] = chunk_end m p
match_chunk m p (c ∷ chunk) = elim (chunk_step m c p) [
  | none ↦ bad
  | some (m', p') ↦ match_chunk m' p' chunk
]

pub record Chunk : Type 0 where
  pub star : Bool
  pub body : Text

-- The chunks of a pattern: the part before the first star, and those behind a run of stars each.
record Cut : Type 0 where
  first : Text
  rest : List Chunk

abbrev cut_star : Text → List Chunk → List Chunk
cut_star [] [] = record { star = true; body = [] } ∷ []
cut_star [] (k ∷ ks) = k ∷ ks
cut_star (c ∷ cur) ks = record { star = true; body = c ∷ cur } ∷ ks

-- scanChunk, for all chunks; a star within a class or behind a backslash does not cut.
cut : Bool → Bool → Text → Cut
cut skip in_class [] = record { first = []; rest = [] }
cut skip in_class (c ∷ s) =
    let escape = not skip && c == 0x5c in
    let inside =
      if skip
      then in_class
      else (if c == b'[' then true else (if c == b']' then false else in_class)) in
    let k = cut escape inside s in
    if not skip && (not in_class && c == b'*')
    then record { first = []; rest = cut_star k.first k.rest }
    else record { first = c ∷ k.first; rest = k.rest }

abbrev head_chunk : Text → List Chunk → List Chunk
head_chunk [] ks = ks
head_chunk (c ∷ s) ks = record { star = false; body = c ∷ s } ∷ ks

chunks : Text → List Chunk
chunks pattern = let k = cut false false pattern in head_chunk k.first k.rest

-- The last chunk has to use the whole name up.
abbrev accept : Bool → ChunkResult → ChunkResult
accept last bad = bad
accept last miss = miss
accept true (hit []) = hit []
accept true (hit (a ∷ s)) = miss
accept false (hit s) = hit s

-- The loop over the places behind a star, which passes over no slash.
place_after : Bool → Text → Text → ChunkResult
place_after last body [] = miss
place_after last body (a ∷ s) =
    let later = place_after last body s in
    if a == b'/' then miss else elim (accept last (match_chunk outside (some s) body)) [
      | bad ↦ bad
      | hit t ↦ hit t
      | miss ↦ later
    ]

place : Bool → Bool → Text → Text → ChunkResult
place star last body name = elim (accept last (match_chunk outside (some name) body)) [
  | bad ↦ bad
  | hit t ↦ hit t
  | miss ↦ if star then place_after last body name else miss
]

abbrev is_bad : ChunkResult → Bool
is_bad bad = true
is_bad _ = false

abbrev is_nil {ℓ} : {A : Type ℓ} → List A → Bool
is_nil [] = true
is_nil (x ∷ xs) = false

-- Before a mismatch is reported the chunks that follow are checked.
rest_verdict : List Chunk → Verdict
rest_verdict ks =
    if any (λ k. is_bad (match_chunk outside (some []) k.body)) ks then bad_pattern else unmatched

match_chunks : List Chunk → Text → Verdict
match_chunks [] name = if is_nil name then matched else unmatched
match_chunks (k ∷ ks) name =
    if k.star && is_nil k.body
    then (if contains b'/' name then unmatched else matched)
    else elim (place k.star (is_nil ks) k.body name) [
      | bad ↦ bad_pattern
      | hit t ↦ match_chunks ks t
      | miss ↦ rest_verdict ks
    ]

-- path.Match.
unfoldable pub match_segment : Text → Text → Verdict
unfolding cut chunks chunk_step match_chunk place_after place rest_verdict match_chunks
match_segment pattern name = match_chunks (chunks pattern) name
