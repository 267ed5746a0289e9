-- ===== src/Wildcard/PathMatch/Validity.antt =====
-- Whether path.Match refuses a pattern is a question about the pattern alone.
use eventbus.Base.{
  ℕ, List, [], ◌∷◌, ◌≡◌, refl, sym, ap, ◌∙◌, inl, inr, Bool, true, false, ◌&&◌, not, Option, none,
  some, Text, ◌||◌, ◌==◌, if◌then◌else◌, any, arith, Bool-cases, Option-cases, ◌⊎◌,
}
use eventbus.Wildcard.PathMatch.{
  bad_pattern, ChunkResult, bad, miss, hit, Mode, outside, escaped, opened, low, low_escaped,
  after_low, high, high_escaped, Progress, chunk_step, chunk_end, match_chunk, Chunk, cut, cut_star,
  head_chunk, chunks, accept, place_after, place, is_bad, is_nil, rest_verdict, match_chunks,
  match_segment, is_valid,
}

-- What decides about the rest of a chunk: the mode without the characters it has met.
abbrev kind : Mode → Mode
kind (low negated held started) = low false false started
kind (low_escaped negated held started) = low_escaped false false false
kind (after_low lo negated held) = after_low 0 false false
kind (high lo negated held) = high 0 false false
kind (high_escaped lo negated held) = high_escaped 0 false false
kind m = m

abbrev next_kind : Option (Mode × Progress) → Option Mode
next_kind none = none
next_kind (some (m, p)) = some (kind m)

next_kind-chunk_step :
    (m : Mode) (c : ℕ) (p : Progress)
    → next_kind (chunk_step m c p) ≡ next_kind (chunk_step (kind m) c none)
unfolding chunk_step
next_kind-chunk_step outside c p = ground arith
next_kind-chunk_step escaped c p = ground arith
next_kind-chunk_step opened c p = ground arith
next_kind-chunk_step (low negated held started) c p = ground arith
next_kind-chunk_step (low_escaped negated held started) c p = ground arith
next_kind-chunk_step (after_low lo negated held) c p = ground arith
next_kind-chunk_step (high lo negated held) c p = ground arith
next_kind-chunk_step (high_escaped lo negated held) c p = ground arith

is_bad-chunk_end :
    (m : Mode) (p : Progress) → is_bad (chunk_end m p) ≡ is_bad (chunk_end (kind m) none)
is_bad-chunk_end outside none = refl
is_bad-chunk_end outside (some s) = refl
is_bad-chunk_end escaped p = refl
is_bad-chunk_end _ p = refl

abbrev read_on : Text → Option (Mode × Progress) → ChunkResult
read_on chunk none = bad
read_on chunk (some (m, p)) = match_chunk m p chunk

read_on-kind :
    (chunk : Text)
    → ((m : Mode) (p : Progress)
        → is_bad (match_chunk m p chunk) ≡ is_bad (match_chunk (kind m) none chunk))
    → (r r' : Option (Mode × Progress)) → next_kind r ≡ next_kind r'
    → is_bad (read_on chunk r) ≡ is_bad (read_on chunk r')
read_on-kind chunk same none none e = refl
read_on-kind chunk same none (some x) e = cc
read_on-kind chunk same (some x) none e = cc
read_on-kind chunk same (some (m, p)) (some (m', p')) e =
    let k : kind m ≡ kind m' = cc in
    same m p ∙ ap (λ (n : Mode). is_bad (match_chunk n none chunk)) k ∙ sym (same m' p')

read_on-eq :
    (m : Mode) (c : ℕ) (p : Progress) (chunk : Text)
    → match_chunk m p (c ∷ chunk) ≡ read_on chunk (chunk_step m c p)
unfolding match_chunk
read_on-eq m c p chunk = elim (Option-cases (chunk_step m c p)) [
  | inl e ↦ rw (e, match_chunk)
  | inr ((m', p'), e) ↦ rw (e, match_chunk)
]

is_bad-match_chunk :
    (m : Mode) (p : Progress) (chunk : Text)
    → is_bad (match_chunk m p chunk) ≡ is_bad (match_chunk (kind m) none chunk)
is_bad-match_chunk m p [] = unfold match_chunk in is_bad-chunk_end m p
is_bad-match_chunk m p (c ∷ chunk) =
    ap is_bad (read_on-eq m c p chunk)
    ∙ read_on-kind chunk (λ n q. is_bad-match_chunk n q chunk) _ _ (next_kind-chunk_step m c p)
    ∙ sym (ap is_bad (read_on-eq (kind m) c none chunk))

-- A chunk that path.Match refuses.
abbrev is_bad_chunk : Chunk → Bool
is_bad_chunk k = is_bad (match_chunk outside none k.body)

is_bad-accept : (last : Bool) (r : ChunkResult) → is_bad (accept last r) ≡ is_bad r
is_bad-accept last bad = refl
is_bad-accept last miss = refl
is_bad-accept true (hit []) = refl
is_bad-accept true (hit (a ∷ s)) = refl
is_bad-accept false (hit s) = refl

is_bad_at :
    (last : Bool) (body name : Text)
    → is_bad (accept last (match_chunk outside (some name) body))
      ≡ is_bad (match_chunk outside none body)
is_bad_at last body name =
    is_bad-accept last (match_chunk outside (some name) body)
    ∙ is_bad-match_chunk outside (some name) body

place_after_good :
    (last : Bool) (body name : Text)
    → is_bad (match_chunk outside none body) ≡ false
    → is_bad (place_after last body name) ≡ false
unfolding place_after
place_after_good last body [] good = refl
place_after_good last body (a ∷ s) good =
    ground (arith, is_bad_at last body s, place_after_good last body s good)

is_bad-place :
    (star last : Bool) (body name : Text)
    → is_bad (place star last body name) ≡ is_bad (match_chunk outside none body)
unfolding place
is_bad-place star last body name =
    ground (arith, is_bad_at last body name, place_after_good last body name)

any_bad :
    (ks : List Chunk)
    → any (λ k. is_bad (match_chunk outside (some []) k.body)) ks ≡ any is_bad_chunk ks
any_bad [] = refl
any_bad (k ∷ ks) = ground (arith, is_bad-match_chunk outside (some []) k.body, any_bad ks)

-- Only the last chunk can be a bare star.
abbrev IsCut : List Chunk → Type 0
IsCut [] = Unit {0}
IsCut (k ∷ ks) = ((is_nil k.body ≡ false) ⊎ (ks ≡ [])) × IsCut ks

is_valid-rest_verdict : (ks : List Chunk) → is_valid (rest_verdict ks) ≡ not (any is_bad_chunk ks)
unfolding rest_verdict
is_valid-rest_verdict ks = ground (arith, any_bad ks)

empty_good : (body : Text) → is_nil body ≡ true → is_bad (match_chunk outside none body) ≡ false
unfolding match_chunk
empty_good [] h = refl
empty_good (c ∷ s) h = cc

is_valid-outcome :
    (ks : List Chunk) (b : Bool) (r : ChunkResult)
    → is_bad r ≡ b
    → ((t : Text) → is_valid (match_chunks ks t) ≡ not (any is_bad_chunk ks))
    → is_valid (elim r [ bad ↦ bad_pattern | hit t ↦ match_chunks ks t | miss ↦ rest_verdict ks ])
      ≡ not (b || any is_bad_chunk ks)
is_valid-outcome ks b bad e same = ground arith
is_valid-outcome ks b miss e same = ground (arith, is_valid-rest_verdict ks)
is_valid-outcome ks b (hit t) e same = ground (arith, same t)

is_valid-match_chunks :
    (ks : List Chunk) (name : Text)
    → IsCut ks
    → is_valid (match_chunks ks name) ≡ not (any is_bad_chunk ks)
unfolding match_chunks
is_valid-match_chunks [] [] w = refl
is_valid-match_chunks [] (a ∷ s) w = refl
is_valid-match_chunks (k ∷ ks) name w = elim (Bool-cases (k.star && is_nil k.body)) [
  | inl e ↦ rw e (ground (arith, empty_good k.body))
  | inr e ↦ rw e (
      is_valid-outcome ks (is_bad_chunk k) (place k.star (is_nil ks) k.body name)
        (is_bad-place k.star (is_nil ks) k.body name) (λ t. is_valid-match_chunks ks t w.1))
]

cut_star-IsCut : (s : Text) (ks : List Chunk) → IsCut ks → IsCut (cut_star s ks)
cut_star-IsCut [] [] w = (inr refl, tt)
cut_star-IsCut [] (k ∷ ks) w = w
cut_star-IsCut (c ∷ s) ks w = (inl refl, w)

cut-IsCut : (skip in_class : Bool) (s : Text) → IsCut (cut skip in_class s).rest
unfolding cut
cut-IsCut skip in_class [] = tt
cut-IsCut skip in_class (c ∷ s) =
    let escape = not skip && c == 0x5c in
    let inside =
      if skip
      then in_class
      else (if c == b'[' then true else (if c == b']' then false else in_class)) in
    let w = cut-IsCut escape inside s in
    elim (Bool-cases (not skip && (not in_class && c == b'*'))) [
      | inl e ↦ rw e (cut_star-IsCut _ _ w)
      | inr e ↦ rw e w
    ]

head_chunk-IsCut : (s : Text) (ks : List Chunk) → IsCut ks → IsCut (head_chunk s ks)
head_chunk-IsCut [] ks w = w
head_chunk-IsCut (c ∷ s) ks w = (inl refl, w)

chunks-IsCut : (pattern : Text) → IsCut (chunks pattern)
unfolding chunks
chunks-IsCut pattern = head_chunk-IsCut _ _ (cut-IsCut false false pattern)

-- path.Match refuses a pattern for every name, or for none.
pub is_valid-match_segment :
    (pattern name other : Text)
    → is_valid (match_segment pattern name) ≡ is_valid (match_segment pattern other)
unfolding match_segment
is_valid-match_segment pattern name other =
    is_valid-match_chunks _ name (chunks-IsCut pattern)
    ∙ sym (is_valid-match_chunks _ other (chunks-IsCut pattern))
