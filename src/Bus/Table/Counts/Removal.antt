-- ===== src/Bus/Table/Counts/Removal.antt =====
-- A removal takes one subscription away, and leaves the others.
use eventbus.Base.{
  ℕ, ◌+◌, ◌≤◌, ◌<◌, List, [], ◌∷◌, ◌++◌, ◌≡◌, refl, inl, inr, Bool, false, none, some, Text, arith,
  Bool-cases, Option-cases, ◌==◌, if◌then◌else◌, text_eq, ap,
}
use eventbus.Wildcard.{is_wildcard_pattern}
use eventbus.Bus.State.{Subscription, WildcardEntry, Core}
use eventbus.Bus.Table.{subs_of, remove_first, remove_wildcard, remove_channel, shrink_entry}
use eventbus.Bus.Table.Counts.{
  one_if, count_if, count_wild, count_all, on_channel, count_if-append, count_exact-put_subs,
}

-- One subscription to the channel is gone, and nothing else has changed.
abbrev pub RemovesOne : ℕ → Core → Core → Type 0
RemovesOne ch w w' =
    (s : Subscription) × (s.ch ≡ ch)
    × ((p : Subscription → Bool) → count_all p w ≡ one_if (p s) + count_all p w')

remove_first_found :
    (ch : ℕ) (subs rest : List Subscription)
    → remove_first ch subs ≡ some rest
    → (s : Subscription) × (s.ch ≡ ch)
      × ((p : Subscription → Bool) → count_if p subs ≡ one_if (p s) + count_if p rest)
unfolding remove_first
remove_first_found ch [] rest e = cc
remove_first_found ch (s ∷ subs) rest e = elim (Bool-cases (s.ch == ch)) [
  | inl hit ↦
      let same : subs ≡ rest = ground arith in
      (s, ground arith, λ p. omega (arith, ap (count_if p) same))
  | inr miss ↦ elim (Option-cases (remove_first ch subs)) [
    | inl gone ↦ absurd (ground arith)
    | inr (r, found) ↦
        let same : s ∷ r ≡ rest = ground arith in
        let (x, on, counts) = remove_first_found ch subs r found in
        (x, on, λ p. omega (arith, ap (count_if p) same, counts p))
  ]
]

remove_first_missing :
    (ch : ℕ) (subs : List Subscription)
    → remove_first ch subs ≡ none
    → count_if (on_channel ch) subs ≡ 0
unfolding remove_first
remove_first_missing ch [] e = refl
remove_first_missing ch (s ∷ subs) e = elim (Bool-cases (s.ch == ch)) [
  | inl hit ↦ absurd (ground arith)
  | inr miss ↦ elim (Option-cases (remove_first ch subs)) [
    | inl gone ↦ rw miss (omega (arith, remove_first_missing ch subs gone))
    | inr (r, found) ↦ absurd (ground arith)
  ]
]

-- The subscriptions that stand under a pattern.
abbrev pub entry_subs : Text → List WildcardEntry → List Subscription
entry_subs t [] = []
entry_subs t (e ∷ es) = if text_eq e.pattern t then e.subs ++ entry_subs t es else entry_subs t es

-- The subscriptions that were made for a topic or a pattern.
abbrev pub subs_at : Text → Core → List Subscription
subs_at t w =
    if is_wildcard_pattern t then entry_subs t w.wildcard_subs else subs_of t w.subscribers

abbrev RemovesFrom : ℕ → List WildcardEntry → List WildcardEntry → Type 0
RemovesFrom ch es es' =
    (s : Subscription) × (s.ch ≡ ch)
    × ((p : Subscription → Bool) → count_wild p es ≡ one_if (p s) + count_wild p es')

count_wild-shrink_entry :
    (p : Subscription → Bool) (e : WildcardEntry) (es : List WildcardEntry)
    (subs : List Subscription)
    → count_wild p (shrink_entry e es subs) ≡ count_if p subs + count_wild p es
count_wild-shrink_entry p e es [] = omega arith
count_wild-shrink_entry p e es (s ∷ subs) = refl

RemovesFrom-later :
    (ch : ℕ) (e : WildcardEntry) (es es' : List WildcardEntry)
    → RemovesFrom ch es es'
    → RemovesFrom ch (e ∷ es) (e ∷ es')
RemovesFrom-later ch e es es' (s, on, counts) = (s, on, λ p. omega (arith, counts p))

remove_wildcard-RemovesFrom :
    (t : Text) (ch : ℕ) (es : List WildcardEntry)
    → 0 < count_if (on_channel ch) (entry_subs t es)
    → RemovesFrom ch es (remove_wildcard t ch es)
unfolding remove_wildcard
remove_wildcard-RemovesFrom t ch [] h = absurd (omega arith)
remove_wildcard-RemovesFrom t ch (e ∷ es) h = elim (Bool-cases (text_eq e.pattern t)) [
  | inr other ↦
      rw other (RemovesFrom-later ch e es _ (remove_wildcard-RemovesFrom t ch es (rw other at h)))
  | inl same ↦ rw same (elim (Option-cases (remove_first ch e.subs)) [
    | inl gone ↦
        let h' : 0 < count_if (on_channel ch) (e.subs ++ entry_subs t es) = rw same at h in
        let later = remove_wildcard-RemovesFrom t ch es (
          omega (
            arith,
            remove_first_missing ch e.subs gone,
            count_if-append (on_channel ch) e.subs (entry_subs t es),
          )) in
        rw gone (RemovesFrom-later ch e es _ later)
    | inr (subs, found) ↦
        let (s, on, counts) = remove_first_found ch e.subs subs found in
        rw found (s, on, λ p. omega (arith, counts p, count_wild-shrink_entry p e es subs))
  ])
]

-- removeChannel takes exactly one subscription to the channel away, if there is one for the topic.
pub remove_channel-RemovesOne :
    (t : Text) (ch : ℕ) (w : Core)
    → 0 < count_if (on_channel ch) (subs_at t w)
    → RemovesOne ch w (remove_channel t ch w)
unfolding remove_channel
remove_channel-RemovesOne t ch w h = elim (Bool-cases (is_wildcard_pattern t)) [
  | inl wild ↦
      let (s, on, counts) = remove_wildcard-RemovesFrom t ch w.wildcard_subs (rw wild at h) in
      rw wild (s, on, λ p. omega (arith, counts p))
  | inr plain ↦ rw plain (elim (Option-cases (remove_first ch (subs_of t w.subscribers))) [
    | inl gone ↦
        let h' : 0 < count_if (on_channel ch) (subs_of t w.subscribers) = rw plain at h in
        absurd (omega (arith, remove_first_missing ch _ gone))
    | inr (subs, found) ↦
        let (s, on, counts) = remove_first_found ch _ subs found in
        rw found (s, on, λ p. omega (arith, counts p, count_exact-put_subs p t subs w.subscribers))
  ])
]

-- A removal never adds.
remove_wildcard-le :
    (p : Subscription → Bool) (t : Text) (ch : ℕ) (es : List WildcardEntry)
    → count_wild p (remove_wildcard t ch es) ≤ count_wild p es
unfolding remove_wildcard
remove_wildcard-le p t ch [] = omega arith
remove_wildcard-le p t ch (e ∷ es) =
    let ih = remove_wildcard-le p t ch es in
    elim (Bool-cases (text_eq e.pattern t)) [
      | inr other ↦ rw other (omega arith)
      | inl same ↦ rw same (elim (Option-cases (remove_first ch e.subs)) [
        | inl gone ↦ rw gone (omega arith)
        | inr (subs, found) ↦
            let (s, on, counts) = remove_first_found ch e.subs subs found in
            rw found (omega (arith, counts p, count_wild-shrink_entry p e es subs))
      ])
    ]

pub count_all-remove_channel :
    (p : Subscription → Bool) (t : Text) (ch : ℕ) (w : Core)
    → count_all p (remove_channel t ch w) ≤ count_all p w
unfolding remove_channel
count_all-remove_channel p t ch w = elim (Bool-cases (is_wildcard_pattern t)) [
  | inl wild ↦ rw wild (omega (arith, remove_wildcard-le p t ch w.wildcard_subs))
  | inr plain ↦ rw plain (elim (Option-cases (remove_first ch (subs_of t w.subscribers))) [
    | inl gone ↦ rw gone (omega arith)
    | inr (subs, found) ↦
        let (s, on, counts) = remove_first_found ch _ subs found in
        rw found (omega (arith, counts p, count_exact-put_subs p t subs w.subscribers))
  ])
]

-- It leaves the channels alone.
pub channels-remove_channel :
    (t : Text) (ch : ℕ) (w : Core) → (remove_channel t ch w).channels ≡ w.channels
unfolding remove_channel
channels-remove_channel t ch w = ground arith

-- Subscriptions to other channels stay.
remove_wildcard-others :
    (other : ℕ) (t : Text) (ch : ℕ) (es : List WildcardEntry)
    → (ch == other) ≡ false
    → count_wild (on_channel other) (remove_wildcard t ch es) ≡ count_wild (on_channel other) es
unfolding remove_wildcard
remove_wildcard-others other t ch [] ne = refl
remove_wildcard-others other t ch (e ∷ es) ne =
    let ih = remove_wildcard-others other t ch es ne in
    elim (Bool-cases (text_eq e.pattern t)) [
      | inr differs ↦ rw differs (omega arith)
      | inl same ↦ rw same (elim (Option-cases (remove_first ch e.subs)) [
        | inl gone ↦ rw gone (omega arith)
        | inr (subs, found) ↦
            let (s, on, counts) = remove_first_found ch e.subs subs found in
            let off : one_if (on_channel other s) ≡ 0 = rw (on, ne) in
            rw found (
              omega (
                arith,
                off,
                counts (on_channel other),
                count_wild-shrink_entry (on_channel other) e es subs,
              ))
      ])
    ]

pub remove_channel-others :
    (other : ℕ) (t : Text) (ch : ℕ) (w : Core)
    → (ch == other) ≡ false
    → count_all (on_channel other) (remove_channel t ch w) ≡ count_all (on_channel other) w
unfolding remove_channel
remove_channel-others other t ch w ne = elim (Bool-cases (is_wildcard_pattern t)) [
  | inl wild ↦ rw wild (omega (arith, remove_wildcard-others other t ch w.wildcard_subs ne))
  | inr plain ↦ rw plain (elim (Option-cases (remove_first ch (subs_of t w.subscribers))) [
    | inl gone ↦ rw gone
    | inr (subs, found) ↦
        let (s, on, counts) = remove_first_found ch _ subs found in
        let off : one_if (on_channel other s) ≡ 0 = rw (on, ne) in
        rw found (
          omega (
            arith,
            off,
            counts (on_channel other),
            count_exact-put_subs (on_channel other) t subs w.subscribers,
          ))
  ])
]
