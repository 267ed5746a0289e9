-- ===== src/Bus/Table/Valid/Removal.antt =====
-- A removal keeps the tables well formed.
use mathlib.Core.Path.{subst}
use eventbus.Base.{
  ℕ, List, [], ◌∷◌, ◌≡◌, inl, inr, some, Text, text_eq, arith, All, Bool-cases, Option-cases, ◌==◌,
}
use eventbus.Wildcard.{is_wildcard_pattern}
use eventbus.Bus.State.{Subscription, WildcardEntry, Core}
use eventbus.Bus.Table.{subs_of, remove_first, remove_wildcard, remove_channel, shrink_entry}
use eventbus.Bus.Table.Valid.{
  HasTopic, WildEntry, PatternAbsent, DistinctPatterns, IsValid, subs_of-topic, put_subs-exact,
  put_subs-keys,
}

remove_first-All :
    (P : Subscription → Type 0) (ch : ℕ) (subs rest : List Subscription)
    → All P subs
    → remove_first ch subs ≡ some rest
    → All P rest
unfolding remove_first
remove_first-All P ch [] rest h e = cc
remove_first-All P ch (s ∷ subs) rest h e = elim (Bool-cases (s.ch == ch)) [
  | inl hit ↦ let same : subs ≡ rest = ground arith in subst (All P) same h.1
  | inr miss ↦ elim (Option-cases (remove_first ch subs)) [
    | inl gone ↦ absurd (ground arith)
    | inr (r, found) ↦
        let same : s ∷ r ≡ rest = ground arith in
        subst (All P) same (h.0, remove_first-All P ch subs r h.1 found)
  ]
]

shrink_entry-wild :
    (e : WildcardEntry) (es : List WildcardEntry) (subs : List Subscription)
    → WildEntry e
    → All (HasTopic e.pattern) subs
    → All WildEntry es
    → All WildEntry (shrink_entry e es subs)
shrink_entry-wild e es [] h q hs = hs
shrink_entry-wild e es (s ∷ subs) h q hs = ((h.0, h.1, (λ n. cc), q), hs)

remove_wildcard-wild :
    (t : Text) (ch : ℕ) (es : List WildcardEntry)
    → All WildEntry es
    → All WildEntry (remove_wildcard t ch es)
unfolding remove_wildcard
remove_wildcard-wild t ch [] h = tt
remove_wildcard-wild t ch (e ∷ es) h =
    let kept : All WildEntry (e ∷ remove_wildcard t ch es) =
      (h.0, remove_wildcard-wild t ch es h.1) in
    elim (Bool-cases (text_eq e.pattern t)) [
      | inr other ↦ rw other kept
      | inl same ↦ rw same (elim (Option-cases (remove_first ch e.subs)) [
        | inl gone ↦ rw gone kept
        | inr (subs, found) ↦ rw found (
            shrink_entry-wild e es subs h.0
              (remove_first-All (HasTopic e.pattern) ch e.subs subs h.0.3 found) h.1)
      ])
    ]

shrink_entry-absent :
    (u : Text) (e : WildcardEntry) (es : List WildcardEntry) (subs : List Subscription)
    → PatternAbsent u (e ∷ es)
    → PatternAbsent u (shrink_entry e es subs)
shrink_entry-absent u e es [] h = h.1
shrink_entry-absent u e es (s ∷ subs) h = h

remove_wildcard-absent :
    (t u : Text) (ch : ℕ) (es : List WildcardEntry)
    → PatternAbsent u es
    → PatternAbsent u (remove_wildcard t ch es)
unfolding remove_wildcard
remove_wildcard-absent t u ch [] h = tt
remove_wildcard-absent t u ch (e ∷ es) h =
    let kept = remove_wildcard-absent t u ch es h.1 in
    elim (Bool-cases (text_eq e.pattern t)) [
      | inr other ↦ rw other (h.0, kept)
      | inl same ↦ rw same (elim (Option-cases (remove_first ch e.subs)) [
        | inl gone ↦ rw gone (h.0, kept)
        | inr (subs, found) ↦ rw found (shrink_entry-absent u e es subs h)
      ])
    ]

shrink_entry-patterns :
    (e : WildcardEntry) (es : List WildcardEntry) (subs : List Subscription)
    → DistinctPatterns (e ∷ es)
    → DistinctPatterns (shrink_entry e es subs)
shrink_entry-patterns e es [] h = h.1
shrink_entry-patterns e es (s ∷ subs) h = h

remove_wildcard-patterns :
    (t : Text) (ch : ℕ) (es : List WildcardEntry)
    → DistinctPatterns es
    → DistinctPatterns (remove_wildcard t ch es)
unfolding remove_wildcard
remove_wildcard-patterns t ch [] h = tt
remove_wildcard-patterns t ch (e ∷ es) h =
    let kept : DistinctPatterns (e ∷ remove_wildcard t ch es) =
      (remove_wildcard-absent t e.pattern ch es h.0, remove_wildcard-patterns t ch es h.1) in
    elim (Bool-cases (text_eq e.pattern t)) [
      | inr other ↦ rw other kept
      | inl same ↦ rw same (elim (Option-cases (remove_first ch e.subs)) [
        | inl gone ↦ rw gone kept
        | inr (subs, found) ↦ rw found (shrink_entry-patterns e es subs h)
      ])
    ]

-- removeChannel keeps the tables well formed.
pub remove_channel-IsValid :
    (t : Text) (ch : ℕ) (w : Core) → IsValid w → IsValid (remove_channel t ch w)
unfolding remove_channel
remove_channel-IsValid t ch w v = elim (Bool-cases (is_wildcard_pattern t)) [
  | inl wild ↦ rw wild (record {
    exact = v.exact;
    keys = v.keys;
    wild = remove_wildcard-wild t ch w.wildcard_subs v.wild;
    patterns = remove_wildcard-patterns t ch w.wildcard_subs v.patterns;
  })
  | inr plain ↦ rw plain (elim (Option-cases (remove_first ch (subs_of t w.subscribers))) [
    | inl gone ↦ rw gone v
    | inr (subs, found) ↦ rw found (record {
      exact =
          put_subs-exact t subs w.subscribers plain
            (remove_first-All (HasTopic t) ch _ subs (subs_of-topic t w.subscribers v.exact) found)
            v.exact;
      keys = put_subs-keys t subs w.subscribers v.keys;
      wild = v.wild;
      patterns = v.patterns;
    })
  ])
]
