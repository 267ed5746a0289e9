-- ===== src/Bus/Table/Valid.antt =====
-- The tables are well formed: each subscription stands once, where its topic is looked up.
pub mod Removal
use mathlib.Core.Path.{subst}
use eventbus.Base.{
  ℕ, List, [], ◌∷◌, ◌++◌, ◌≡◌, ◌≢◌, refl, sym, ◌∙◌, ap, inl, inr, Bool, true, false, Option, none,
  some, Text, split, text_eq, text_eq→eq, text_eq_refl, text_eq_iff, arith, All, All-append,
  Bool-cases, Option-cases, if◌then◌else◌, ◌==◌,
}
use eventbus.Wildcard.{dot, is_wildcard_pattern}
use eventbus.Bus.State.{Subscription, WildcardEntry, Core}
use eventbus.Bus.Table.{
  subs_of, put_subs, add_wildcard, add_channel, remove_first, remove_wildcard, remove_channel,
  new_subscription, shrink_entry, keep_before,
}

abbrev pub HasTopic : Text → Subscription → Type 0
HasTopic t s = s.topic ≡ t

-- A key of the exact table is no wildcard, and its subscriptions are for that topic.
abbrev pub ExactEntry : Text × List Subscription → Type 0
ExactEntry (k, subs) = (is_wildcard_pattern k ≡ false) × All (HasTopic k) subs

-- An entry of the wildcard table has its segments cached, and is never empty.
abbrev pub WildEntry : WildcardEntry → Type 0
WildEntry e =
    (is_wildcard_pattern e.pattern ≡ true)
    × (e.segments ≡ split dot e.pattern)
    × (e.subs ≢ [])
    × All (HasTopic e.pattern) e.subs

abbrev pub KeyAbsent : Text → List (Text × List Subscription) → Type 0
KeyAbsent t = All (λ kv. text_eq kv.0 t ≡ false)

abbrev pub DistinctKeys : List (Text × List Subscription) → Type 0
DistinctKeys [] = Unit {0}
DistinctKeys ((k, subs) ∷ m) = KeyAbsent k m × DistinctKeys m

abbrev pub PatternAbsent : Text → List WildcardEntry → Type 0
PatternAbsent t = All (λ e. text_eq e.pattern t ≡ false)

abbrev pub DistinctPatterns : List WildcardEntry → Type 0
DistinctPatterns [] = Unit {0}
DistinctPatterns (e ∷ es) = PatternAbsent e.pattern es × DistinctPatterns es

pub record IsValid (w : Core) : Type 0 where
  pub exact : All ExactEntry w.subscribers
  pub keys : DistinctKeys w.subscribers
  pub wild : All WildEntry w.wildcard_subs
  pub patterns : DistinctPatterns w.wildcard_subs

subs_of-topic :
    (t : Text) (m : List (Text × List Subscription))
    → All ExactEntry m
    → All (HasTopic t) (subs_of t m)
unfolding subs_of
subs_of-topic t [] h = tt
subs_of-topic t ((k, subs) ∷ m) h = elim (Bool-cases (text_eq k t)) [
  | inl e ↦ rw e (subst (λ u. All (HasTopic u) subs) (text_eq→eq k t e) h.0.1)
  | inr e ↦ rw e (subs_of-topic t m h.1)
]

put_subs-exact :
    (t : Text) (subs : List Subscription) (m : List (Text × List Subscription))
    → is_wildcard_pattern t ≡ false
    → All (HasTopic t) subs
    → All ExactEntry m
    → All ExactEntry (put_subs t subs m)
unfolding put_subs
put_subs-exact t subs [] p q h = ((p, q), tt)
put_subs-exact t subs ((k, old) ∷ m) p q h = elim (Bool-cases (text_eq k t)) [
  | inl e ↦ rw e ((h.0.0, subst (λ u. All (HasTopic u) subs) (sym (text_eq→eq k t e)) q), h.1)
  | inr e ↦ rw e (h.0, put_subs-exact t subs m p q h.1)
]

put_subs-absent :
    (t u : Text) (subs : List Subscription) (m : List (Text × List Subscription))
    → text_eq t u ≡ false
    → KeyAbsent u m
    → KeyAbsent u (put_subs t subs m)
unfolding put_subs
put_subs-absent t u subs [] ne h = (ne, tt)
put_subs-absent t u subs ((k, old) ∷ m) ne h = elim (Bool-cases (text_eq k t)) [
  | inl e ↦ rw e h
  | inr e ↦ rw e (h.0, put_subs-absent t u subs m ne h.1)
]

text_ne_sym : (s t : Text) → text_eq s t ≡ false → text_eq t s ≡ false
text_ne_sym s t h = ground (arith, text_eq_iff t s, text_eq_iff s t)

put_subs-keys :
    (t : Text) (subs : List Subscription) (m : List (Text × List Subscription))
    → DistinctKeys m
    → DistinctKeys (put_subs t subs m)
unfolding put_subs
put_subs-keys t subs [] h = (tt, tt)
put_subs-keys t subs ((k, old) ∷ m) h = elim (Bool-cases (text_eq k t)) [
  | inl e ↦ rw e h
  | inr e ↦ rw e (put_subs-absent t k subs m (text_ne_sym k t e) h.0, put_subs-keys t subs m h.1)
]

append-ne-nil : (subs : List Subscription) (s : Subscription) → subs ++ s ∷ [] ≢ []
append-ne-nil [] s e = cc
append-ne-nil (x ∷ subs) s e = cc

add_wildcard-wild :
    (t : Text) (s : Subscription) (es : List WildcardEntry)
    → is_wildcard_pattern t ≡ true
    → s.topic ≡ t
    → All WildEntry es
    → All WildEntry (add_wildcard t s es)
unfolding add_wildcard
add_wildcard-wild t s [] p q h = ((p, refl, (λ e. cc), (q, tt)), tt)
add_wildcard-wild t s (e ∷ es) p q h = elim (Bool-cases (text_eq e.pattern t)) [
  | inl same ↦ rw same (
    (
      h.0.0,
      h.0.1,
      append-ne-nil e.subs s,
      All-append (HasTopic e.pattern) e.subs (s ∷ []) h.0.3
          (q ∙ sym (text_eq→eq e.pattern t same), tt),
    ),
    h.1,
  )
  | inr other ↦ rw other (h.0, add_wildcard-wild t s es p q h.1)
]

add_wildcard-absent :
    (t u : Text) (s : Subscription) (es : List WildcardEntry)
    → text_eq t u ≡ false
    → PatternAbsent u es
    → PatternAbsent u (add_wildcard t s es)
unfolding add_wildcard
add_wildcard-absent t u s [] ne h = (ne, tt)
add_wildcard-absent t u s (e ∷ es) ne h = elim (Bool-cases (text_eq e.pattern t)) [
  | inl same ↦ rw same h
  | inr other ↦ rw other (h.0, add_wildcard-absent t u s es ne h.1)
]

add_wildcard-patterns :
    (t : Text) (s : Subscription) (es : List WildcardEntry)
    → DistinctPatterns es
    → DistinctPatterns (add_wildcard t s es)
unfolding add_wildcard
add_wildcard-patterns t s [] h = (tt, tt)
add_wildcard-patterns t s (e ∷ es) h = elim (Bool-cases (text_eq e.pattern t)) [
  | inl same ↦ rw same h
  | inr other ↦ rw other (
    add_wildcard-absent t e.pattern s es (text_ne_sym e.pattern t other) h.0,
    add_wildcard-patterns t s es h.1,
  )
]

-- A new subscription keeps the tables well formed.
pub add_channel-IsValid : (t : Text) (ch : ℕ) (w : Core) → IsValid w → IsValid (add_channel t ch w)
unfolding add_channel new_subscription
add_channel-IsValid t ch w v = elim (Bool-cases (is_wildcard_pattern t)) [
  | inl wild ↦ rw wild (record {
    exact = v.exact;
    keys = v.keys;
    wild = add_wildcard-wild t _ w.wildcard_subs wild refl v.wild;
    patterns = add_wildcard-patterns t _ w.wildcard_subs v.patterns;
  })
  | inr plain ↦ rw plain (record {
    exact =
        put_subs-exact t _ w.subscribers plain
          (All-append (HasTopic t) _ _ (subs_of-topic t w.subscribers v.exact) (refl, tt)) v.exact;
    keys = put_subs-keys t _ w.subscribers v.keys;
    wild = v.wild;
    patterns = v.patterns;
  })
]
