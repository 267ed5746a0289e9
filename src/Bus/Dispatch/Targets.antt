-- ===== src/Bus/Dispatch/Targets.antt =====
-- Whom dispatch reaches: the subscriptions whose topic receives the event's, each once.
pub mod Removal
pub mod Topics
use mathlib.Core.Path.{subst}
use eventbus.Base.{
  ℕ, zero, suc, ◌+◌, ◌≤◌, ◌<◌, List, [], ◌∷◌, ◌++◌, ◌≡◌, refl, sym, ◌∙◌, ap, inl, inr, Bool, true,
  false, ◌&&◌, Option, none, some, Text, split, arith, All, Bool-cases, length, ◌==◌, if◌then◌else◌,
  ltb, text_eq, text_eq→eq, append-nil,
}
use eventbus.Errors.{Error}
use eventbus.Event.{Event}
use eventbus.Delivery.{Context}
use eventbus.Wildcard.{dot, is_wildcard_pattern, match_topic, match_segments}
use eventbus.Bus.State.{Subscription, WildcardEntry, Core}
use eventbus.Bus.Table.{subs_of, add_channel, remove_channel, new_subscription}
use eventbus.Bus.Table.Valid.{
  IsValid, ExactEntry, WildEntry, HasTopic, KeyAbsent, DistinctKeys, add_channel-IsValid,
}
use eventbus.Bus.Table.Valid.Removal.{remove_channel-IsValid}
use eventbus.Bus.Table.Counts.{
  one_if, count_if, count_exact, count_wild, count_all, on_channel, count_if-append,
  count_all-add_channel, count_all-le,
}
use eventbus.Bus.Table.Counts.Removal.{subs_at, remove_channel-RemovesOne}
use eventbus.Bus.Dispatch.{dispatch, deliver_all, deliver, wildcard_hits, send_out}

-- The subscriptions that an event of the topic goes to, in order.
abbrev pub targets : Core → Text → List Subscription
targets w t = subs_of t w.subscribers ++ wildcard_hits (split dot t) w.wildcard_subs

hits_without_entries :
    (segs : List Text) (es : List WildcardEntry)
    → (if ltb 0 (length es) then wildcard_hits segs es else []) ≡ wildcard_hits segs es
unfolding wildcard_hits
hits_without_entries segs [] = refl
hits_without_entries segs (e ∷ es) = ground arith

send_out-deliver_all :
    (collector : Option ℕ) (exact hits : List Subscription) (e : Event) (w : Core)
    → send_out collector exact hits e w ≡ deliver_all collector (exact ++ hits) e w
unfolding deliver_all
send_out-deliver_all collector [] hits e w = refl
send_out-deliver_all collector (s ∷ []) [] e w = refl
send_out-deliver_all collector (s ∷ []) (h ∷ hits) e w = refl
send_out-deliver_all collector (s ∷ t ∷ exact) hits e w = refl

no_targets :
    (segs : List Text) (exact : List Subscription) (es : List WildcardEntry)
    → (length exact == 0 && length es == 0) ≡ true
    → exact ++ wildcard_hits segs es ≡ []
unfolding wildcard_hits
no_targets segs [] [] h = refl
no_targets segs [] (e ∷ es) h = ground arith
no_targets segs (s ∷ exact) es h = ground arith

deliver_all-nil : (collector : Option ℕ) (e : Event) (w : Core) → deliver_all collector [] e w ≡ w
unfolding deliver_all
deliver_all-nil collector e w = refl

-- The early return, the fast path and the loop all come to the same: every target is delivered to,
-- in order, and dispatch returns no error.
pub dispatch-deliver_all :
    (ctx : Context) (e : Event) (w : Core)
    → dispatch ctx e w ≡ (deliver_all ctx.collector (targets w e.topic) e w, none)
unfolding dispatch
dispatch-deliver_all ctx e w =
    let segs = split dot e.topic in
    let exact = subs_of e.topic w.subscribers in
    elim (Bool-cases (length exact == 0 && length w.wildcard_subs == 0)) [
      | inl nobody ↦ rw (nobody, no_targets segs exact w.wildcard_subs nobody, deliver_all-nil)
      | inr someone ↦
          rw (someone, hits_without_entries segs w.wildcard_subs)
            (ap {B = Core × Option Error} (λ v. (v, none))
              (send_out-deliver_all ctx.collector exact _ e w))
    ]

-- Whether a subscription for `topic` receives an event of topic `t`.
abbrev pub receives : Text → Text → Bool
receives topic t = if is_wildcard_pattern topic then match_topic topic t else text_eq topic t

pub count_if-uniform :
    (p f : Subscription → Bool) (b : Bool) (subs : List Subscription)
    → All (λ s. f s ≡ b) subs
    → count_if (λ s. p s && f s) subs ≡ (if b then count_if p subs else 0)
count_if-uniform p f true [] h = refl
count_if-uniform p f false [] h = refl
count_if-uniform p f b (s ∷ subs) h = ground (arith, count_if-uniform p f b subs h.1)

pub All-map {ℓ} :
    {P Q : Subscription → Type ℓ} (subs : List Subscription)
    → ((s : Subscription) → P s → Q s)
    → All P subs
    → All Q subs
All-map [] f h = tt
All-map (s ∷ subs) f h = (f s h.0, All-map subs f h.1)

entry_of_key :
    (k t : Text)
    → is_wildcard_pattern k ≡ false
    → (s : Subscription) → s.topic ≡ k
    → receives s.topic t ≡ text_eq k t
entry_of_key k t plain s e = rw (e, plain)

entry_of_pattern :
    (e : WildcardEntry) (t : Text)
    → is_wildcard_pattern e.pattern ≡ true
    → e.segments ≡ split dot e.pattern
    → (s : Subscription) → s.topic ≡ e.pattern
    → receives s.topic t ≡ match_segments e.segments (split dot t)
unfolding match_topic
entry_of_pattern e t wild cached s same = rw (same, wild, cached)

-- Where a topic is no key, no subscription of the exact table receives it.
count_exact-KeyAbsent :
    (p : Subscription → Bool) (t : Text) (m : List (Text × List Subscription))
    → All ExactEntry m
    → KeyAbsent t m
    → count_exact (λ s. p s && receives s.topic t) m ≡ 0
count_exact-KeyAbsent p t [] h a = refl
count_exact-KeyAbsent p t ((k, subs) ∷ m) h a = ground (
  arith,
  count_if-uniform p (λ s. receives s.topic t) false subs
      (All-map subs (λ s e. entry_of_key k t h.0.0 s e ∙ a.0) h.0.1),
  count_exact-KeyAbsent p t m h.1 a.1,
)

count_exact-subs_of :
    (p : Subscription → Bool) (t : Text) (m : List (Text × List Subscription))
    → All ExactEntry m
    → DistinctKeys m
    → count_exact (λ s. p s && receives s.topic t) m ≡ count_if p (subs_of t m)
unfolding subs_of
count_exact-subs_of p t [] h d = refl
count_exact-subs_of p t ((k, subs) ∷ m) h d =
    let here =
      count_if-uniform p (λ s. receives s.topic t) (text_eq k t) subs
        (All-map subs (entry_of_key k t h.0.0) h.0.1) in
    elim (Bool-cases (text_eq k t)) [
      | inl e ↦
          let absent = subst (λ u. KeyAbsent u m) (text_eq→eq k t e) d.0 in
          rw e (omega (arith, rw e at here, count_exact-KeyAbsent p t m h.1 absent))
      | inr e ↦ rw e (omega (arith, rw e at here, count_exact-subs_of p t m h.1 d.1))
    ]

count_wild-wildcard_hits :
    (p : Subscription → Bool) (t : Text) (es : List WildcardEntry)
    → All WildEntry es
    → count_wild (λ s. p s && receives s.topic t) es ≡ count_if p (wildcard_hits (split dot t) es)
unfolding wildcard_hits
count_wild-wildcard_hits p t [] h = refl
count_wild-wildcard_hits p t (e ∷ es) h =
    let here =
      count_if-uniform p (λ s. receives s.topic t) (match_segments e.segments (split dot t)) e.subs
        (All-map e.subs (entry_of_pattern e t h.0.0 h.0.1) h.0.3) in
    let rest = count_wild-wildcard_hits p t es h.1 in
    elim (Bool-cases (match_segments e.segments (split dot t))) [
      | inl hit ↦
          rw hit (
            omega
              (arith, rw hit at here, count_if-append p e.subs (wildcard_hits (split dot t) es)))
      | inr miss ↦ rw miss (omega (arith, rw miss at here))
    ]

-- The specification of a bus: an event goes to each subscription whose own topic receives the
-- event's, as often as it stands on the bus, and to no other, whatever test singles subscriptions out,
-- if the tables are well formed. So the two tables, the cached segments and the grouping of patterns
-- have no influence on who is reached.
pub count_if-targets :
    (p : Subscription → Bool) (t : Text) (w : Core)
    → IsValid w
    → count_if p (targets w t) ≡ count_all (λ s. p s && receives s.topic t) w
count_if-targets p t w v = omega (
  arith,
  count_if-append p (subs_of t w.subscribers) (wildcard_hits (split dot t) w.wildcard_subs),
  count_exact-subs_of p t w.subscribers v.exact v.keys,
  count_wild-wildcard_hits p t w.wildcard_subs v.wild,
)

-- In well-formed tables, addChannel adds the new subscription once to the targets of the topics that
-- it receives, and changes the targets in nothing else, as far as any test can tell.
pub targets-add_channel :
    (p : Subscription → Bool) (topic t : Text) (ch : ℕ) (w : Core)
    → IsValid w
    → let w' = add_channel topic ch w in
      count_if p (targets w' t)
      ≡ count_if p (targets w t)
        + one_if (p (new_subscription w'.sub_seq topic ch) && receives topic t)
unfolding new_subscription
targets-add_channel p topic t ch w v = omega (
  arith,
  count_if-targets p t (add_channel topic ch w) (add_channel-IsValid topic ch w v),
  count_if-targets p t w v,
  count_all-add_channel (λ s. p s && receives s.topic t) topic ch w,
)
