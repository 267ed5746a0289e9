-- ===== src/Pool/Attached/Joint.antt =====
-- What a pool of ext/pool/pool.go and its bus come to, in whatever order things happen.
use mathlib.Core.Path.{subst}
use eventbus.Base.{
  ℕ, List, [], ◌∷◌, ◌++◌, ◌≡◌, refl, ap, ◌∙◌, sym, Bool, true, false, not, ◌&&◌, ◌==◌, all, arith,
  if◌then◌else◌, some, Text, get_elem?, append_assoc,
}
use eventbus.Event.{Event}
use eventbus.Bus.State.{Core}
use eventbus.Bus.Table.{subscribe, next_channel}
use eventbus.Bus.Lifecycle.Invariant.{
  CoreInv, subscribe-CoreInv, remove_channel-CoreInv, receive-CoreInv, close_safe-CoreInv,
  deliver-CoreInv,
}
use eventbus.Bus.Roster.Refinement.{table_op-CoreInv}
use eventbus.Pool.Lifecycle.{Line, subscribe_with_pool, Steps, done, next, removes, ends}
use eventbus.Pool.Attached.{IsAttached, own_channel, Sending, look_up, reaches}
use eventbus.Pool.Attached.Sends.{sent-IsAttached, sent-Steps, is_meant, look_up-meant}
use eventbus.Pool.Attached.Others.{others-IsAttached, others-Steps}
use eventbus.Pool.Attached.Moves.{
  Joint, Move, Moves, others_do, looks_up, sends_one, forwards, works, detaches, shuts, rests,
  moves,
}
use eventbus.Pool.Attached.Kept.{
  receives-IsAttached, works-IsAttached, detaches-IsAttached, shuts-IsAttached,
  subscribe-IsAttached,
}
use eventbus.Bus.Dispatch.Targets.{targets, receives}
use eventbus.Bus.Dispatch.Receipts.{on_list}
use eventbus.Pool.Attached.Others.{on_list-targets}

Steps-append :
    {l m n : Line} {es fs : List Event} → Steps l es m → Steps m fs n → Steps l (es ++ fs) n
Steps-append done more = more
Steps-append {l} {n = n} {fs = gs} (next {es} {fs} s rest) more =
    subst (λ es. Steps l es n) (sym (append_assoc es fs gs)) (next s (Steps-append rest more))

-- The state of a run: the bus is in order, the pool is attached to it, and what waits for the pool's
-- channel is meant for it.
pub record IsJoined (topic : Text) (ch : ℕ) (j : Joint) : Type 0 where
  pub inv : CoreInv j.core
  pub attached : IsAttached topic ch j.core j.line
  pub meant : all (is_meant topic ch) j.in_flight ≡ true

-- The pool has taken steps of its relation, with events of its topic.
abbrev Follows : Text → ℕ → Line → List Event → Joint → Type 0
Follows topic ch l es j =
    IsJoined topic ch j × Steps l es j.line × (all (λ e. receives topic e.topic) es ≡ true)

all_append {ℓ} :
    {A : Type ℓ} (p : A → Bool) (xs ys : List A) → all p (xs ++ ys) ≡ (all p xs && all p ys)
all_append p [] ys = refl
all_append p (x ∷ xs) ys = ground (arith, all_append p xs ys)

module _ (topic : Text) (ch : ℕ) where
  -- The send that is next is meant for the pool if it reaches it.
  brought_meant :
      (l : Line) (x : Sending) (b : Bool)
      → reaches ch l x ≡ b
      → is_meant topic ch x ≡ true
      → all (λ e. receives topic e.topic) (if b then x.event ∷ [] else []) ≡ true
  brought_meant l x false r h = refl
  brought_meant l x true r h = ground arith

  Move-Follows :
      {i j : Joint} {es : List Event}
      → Move topic ch i es j
      → IsJoined topic ch i
      → Follows topic ch i.line es j
  Move-Follows (others_do op j o) h = (
    record {
      inv = table_op-CoreInv op j.core h.inv;
      attached = others-IsAttached topic ch op j.core j.line h.inv o h.attached;
      meant = h.meant;
    },
    others-Steps op j.line,
    refl,
  )
  Move-Follows (looks_up ctx e j) h = (
    record {
      inv = h.inv;
      attached = h.attached;
      meant =
          all_append (is_meant topic ch) j.in_flight (look_up ctx e j.core)
          ∙ rw (h.meant, look_up-meant topic ch ctx e j.core j.line h.inv h.attached) refl;
    },
    done,
    refl,
  )
  Move-Follows (sends_one before x after j waits) h =
      let all_meant : all (is_meant topic ch) (before ++ x ∷ after) ≡ true =
        ap (all (is_meant topic ch)) (sym waits) ∙ h.meant in
      let a = all_append (is_meant topic ch) before (x ∷ after) in
      let b = all_append (is_meant topic ch) before after in
      (
        record {
          inv = deliver-CoreInv x.collector x.sub x.event j.core h.inv;
          attached = sent-IsAttached topic ch x j.core j.line h.attached;
          meant = ground (arith, a, b, all_meant);
        },
        sent-Steps ch x j.line,
        brought_meant j.line x (reaches ch j.line x) refl (ground (arith, a, all_meant)),
      )
  Move-Follows (forwards e j m s i c r) h = (
    record {
      inv = receive-CoreInv ch j.core h.inv;
      attached = receives-IsAttached topic ch e j.core j.line m i c r h.attached;
      meant = h.meant;
    },
    next s done,
    refl,
  )
  Move-Follows (works j m s i c r) h = (
    record {
      inv = h.inv;
      attached = works-IsAttached topic ch j.core j.line m i c r h.attached;
      meant = h.meant;
    },
    next s done,
    refl,
  )
  Move-Follows (detaches j f t) h = (
    record {
      inv = remove_channel-CoreInv topic ch j.core h.inv;
      attached = detaches-IsAttached topic ch j.core j.line h.inv h.attached;
      meant = h.meant;
    },
    next (removes j.line f t) done,
    refl,
  )
  Move-Follows (shuts j t i b) h = (
    record {
      inv = close_safe-CoreInv ch j.core h.inv;
      attached = shuts-IsAttached topic ch j.core j.line h.attached;
      meant = h.meant;
    },
    next (ends j.line t i b) done,
    refl,
  )

  Moves-Follows :
      {i j : Joint} {es : List Event}
      → Moves topic ch i es j
      → IsJoined topic ch i
      → Follows topic ch i.line es j
  Moves-Follows rests h = (h, done, refl)
  Moves-Follows (moves {es} {fs} m more) h =
      let (h', first, good) = Move-Follows m h in
      let (h'', later, goods) = Moves-Follows more h' in
      (
        h'',
        Steps-append first later,
        all_append (λ e. receives topic e.topic) es fs ∙ rw (good, goods) refl,
      )

meant_others :
    (topic : Text) (ch : ℕ) (sends : List Sending)
    → all (λ x. not (ch == x.sub.ch)) sends ≡ true
    → all (is_meant topic ch) sends ≡ true
meant_others topic ch [] h = refl
meant_others topic ch (x ∷ sends) h = ground (arith, meant_others topic ch sends (ground arith))

-- A pool that SubscribeWithPool has just put on a bus, with sends of earlier dispatches in flight.
abbrev pub just_attached : Text → Core → List Sending → (queue_size workers : ℕ) → Joint
just_attached topic w sends queue_size workers = record {
  core = (subscribe topic w).0;
  in_flight = sends;
  line = subscribe_with_pool queue_size workers;
}

-- A pool that SubscribeWithPool puts on a bus in order, while earlier dispatches may still send to other
-- channels; however others use the bus from then on (Subscribe, RemoveChannel of other channels,
-- receives from other channels, the closing loops of Close, and dispatches, whose sends come at any time
-- after their lookup), and in whatever order the pool's goroutines take turns with them: the pool goes
-- through steps of its own relation, with exactly the events that are sent into its channel, and these
-- are of topics that its topic receives; the channel on the bus holds what the relation says, closed or
-- open; and a lookup for an event of any topic finds it exactly if the pool is registered still and its
-- topic receives the event's.
pub pool_on_bus :
    {j : Joint} {es : List Event} (topic : Text) (w : Core) (sends : List Sending)
    (queue_size workers : ℕ)
    → CoreInv w
    → all (λ x. not (next_channel w == x.sub.ch)) sends ≡ true
    → Moves topic (next_channel w) (just_attached topic w sends queue_size workers) es j
    → Steps (subscribe_with_pool queue_size workers) es j.line
      × (all (λ e. receives topic e.topic) es ≡ true)
      × (get_elem? j.core.channels (next_channel w) ≡ some (own_channel j.line))
      × ((t : Text)
          → on_list (next_channel w) (targets j.core t) ≡ (j.line.registered && receives topic t))
pool_on_bus {j} topic w sends queue_size workers v others run =
    let ch = next_channel w in
    let (h, steps, good) = Moves-Follows topic ch run (record {
      inv = subscribe-CoreInv topic w v;
      attached = subscribe-IsAttached topic w queue_size workers v;
      meant = meant_others topic ch sends others;
    }) in
    (
      steps,
      good,
      h.attached.channel,
      λ t. on_list-targets topic ch t j.core j.line h.inv h.attached,
    )
