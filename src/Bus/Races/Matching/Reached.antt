-- ===== src/Bus/Races/Matching/Reached.antt =====
-- The invariant of the racing calls, from New on.
use eventbus.Base.{
  ℕ, [], ◌≡◌, refl, sym, ap, ◌∙◌, true, some, Text, get_elem?, arith, length, All, All-append,
}
use mathlib.Core.Path.{subst}
use eventbus.Event.{Event}
use eventbus.Channel.{Channel}
use eventbus.Channel.Bounds.{length-close_safe, length-receive}
use eventbus.Bus.State.{empty_core}
use eventbus.Bus.Table.Counts.Removal.{count_all-remove_channel, channels-remove_channel}
use eventbus.Bus.Dispatch.Targets.{receives}
use eventbus.Bus.Lifecycle.{close_tables}
use eventbus.Bus.Lifecycle.Invariant.{
  remove_channel-CoreInv, receive-CoreInv, close_safe-CoreInv, close_tables-CoreInv,
  length-close_tables,
}
use eventbus.Bus.Races.{
  Crowd, Step, looks_up, sends, returns, subscribes, removes, closes, shuts, Steps, done, next,
}
use eventbus.Bus.Races.Matching.{may_hold, queue_of, FlightMatches, QueuesMatch, targets-match}
use eventbus.Bus.Races.Matching.Kept.{
  close_safe-QueuesMatch, receive-QueuesMatch, close_exact-QueuesMatch, close_wild-QueuesMatch,
}
use eventbus.Bus.Races.Matching.Invariant.{
  IsMatching, All-middle, sends-IsMatching, subscribes-IsMatching,
}

Step-IsMatching : {c d : Crowd} → Step c d → IsMatching c → IsMatching d
unfolding close_tables
Step-IsMatching (looks_up ctx e c) h = record {
  core_inv = h.core_inv;
  enough = h.enough;
  owned = h.owned;
  flights =
      All-append (FlightMatches c.topics) c.flights _ h.flights
        (targets-match c.topics e.topic c.core h.core_inv.valid h.owned, tt);
  queues = h.queues;
}
Step-IsMatching (sends before f s left after c at more) h =
    sends-IsMatching before f s left after c at more h
Step-IsMatching (returns before f after c at none_left) h = record {
  core_inv = h.core_inv;
  enough = h.enough;
  owned = h.owned;
  flights =
      (All-middle (FlightMatches c.topics) before f after
        (subst (All (FlightMatches c.topics)) at h.flights)).1;
  queues = h.queues;
}
Step-IsMatching (subscribes t c) h = subscribes-IsMatching t c h
Step-IsMatching (removes t ch c) h =
    let same = channels-remove_channel t ch c.core in
    record {
      core_inv = remove_channel-CoreInv t ch c.core h.core_inv;
      enough = h.enough ∙ sym (ap (length {A = Channel}) same);
      owned = omega (arith, count_all-remove_channel _ t ch c.core, h.owned);
      flights = h.flights;
      queues = subst (QueuesMatch c.topics) (sym same) h.queues;
    }
Step-IsMatching (closes c) h =
    let kept = close_tables-CoreInv c.core h.core_inv in
    record {
      core_inv = kept;
      enough = h.enough ∙ sym (length-close_tables c.core);
      owned = refl;
      flights = h.flights;
      queues =
          close_wild-QueuesMatch c.topics c.core.wildcard_subs _
            (close_exact-QueuesMatch c.topics c.core.subscribers c.core.channels h.queues);
    }
Step-IsMatching (shuts ch c) h = record {
  core_inv = close_safe-CoreInv ch c.core h.core_inv;
  enough = h.enough ∙ sym (length-close_safe ch c.core.channels);
  owned = h.owned;
  flights = h.flights;
  queues = close_safe-QueuesMatch c.topics ch c.core.channels h.queues;
}
Step-IsMatching (Step.receives ch c) h = record {
  core_inv = receive-CoreInv ch c.core h.core_inv;
  enough = h.enough ∙ sym (length-receive ch c.core.channels);
  owned = h.owned;
  flights = h.flights;
  queues = receive-QueuesMatch c.topics ch c.core.channels h.queues;
}

abbrev pub new_crowd : (ℕ → ℕ) → Crowd
new_crowd clock = record { core = empty_core clock; flights = []; topics = [] }

new-IsMatching : (clock : ℕ → ℕ) → IsMatching (new_crowd clock)
new-IsMatching clock = record {
  core_inv = record {
    valid = record { exact = tt; keys = tt; wild = tt; patterns = tt };
    one = λ ch. omega arith;
    known = λ ch h. refl;
    fits = tt;
  };
  enough = refl;
  owned = refl;
  flights = tt;
  queues = λ i. tt;
}

Steps-IsMatching : {c d : Crowd} → Steps c d → IsMatching c → IsMatching d
Steps-IsMatching done h = h
Steps-IsMatching (next s more) h = Steps-IsMatching more (Step-IsMatching s h)

-- However calls of dispatch, Subscribe, removeChannel and Close and the reads of subscribers have taken
-- turns on a bus that began empty: if channel `i` was made by Subscribe for topic `t`, every event in it
-- is one whose topic `t` receives.
pub races_lem :
    {c : Crowd} (clock : ℕ → ℕ) (i : ℕ) (t : Text)
    → Steps (new_crowd clock) c
    → get_elem? c.topics i ≡ some t
    → All (λ (e : Event). receives t e.topic ≡ true) (queue_of (get_elem? c.core.channels i))
races_lem {c} clock i t run made =
    let h = (Steps-IsMatching run (new-IsMatching clock)).queues i in
    subst
      (λ o. All (λ (e : Event). may_hold o e.topic ≡ true) (queue_of (get_elem? c.core.channels i)))
      made h
