-- ===== src/Amqp/Services.antt =====
-- Start and Stop of Consumer (ext/amqp/consumer.go) and of Listener (ext/amqp/publisher.go), as far as
-- they decide when the goroutine begins and ends.
pub mod Channels
use eventbus.Base.{
  ℕ, zero, suc, ◌+◌, ◌-◌, ◌≤◌, List, [], ◌∷◌, ◌++◌, ◌≡◌, refl, sym, ap, ◌∙◌, inl, inr, Bool, true,
  false, not, ◌&&◌, ◌||◌, Option, none, some, Text, codes, if◌then◌else◌, arith, Bool-cases, ltb,
}
use eventbus.Errors.{Error, plain}
use eventbus.Amqp.Session.{Entry, Server, Result, ok, err, open_after}
use eventbus.Amqp.Queues.{Subscribe, subscribe_raw, CleanUp, does_nothing, closes_channel, clean_up}

-- What Start, Stop and the goroutine share. A panic in any of them ends the process.
pub record Service : Type 0 where
  pub started : Bool
  pub has_cancel : Bool
  pub canceled : Bool
  -- The goroutines that run; of these, those whose context cannot be cancelled any more by Stop.
  pub running : ℕ
  pub out_of_reach : ℕ
  pub done_closed : Bool
  pub crashed : Bool

abbrev pub new_service : Service
new_service = record {
  started = false;
  has_cancel = false;
  canceled = false;
  running = 0;
  out_of_reach = 0;
  done_closed = false;
  crashed = false;
}

abbrev begin_run : Service → Service
begin_run s = record s {
  has_cancel = true;
  canceled = false;
  out_of_reach = s.running;
  running = s.running + 1;
}

-- Consumer.Start.
unfoldable pub start_consumer : Service → Service × Option Error
start_consumer s =
    if s.started
    then (s, some (plain (codes "amqp consumer already started")))
    else (begin_run (record s { started = true }), none)

-- Consumer.Stop, up to its wait.
unfoldable pub stop_consumer : Service → Service
stop_consumer s = if not s.started || not s.has_cancel then s else record s { canceled = true }

-- Listener.Start, which returns nil always.
unfoldable pub start_listener : Service → Service
start_listener s = begin_run s

-- Listener.Stop, up to its wait; a nil cancel cannot be called.
unfoldable pub stop_listener : Service → Service
stop_listener s = if s.has_cancel then record s { canceled = true } else record s { crashed = true }

-- A goroutine returns: it closes `done`, which can be closed once.
unfoldable pub end_run : Service → Service
end_run s =
    if ltb 0 s.running
    then record s {
      running = s.running - 1;
      done_closed = true;
      crashed = s.crashed || s.done_closed;
    }
    else s

pub data Call : Type 0 where
  start stop ends : Call

unfoldable pub run_consumer : List Call → Service → Service
unfolding start_consumer stop_consumer end_run
run_consumer [] s = s
run_consumer (start ∷ cs) s = run_consumer cs (start_consumer s).0
run_consumer (stop ∷ cs) s = run_consumer cs (stop_consumer s)
run_consumer (ends ∷ cs) s = run_consumer cs (end_run s)

unfoldable pub run_listener : List Call → Service → Service
unfolding start_listener stop_listener end_run
run_listener [] s = s
run_listener (start ∷ cs) s = run_listener cs (start_listener s)
run_listener (stop ∷ cs) s = run_listener cs (stop_listener s)
run_listener (ends ∷ cs) s = run_listener cs (end_run s)

-- A consumer has one goroutine at most, and closes `done` once.
record IsSafe (s : Service) : Type 0 where
  calm : s.crashed ≡ false
  idle : s.started ≡ false → (s.running ≡ 0) × (s.done_closed ≡ false)
  single : s.running ≤ 1
  once : s.done_closed ≡ true → s.running ≡ 0
  reach : s.out_of_reach ≡ 0

start_consumer-IsSafe : {s : Service} → IsSafe s → IsSafe (start_consumer s).0
unfolding start_consumer
start_consumer-IsSafe {s} v = elim (Bool-cases s.started) [
  | inl again ↦ ground arith
  | inr first ↦ let (none_runs, open_yet) = v.idle first in ground arith
]

stop_consumer-IsSafe : {s : Service} → IsSafe s → IsSafe (stop_consumer s)
unfolding stop_consumer
stop_consumer-IsSafe v = ground arith

end_run-IsSafe : {s : Service} → IsSafe s → IsSafe (end_run s)
unfolding end_run
end_run-IsSafe v = ground arith

run_consumer-IsSafe : (cs : List Call) {s : Service} → IsSafe s → IsSafe (run_consumer cs s)
unfolding run_consumer
run_consumer-IsSafe [] v = v
run_consumer-IsSafe (start ∷ cs) v = run_consumer-IsSafe cs (start_consumer-IsSafe v)
run_consumer-IsSafe (stop ∷ cs) v = run_consumer-IsSafe cs (stop_consumer-IsSafe v)
run_consumer-IsSafe (ends ∷ cs) v = run_consumer-IsSafe cs (end_run-IsSafe v)

-- Whatever calls of Start and Stop a consumer has seen, in any order, and whenever its goroutine has
-- returned, nothing has panicked, at most one goroutine runs, Stop can still reach it, and `done` is
-- closed only when it has returned.
pub run_consumer_lem :
    (cs : List Call)
    → ((run_consumer cs new_service).crashed ≡ false)
      × ((run_consumer cs new_service).running ≤ 1)
      × ((run_consumer cs new_service).out_of_reach ≡ 0)
      × ((run_consumer cs new_service).done_closed ≡ true
          → (run_consumer cs new_service).running ≡ 0)
run_consumer_lem cs =
    let v = run_consumer-IsSafe cs {s = new_service} (record {
      calm = refl;
      idle = λ t. (refl, refl);
      single = omega arith;
      once = λ t. refl;
      reach = refl;
    }) in
    (v.calm, v.single, v.reach, v.once)

-- What a listener keeps of it.
abbrev pub unmarked : Service → Service
unmarked s = record s { started = false }

abbrev pub no_start : List Call → Bool
no_start [] = true
no_start (start ∷ cs) = false
no_start (stop ∷ cs) = no_start cs
no_start (ends ∷ cs) = no_start cs

module _ (s : Service) (on : s.started ≡ true) (reach : s.has_cancel ≡ true) where
  same_stop :
      (stop_listener (unmarked s) ≡ unmarked (stop_consumer s))
      × ((stop_consumer s).started ≡ true)
      × ((stop_consumer s).has_cancel ≡ true)
  unfolding stop_listener stop_consumer
  same_stop = ground arith

  same_end :
      (end_run (unmarked s) ≡ unmarked (end_run s))
      × ((end_run s).started ≡ true)
      × ((end_run s).has_cancel ≡ true)
  unfolding end_run
  same_end = ground arith

same_run :
    (cs : List Call) (s : Service)
    → no_start cs ≡ true
    → s.started ≡ true
    → s.has_cancel ≡ true
    → run_listener cs (unmarked s) ≡ unmarked (run_consumer cs s)
unfolding run_listener run_consumer
same_run [] s h on reach = refl
same_run (start ∷ cs) s h on reach = absurd (ground arith)
same_run (stop ∷ cs) s h on reach =
    let (same, on', reach') = same_stop s on reach in
    ap (run_listener cs) same ∙ same_run cs (stop_consumer s) h on' reach'
same_run (ends ∷ cs) s h on reach =
    let (same, on', reach') = same_end s on reach in
    ap (run_listener cs) same ∙ same_run cs (end_run s) h on' reach'

-- A listener that is started once, before anything else, does what a consumer does, in any order of
-- the calls of Stop and the return of the goroutine.
pub run_listener-run_consumer :
    (cs : List Call)
    → no_start cs ≡ true
    → run_listener (start ∷ cs) new_service ≡ unmarked (run_consumer (start ∷ cs) new_service)
unfolding run_listener run_consumer start_consumer start_listener
run_listener-run_consumer cs h = same_run cs (start_consumer new_service).0 h refl refl
