-- ===== src/Bus/Races/Alone.antt =====
-- A call of dispatch that nothing interrupts does what dispatch does in one step.
use eventbus.Base.{List, [], ◌∷◌, refl, sym, Option, ℕ, Text}
use mathlib.Core.Path.{subst}
use eventbus.Event.{Event}
use eventbus.Delivery.{Context}
use eventbus.Bus.State.{Subscription, Core}
use eventbus.Bus.Dispatch.{dispatch, deliver, deliver_all}
use eventbus.Bus.Dispatch.Targets.{targets, dispatch-deliver_all}
use eventbus.Bus.Races.{Crowd, looks_up, sends, returns, Steps, done, next}

module _ (topics : List Text) where
  abbrev alone : Option ℕ → Event → List Subscription → Core → Crowd
  alone k e subs w = record {
    core = w;
    flights = record { collector = k; event = e; left = subs } ∷ [];
    topics = topics;
  }

  abbrev pub quiet : Core → Crowd
  quiet w = record { core = w; flights = []; topics = topics }

  sends_all :
      (k : Option ℕ) (e : Event) (subs : List Subscription) (w : Core)
      → Steps (alone k e subs w) (quiet (deliver_all k subs e w))
  unfolding deliver_all
  sends_all k e [] w = next (returns [] _ [] (alone k e [] w) refl refl) done
  sends_all k e (s ∷ subs) w =
      next (sends [] _ s subs [] (alone k e (s ∷ subs) w) refl refl)
        (sends_all k e subs (deliver k s e w))

-- One of the ways in which a call of dispatch can run is that nothing comes between its steps, and that
-- way comes to what dispatch in one step does.
pub dispatch-Steps :
    (topics : List Text) (ctx : Context) (e : Event) (w : Core)
    → Steps (quiet topics w) (quiet topics (dispatch ctx e w).0)
dispatch-Steps topics ctx e w =
    let all =
      next (looks_up ctx e (quiet topics w))
        (sends_all topics ctx.collector e (targets w e.topic) w) in
    subst (λ r. Steps (quiet topics w) (quiet topics r.0)) (sym (dispatch-deliver_all ctx e w)) all
