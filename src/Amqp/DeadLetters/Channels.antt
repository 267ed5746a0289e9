-- ===== src/Amqp/DeadLetters/Channels.antt =====
-- ConsumeDLX and its clean-up leave no channel open.
use eventbus.Base.{ℕ, List, [], ◌∷◌, ◌++◌, ◌≡◌, refl, ◌∙◌, true, false, none, Text, codes, map}
use eventbus.Errors.{wrap}
use eventbus.Amqp.Session.{Request, Entry, Server, Result, ok, err, open_after}
use eventbus.Amqp.Session.Plans.{
  Planned, Follows, bind-Follows, request-Follows, return-Follows, explaining, explained-Follows,
}
use eventbus.Amqp.Session.Openings.{opened, Holds, open_after-Holds, or_close-Holds}
use eventbus.Amqp.Queues.{exchange_request, CleanUp, clean_up}
use eventbus.Amqp.Queues.Raw.{declare_exchange-Follows, declare_queue-Follows}
use eventbus.Amqp.Queues.Channels.{clean_up-Owns, nothing_cleaned}
use eventbus.Amqp.DeadLetters.{
  dlx_names, in_consumer, declare_dlx, set_up_dlx, with_its_clean_up, consume_dlx,
}

-- The requests of DeclareDLX.
abbrev declare_plan : Text → List Planned
declare_plan exchange =
    (exchange_request (dlx_names exchange).0, wrap (codes "declare DLX exchange"))
    ∷ (
      Request.queue_declare (dlx_names exchange).1 true false false false none,
      wrap (codes "declare DLQ"),
    )
    ∷ (
      Request.queue_bind (dlx_names exchange).1 [] (dlx_names exchange).0 false,
      wrap (codes "bind DLQ to DLX"),
    )
    ∷ []

abbrev consume_plan : Text → List Planned
consume_plan exchange =
    map (explaining in_consumer) (declare_plan exchange)
    ++ (
      Request.consume (dlx_names exchange).1 [] false false false false,
      wrap (codes "DLX consumer: cannot consume DLQ"),
    )
      ∷ []

module _ (server : Server) (exchange : Text) where
  declare_dlx-Follows : Follows server (declare_plan exchange) (declare_dlx server exchange) tt
  unfolding declare_dlx
  declare_dlx-Follows =
      bind-Follows server (_ ∷ []) _ _ _ tt tt (declare_exchange-Follows server _ _) (
        bind-Follows server (_ ∷ []) (_ ∷ []) _ _ _ tt (declare_queue-Follows server _ none _)
          (request-Follows server _ _))

  set_up_dlx-Follows :
      Follows server (consume_plan exchange) (set_up_dlx server exchange) (dlx_names exchange).1
  unfolding set_up_dlx
  set_up_dlx-Follows =
      bind-Follows server (map (explaining in_consumer) (declare_plan exchange)) _ _ _ tt _
        (explained-Follows server in_consumer (declare_plan exchange) _ tt declare_dlx-Follows)
        (bind-Follows server (_ ∷ []) [] _ _ tt _ (request-Follows server _ _)
          (return-Follows server _))

-- Whatever the broker refuses, the clean-up that ConsumeDLX returns leaves as many channels open as
-- there were before the call; and until it is called, one more is open exactly if there was no error:
-- a call that fails has closed its channel.
pub clean_up-consume_dlx :
    (server : Server) (exchange : Text) (log : List Entry) (n : ℕ)
    → (open_after server
          (clean_up server (consume_dlx server exchange log).0 (consume_dlx server exchange log).2)
          n
        ≡ open_after server log n)
      × (open_after server (consume_dlx server exchange log).2 n
          ≡ opened (consume_dlx server exchange log).1 (open_after server log n))
unfolding consume_dlx
clean_up-consume_dlx server exchange log n = go _ (
    or_close-Holds server _ (consume_plan exchange) (set_up_dlx server exchange)
      (dlx_names exchange).1 log n (set_up_dlx-Follows server exchange) refl)
  where
    Balanced : CleanUp × Result Text × List Entry → Type 0
    Balanced (c, r, l) =
        (open_after server (clean_up server c l) n ≡ open_after server log n)
        × (open_after server l n ≡ opened r (open_after server log n))

    go :
        (r : Result Text × List Entry)
        → Holds server n (open_after server log n) r
        → Balanced (with_its_clean_up server r)
    go (ok q, l) h = (
      clean_up-Owns server n (open_after server log n) (ok q, l) h,
      open_after-Holds server n (open_after server log n) (ok q, l) h,
    )
    go (err e, l) h =
        let same = open_after-Holds server {A = Text} n (open_after server log n) (err e, l) h in
        (nothing_cleaned server l n ∙ same, same)
