-- ===== src/Amqp/Queues/Raw.antt =====
-- What SubscribeRaw asks of the broker, in which order, and how it ends when a request is refused.
use mathlib.Core.Path.{subst}
use eventbus.Base.{
  List, [], ◌∷◌, ◌++◌, ◌≡◌, refl, sym, ap, ◌∙◌, inl, inr, true, false, Option, none, some, Text,
  codes, text_eq, if◌then◌else◌, Bool-cases,
}
use eventbus.Base.Order.{pos}
use eventbus.Base.Trim.{trim_space}
use eventbus.Errors.{Error}
use eventbus.Amqp.Session.{Request, Entry, Server, Result, ok, err, return, request, answered}
use eventbus.Amqp.Session.Plans.{
  Planned, return-Follows, run_plan, run_plan_lem, Follows, request-Follows, bind-Follows, Stands,
  outcome, answer, then_on,
}
use eventbus.Amqp.Queues.{
  Subscribe, is_blank, full_queue_name, cannot, exchange_request, declare_exchange, declare_queue,
  declare_dead_letters, set_up, subscribe_raw, after_opening, CleanUp, with_clean_up,
}

abbrev dlx_argument : Text → Option Text
dlx_argument dlx = if text_eq dlx [] then none else some dlx

abbrev dlx_plan : Text → List Planned
dlx_plan dlx =
    if text_eq dlx [] then [] else (exchange_request dlx, cannot (codes "declare DLX")) ∷ []

-- The requests on the channel; `q` is the queue that is bound and consumed.
abbrev pub channel_plan : Subscribe → Text → List Planned
channel_plan s q =
    (Request.qos s.qos (pos 0) false, cannot (codes "set qos"))
    ∷ (exchange_request s.exchange, cannot (codes "declare exchange"))
    ∷ (dlx_plan s.dlx
        ++ (
          Request.queue_declare (full_queue_name s) true false false false (dlx_argument s.dlx),
          cannot (codes "declare queue"),
        )
          ∷ (Request.queue_bind q [] s.exchange false, cannot (codes "bind"))
          ∷ (Request.consume q [] false false false false, cannot (codes "consume queue"))
          ∷ [])

-- All requests of SubscribeRaw.
abbrev pub raw_plan : Subscribe → Text → List Planned
raw_plan s q = (Request.open_channel, cannot (codes "allocate channel")) ∷ channel_plan s q

abbrev pub error_of {ℓ} : {A : Type ℓ} → Result A → Option Error
error_of (ok a) = none
error_of (err e) = some e

abbrev seen : CleanUp × Result Text × List Entry → Option Error × List Entry
seen (c, r, log) = (error_of r, log)

module _ (server : Server) where
  pub declare_exchange-Follows :
      (exchange : Text) (explain : Error → Error)
      → Follows server
          ((exchange_request exchange, explain) ∷ [])
          (declare_exchange server exchange explain)
          tt
  unfolding declare_exchange
  declare_exchange-Follows exchange explain = request-Follows server _ explain

  pub declare_queue-Follows :
      (name : Text) (dlx : Option Text) (explain : Error → Error)
      → Follows server
          ((Request.queue_declare name true false false false dlx, explain) ∷ [])
          (declare_queue server name dlx explain)
          (server.queue_name name)
  unfolding declare_queue
  declare_queue-Follows name dlx explain =
      bind-Follows server (_ ∷ []) [] _ (λ _. return (server.queue_name name)) tt _
        (request-Follows server _ explain) (return-Follows server _)

  declare_dead_letters-Follows :
      (dlx : Text)
      → Follows server (dlx_plan dlx) (declare_dead_letters server dlx) (dlx_argument dlx)
  unfolding declare_dead_letters
  declare_dead_letters-Follows dlx = elim (Bool-cases (text_eq dlx [])) [
    | inl p ↦ rw p (return-Follows server _)
    | inr p ↦ rw p (
        bind-Follows server (_ ∷ []) [] _ (λ _. return (some dlx)) tt _
          (declare_exchange-Follows dlx (cannot (codes "declare DLX"))) (return-Follows server _))
  ]

  pub set_up-Follows :
      (s : Subscribe)
      → Follows server
          (channel_plan s (server.queue_name (full_queue_name s)))
          (set_up server s)
          (server.queue_name (full_queue_name s))
  unfolding set_up
  set_up-Follows s =
      let name = full_queue_name s in
      let q = server.queue_name name in
      bind-Follows server (_ ∷ []) _ _ _ tt q (request-Follows server _ _) (
        bind-Follows server (_ ∷ []) _ _ _ tt q (declare_exchange-Follows s.exchange _) (
          bind-Follows server (dlx_plan s.dlx) _ _ _ _ q (declare_dead_letters-Follows s.dlx) (
            bind-Follows server (_ ∷ []) _ _ _ q q (declare_queue-Follows name _ _) (
              bind-Follows server (_ ∷ []) (_ ∷ []) _ _ tt q (request-Follows server _ _) (
                bind-Follows server (_ ∷ []) [] _ _ tt q (request-Follows server _ _)
                  (return-Follows server q))))))

  subscribe_raw-run_plan :
      (s : Subscribe) (log : List Entry)
      → is_blank s.queue ≡ false
      → seen (subscribe_raw server s log)
        ≡ run_plan server (raw_plan s (server.queue_name (full_queue_name s))) log
  unfolding subscribe_raw request run_plan
  subscribe_raw-run_plan s log named = rw named (go (server.refuses log Request.open_channel))
    where
      explain : Error → Error
      explain = cannot (codes "allocate channel")

      told : (a : Text) (r : Option Error × List Entry) → seen (with_clean_up (outcome a r)) ≡ r
      told a (none, l) = refl
      told a (some e, l) = refl

      go :
          (o : Option Error)
          → seen (after_opening server s (answered Request.open_channel explain log o))
            ≡ then_on
                (run_plan server (channel_plan s (server.queue_name (full_queue_name s))))
                (answer server (Request.open_channel, explain) log o)
      go none =
          ap (λ r. seen (with_clean_up r))
            (set_up-Follows s (log ++ (Request.open_channel, true) ∷ []))
          ∙ told _ _
      go (some e) = refl

text_eq-append_nil : (a b : Text) → text_eq b [] ≡ false → text_eq (a ++ b) [] ≡ false
text_eq-append_nil [] b h = h
text_eq-append_nil (c ∷ a) b h = unfold text_eq in refl

full_queue_name-named :
    (s : Subscribe) → is_blank s.queue ≡ false → text_eq (full_queue_name s) [] ≡ false
unfolding full_queue_name
full_queue_name-named s named = elim (Bool-cases (text_eq (trim_space s.queue_prefix) [])) [
  | inl p ↦ rw p named
  | inr p ↦ rw p (text_eq-append_nil (trim_space s.queue_prefix ++ codes "_") _ named)
]

-- SubscribeRaw makes its requests in this order: a channel, its prefetch, the exchange, the dead
-- letter exchange if there is one, the queue under its full name with that exchange, the binding of
-- this queue to the exchange, and its consumption. Either all are granted, and there is no error, or
-- one is refused, those before it were granted, none comes after it, and the error is the one for that
-- request. Hypotheses: the subscriber's queue name is not blank, and the broker declares a queue under
-- the name that is asked for, if it is not empty.
pub subscribe_raw_lem :
    (server : Server) (s : Subscribe) (log : List Entry)
    → ((n : Text) → text_eq n [] ≡ false → server.queue_name n ≡ n)
    → is_blank s.queue ≡ false
    → Stands server
        (raw_plan s (full_queue_name s))
        log
        (error_of (subscribe_raw server s log).1, (subscribe_raw server s log).2)
subscribe_raw_lem server s log names named =
    subst (Stands server (raw_plan s (full_queue_name s)) log)
      (sym (
        subscribe_raw-run_plan server s log named
        ∙ ap (λ q. run_plan server (raw_plan s q) log)
            (names (full_queue_name s) (full_queue_name-named s named))))
      (run_plan_lem server (raw_plan s (full_queue_name s)) log)
