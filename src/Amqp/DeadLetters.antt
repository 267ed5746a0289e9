-- ===== src/Amqp/DeadLetters.antt =====
-- ext/amqp/amqpclt/dlx.go: the exchange and the queue for dead letters, and their consumption.
pub mod Channels
use eventbus.Base.{
  ℕ, ◌+◌, ◌-◌, List, [], ◌∷◌, ◌++◌, ◌≡◌, refl, sym, ap, ◌∙◌, Bool, true, false, Option, none, some,
  Text, codes, if◌then◌else◌, map, arith,
}
use eventbus.Errors.{Error, wrap}
use eventbus.Amqp.Session
use eventbus.Amqp.Session.{
  Request, Entry, Server, Result, ok, err, Session, ◌>>=◌, ◌>>◌, return, request, or_close,
  explained, open_after,
}
use eventbus.Amqp.Session.Plans.{
  Planned, Follows, bind-Follows, request-Follows, return-Follows, outcome, explained-Follows,
}
use eventbus.Amqp.Queues.{
  exchange_request, declare_exchange, declare_queue, CleanUp, does_nothing, closes_channel,
  clean_up,
}
use eventbus.Amqp.Queues.Raw.{declare_exchange-Follows, declare_queue-Follows}

-- DLXNames.
unfoldable pub dlx_names : Text → Text × Text
dlx_names exchange = (exchange ++ codes ".dlx", exchange ++ codes ".dlq")

abbrev pub in_consumer : Error → Error
in_consumer e = wrap (codes "DLX consumer") e

module _ (server : Server) where
  -- DeclareDLX.
  unfoldable pub declare_dlx : Text → Session (Unit {0})
  unfolding dlx_names declare_exchange declare_queue request
  declare_dlx exchange = do
    let (dlx, dlq) = dlx_names exchange
    declare_exchange server dlx (wrap (codes "declare DLX exchange"))
    declare_queue server dlq none (wrap (codes "declare DLQ"))
    request server (Request.queue_bind dlq [] dlx false) (wrap (codes "bind DLQ to DLX"))

  -- The part of ConsumeDLX after which it closes the channel if it fails: the queue consumed.
  unfoldable pub set_up_dlx : Text → Session Text
  unfolding dlx_names declare_dlx request
  set_up_dlx exchange = do
    let (dlx, dlq) = dlx_names exchange
    (λ log. explained in_consumer (declare_dlx exchange log))
    request server (Request.consume dlq [] false false false false)
        (wrap (codes "DLX consumer: cannot consume DLQ"))
    return dlq

  abbrev pub with_its_clean_up : Result Text × List Entry → CleanUp × Result Text × List Entry
  with_its_clean_up (ok q, log) = (closes_channel, ok q, log)
  with_its_clean_up (err e, log) = (does_nothing, err e, log)

  -- ConsumeDLX.
  unfoldable pub consume_dlx : Text → List Entry → CleanUp × Result Text × List Entry
  unfolding set_up_dlx request
  consume_dlx exchange log = with_its_clean_up (
      (request server Request.open_channel (wrap (codes "DLX consumer: cannot allocate channel"))
          >> λ l. or_close server (set_up_dlx exchange l))
        log)
