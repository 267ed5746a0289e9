-- ===== src/Amqp/Services/Channels.antt =====
-- The channel that the goroutine of a consumer or of a listener gets from SubscribeManual.
use eventbus.Base.{ℕ, List, ◌≡◌, Text}
use eventbus.Amqp.Session.{Entry, Server, Result, ok, err, open_after, ErrorsClose}
use eventbus.Amqp.Session.Openings.{opened}
use eventbus.Amqp.Queues.{Subscribe, subscribe_raw, CleanUp, clean_up}
use eventbus.Amqp.Queues.Channels.{clean_up-subscribe_raw}

-- What the goroutine of Start asks of the broker, before its loop and after: if SubscribeManual fails,
-- its clean-up is not called.
abbrev pub end_service : Server → CleanUp × Result Text × List Entry → List Entry
end_service server (c, ok q, log) = clean_up server c log
end_service server (c, err e, log) = log

unfoldable pub service_log : Server → Subscribe → List Entry → List Entry
service_log server s log = end_service server (subscribe_raw server s log)

-- When the goroutine of a consumer or a listener is gone, as many channels are open as there were
-- before it, whatever the broker has refused: after an error of SubscribeManual its clean-up is not
-- called. Hypothesis: an error of a request on a channel closes the channel.
pub open_after-service_log :
    (server : Server) (s : Subscribe) (log : List Entry) (n : ℕ)
    → ErrorsClose server
    → open_after server (service_log server s log) n ≡ open_after server log n
unfolding service_log
open_after-service_log server s log n close =
    go (subscribe_raw server s log) (clean_up-subscribe_raw server s log n close)
  where
    go :
        (r : CleanUp × Result Text × List Entry)
        → (open_after server (clean_up server r.0 r.2) n ≡ open_after server log n)
          × (open_after server r.2 n ≡ opened r.1 (open_after server log n))
        → open_after server (end_service server r) n ≡ open_after server log n
    go (c, ok q, l) h = h.0
    go (c, err e, l) h = h.1
