-- ===== src/Amqp/Client/Opening.antt =====
-- NewPublisher and Close of ext/amqp/amqpclt/publish.go, with the channel.
use eventbus.Base.{ℕ, List, [], ◌∷◌, ◌≡◌, refl, ◌∙◌, false, Option, none, some, Text, codes}
use eventbus.Amqp.Session.{
  Request, Entry, Server, Result, ok, err, Session, ◌>>◌, return, request, or_close,
  close_channel_now, open_after,
}
use eventbus.Amqp.Session.Plans.{Planned, Follows, bind-Follows, request-Follows, return-Follows}
use eventbus.Amqp.Session.Openings.{
  opened, Holds, open_after-Holds, open_after-close, or_close-Holds,
}
use eventbus.Amqp.Queues.{exchange_request, declare_exchange, cannot}
use eventbus.Amqp.Queues.Raw.{declare_exchange-Follows}
use eventbus.Amqp.Client.{Publish, PublishOption, new_publish}

module _ (server : Server) where
  -- The part of NewPublisher after which it closes the channel if it fails.
  unfoldable pub set_up_publisher : Text → List PublishOption → Session Publish
  unfolding declare_exchange request
  set_up_publisher exchange os = do
    declare_exchange server exchange (cannot (codes "declare exchange"))
    request server (Request.confirm false) (cannot (codes "enable confirm mode"))
    return (new_publish exchange os)

  -- NewPublisher.
  unfoldable pub new_publisher : Text → List PublishOption → Session Publish
  unfolding request set_up_publisher
  new_publisher exchange os =
      request server Request.open_channel (cannot (codes "allocate channel")) >> λ log.
      or_close server (set_up_publisher exchange os log)

  -- Publish.Close, for a publisher that NewPublisher has made or for none.
  unfoldable pub close_publish : Option Publish → List Entry → List Entry
  unfolding close_channel_now
  close_publish none log = log
  close_publish (some p) log = close_channel_now server log

  abbrev publish_plan : Text → List Planned
  publish_plan exchange =
      (exchange_request exchange, cannot (codes "declare exchange"))
      ∷ (Request.confirm false, cannot (codes "enable confirm mode"))
      ∷ []

  set_up_publisher-Follows :
      (exchange : Text) (os : List PublishOption)
      → Follows server
          (publish_plan exchange)
          (set_up_publisher exchange os)
          (new_publish exchange os)
  unfolding set_up_publisher
  set_up_publisher-Follows exchange os =
      bind-Follows server (_ ∷ []) _ _ _ tt _ (declare_exchange-Follows server _ _) (
        bind-Follows server (_ ∷ []) [] _ _ tt _ (request-Follows server _ _)
          (return-Follows server _))

abbrev pub made {ℓ} : {A : Type ℓ} → Result A → Option A
made (ok a) = some a
made (err e) = none

-- Whatever the broker refuses, NewPublisher leaves one more channel open if it returns a publisher,
-- and none if it returns an error; Close on what it returned, a publisher or nil, leaves as many
-- channels open as there were at first.
pub close_publish-new_publisher :
    (server : Server) (exchange : Text) (os : List PublishOption) (log : List Entry) (n : ℕ)
    → (open_after server (new_publisher server exchange os log).1 n
        ≡ opened (new_publisher server exchange os log).0 (open_after server log n))
      × (open_after server
            (close_publish server
              (made (new_publisher server exchange os log).0)
              (new_publisher server exchange os log).1)
            n
          ≡ open_after server log n)
unfolding new_publisher
close_publish-new_publisher server exchange os log n = go _ (
    or_close-Holds server _ (publish_plan server exchange) (set_up_publisher server exchange os)
      (new_publish exchange os) log n (set_up_publisher-Follows server exchange os) refl)
  where
    nothing_closed :
        (l : List Entry) → open_after server (close_publish server none l) n ≡ open_after server l n
    nothing_closed l = unfold close_publish in refl

    go :
        (r : Result Publish × List Entry)
        → Holds server n (open_after server log n) r
        → (open_after server r.1 n ≡ opened r.0 (open_after server log n))
          × (open_after server (close_publish server (made r.0) r.1) n ≡ open_after server log n)
    go (ok p, l) h = (
      open_after-Holds server n (open_after server log n) (ok p, l) h,
      unfold close_publish in open_after-close server n (open_after server log n) (ok p, l) h,
    )
    go (err e, l) h =
        let same = open_after-Holds server {A = Publish} n (open_after server log n) (err e, l) h in
        (same, nothing_closed l ∙ same)
