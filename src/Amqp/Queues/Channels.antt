-- ===== src/Amqp/Queues/Channels.antt =====
-- SubscribeRaw and its clean-up leave no channel open.
use eventbus.Base.{
  ℕ, List, [], ◌≡◌, refl, ap, ◌∙◌, inl, inr, true, false, Text, codes, text_eq, Bool-cases, all,
}
use eventbus.Amqp.Session.{
  Entry, Server, Result, ok, err, Openness, openness, open_after, is_quiet, ErrorsClose,
}
use eventbus.Amqp.Session.Openings.{
  opened, with_channel, open_after-close, Owns, Owns-Holds, open_after-Holds, on_channel-Owns,
  openness-open,
}
use eventbus.Amqp.Queues.{
  Subscribe, is_blank, full_queue_name, cannot, set_up, subscribe_raw, after_opening, CleanUp,
  does_nothing, closes_channel, clean_up, with_clean_up,
}
use eventbus.Amqp.Queues.Raw.{channel_plan, set_up-Follows}

channel_plan-quiet : (s : Subscribe) (q : Text) → all (λ p. is_quiet p.0) (channel_plan s q) ≡ true
channel_plan-quiet s q = elim (Bool-cases (text_eq s.dlx [])) [ inl p ↦ rw p | inr p ↦ rw p ]

pub nothing_cleaned :
    (server : Server) (log : List Entry) (n : ℕ)
    → open_after server (clean_up server does_nothing log) n ≡ open_after server log n
unfolding clean_up
nothing_cleaned server log n = refl

-- The clean-up closes the channel that the code owns, and does no harm if that is closed already.
pub clean_up-Owns {ℓ} :
    {A : Type ℓ} (server : Server) (n before : ℕ) (r : Result A × List Entry)
    → Owns server n before r
    → open_after server (clean_up server closes_channel r.1) n ≡ before
unfolding clean_up
clean_up-Owns server n before r h = open_after-close server n before r h

-- Whatever the broker refuses, the clean-up that SubscribeRaw returns leaves as many channels open as
-- there were before the call; and until it is called, one more is open exactly if there was no error.
-- Hypothesis: an error of a request on a channel closes the channel.
pub clean_up-subscribe_raw :
    (server : Server) (s : Subscribe) (log : List Entry) (n : ℕ)
    → ErrorsClose server
    → (open_after server
          (clean_up server (subscribe_raw server s log).0 (subscribe_raw server s log).2)
          n
        ≡ open_after server log n)
      × (open_after server (subscribe_raw server s log).2 n
          ≡ opened (subscribe_raw server s log).1 (open_after server log n))
unfolding subscribe_raw
clean_up-subscribe_raw server s log n close = elim (Bool-cases (is_blank s.queue)) [
  | inl p ↦ rw p (nothing_cleaned server log n, refl)
  | inr p ↦ rw p (go _ (openness-open server (cannot (codes "allocate channel")) log (false, n)))
]
  where
    Balanced : CleanUp × Result Text × List Entry → Type 0
    Balanced (c, r, l) =
        (open_after server (clean_up server c l) n ≡ open_after server log n)
        × (open_after server l n ≡ opened r (open_after server log n))

    owned :
        (r : Result Text × List Entry)
        → Owns server n (open_after server log n) r
        → Balanced (with_clean_up r)
    owned r h = (
      clean_up-Owns server n (open_after server log n) r h,
      open_after-Holds server n (open_after server log n) r (Owns-Holds server n _ r close h),
    )

    go :
        (r : Result (Unit {0}) × List Entry)
        → openness server r.1 (false, n) ≡ with_channel r.0 (openness server log (false, n))
        → Balanced (after_opening server s r)
    go (ok _, l) h =
        let q = server.queue_name (full_queue_name s) in
        owned (set_up server s l) (
          on_channel-Owns server (channel_plan s q) (set_up server s) q l n
            (open_after server log n) (set_up-Follows server s) (channel_plan-quiet s q)
            (h ∙ unfold open_after in refl))
    go (err e, l) h =
        let same : open_after server l n ≡ open_after server log n =
          unfold open_after in ap (λ (o : Openness). o.1) h in
        (nothing_cleaned server l n ∙ same, same)
