-- ===== src/Amqp/Session/Openings.antt =====
-- How many channels are open after the requests of a log.
use mathlib.Core.Path.{subst}
use eventbus.Base.{
  ℕ, ◌+◌, List, [], ◌∷◌, ◌++◌, ◌≡◌, refl, ap, ◌∙◌, Bool, true, false, Option, none, some, arith,
  all, not, ◌&&◌, ◌⊎◌, inl, inr, sym,
}
use eventbus.Errors.{Error}
use eventbus.Amqp.Session.{
  Request, open_channel, close_channel, qos, exchange_declare, queue_declare, queue_bind, consume,
  confirm, Entry, Server, Result, ok, err, request, answered, Session, or_close, and_then, ◌>>◌,
  Openness, openness, entry_after, shut, shut_if, open_after, close_channel_now, is_quiet,
  ErrorsClose,
}
use eventbus.Amqp.Session.Plans.{Planned, run_plan, answer, then_on, outcome, Follows}

abbrev pub opened {ℓ} : {A : Type ℓ} → Result A → ℕ → ℕ
opened (ok a) n = n + 1
opened (err e) n = n

-- A channel of one's own, or those that were there.
abbrev pub with_channel {ℓ} : {A : Type ℓ} → Result A → Openness → Openness
with_channel (ok a) (mine, n) = (true, n + 1)
with_channel (err e) o = o

module _ (server : Server) where
  pub openness-append :
      (log more : List Entry) (o : Openness)
      → openness server (log ++ more) o ≡ openness server more (openness server log o)
  unfolding openness
  openness-append [] more o = refl
  openness-append (e ∷ log) more o = openness-append log more (entry_after server e o)

  openness-quiet :
      (r : Request) (g : Bool) (log : List Entry) (o : Openness)
      → is_quiet r ≡ true
      → openness server (log ++ (r, g) ∷ []) o
        ≡ shut_if (not g && server.closes r) (openness server log o)
  openness-quiet r g log o h = openness-append log ((r, g) ∷ []) o ∙ one r h
    where
      one :
          (r : Request)
          → is_quiet r ≡ true
          → openness server ((r, g) ∷ []) (openness server log o)
            ≡ shut_if (not g && server.closes r) (openness server log o)
      one open_channel h = absurd (ground arith)
      one close_channel h = absurd (ground arith)
      one (qos a b c) h = unfold openness in refl
      one (exchange_declare a b c d e f) h = unfold openness in refl
      one (queue_declare a b c d e f) h = unfold openness in refl
      one (queue_bind a b c d) h = unfold openness in refl
      one (consume a b c d e f) h = unfold openness in refl
      one (confirm a) h = unfold openness in refl

  -- Some error leaves its channel open.
  abbrev pub IsLenient : Type 0
  IsLenient = (r : Request) × (is_quiet r ≡ true) × (server.closes r ≡ false)

  pub closes-IsLenient : ErrorsClose server → IsLenient → ⊥
  closes-IsLenient close (r, quiet, stays) = clash (sym (close r quiet) ∙ stays)
    where
      clash : true ≡ false → ⊥
      clash e = cc

  -- Without an error the channels are as before; an error closes one's own, or is of a kind that does
  -- not.
  abbrev pub Left : Option Error → Openness → Openness → Type 0
  Left none o o' = o' ≡ o
  Left (some e) o o' = (o' ≡ shut o) ⊎ ((o' ≡ o) × IsLenient)

  after_error :
      (r : Request) (b : Bool) (o o' : Openness) (e : Error)
      → is_quiet r ≡ true
      → server.closes r ≡ b
      → o' ≡ shut_if b o
      → Left (some e) o o'
  after_error r true o o' e q c h = inl h
  after_error r false o o' e q c h = inr (h, (r, q, c))

  pub openness-run_plan :
      (plan : List Planned) (log : List Entry) (o : Openness)
      → all (λ p. is_quiet p.0) plan ≡ true
      → Left
          (run_plan server plan log).0
          (openness server log o)
          (openness server (run_plan server plan log).1 o)
  unfolding run_plan
  openness-run_plan [] log o h = refl
  openness-run_plan (p ∷ plan) log o h =
      go (server.refuses log p.0) (λ l. openness-run_plan plan l o (ground arith))
    where
      quiet : is_quiet p.0 ≡ true
      quiet = ground arith

      LeftBy : List Entry → Option Error × List Entry → Type 0
      LeftBy l r = Left r.0 (openness server l o) (openness server r.1 o)

      go :
          (a : Option Error)
          → ((l : List Entry) → LeftBy l (run_plan server plan l))
          → LeftBy log (then_on (run_plan server plan) (answer server p log a))
      go none ih =
          let l = log ++ (p.0, true) ∷ [] in
          subst
            (λ x. Left (run_plan server plan l).0 x (openness server (run_plan server plan l).1 o))
            (openness-quiet p.0 true log o quiet) (ih l)
      go (some e) ih =
          after_error p.0 (server.closes p.0) (openness server log o)
            (openness server (log ++ (p.0, false) ∷ []) o) (p.1 e) quiet refl
            (openness-quiet p.0 false log o quiet)

  -- A channel more, if the request for one is granted.
  pub openness-open :
      (explain : Error → Error) (log : List Entry) (o : Openness)
      → openness server (request server open_channel explain log).1 o
        ≡ with_channel (request server open_channel explain log).0 (openness server log o)
  unfolding request
  openness-open explain log o = go (server.refuses log open_channel)
    where
      go :
          (a : Option Error)
          → openness server (answered open_channel explain log a).1 o
            ≡ with_channel (answered open_channel explain log a).0 (openness server log o)
      go none = openness-append log ((open_channel, true) ∷ []) o ∙ unfold openness in refl
      go (some e) = openness-append log ((open_channel, false) ∷ []) o ∙ unfold openness in refl

  pub openness-close :
      (log : List Entry) (o : Openness)
      → openness server (close_channel_now server log) o ≡ shut (openness server log o)
  unfolding close_channel_now
  openness-close log o = openness-append log _ o ∙ unfold openness in refl

  -- Code that began with `before` channels open, and `n` at the start of the log, has one more, its
  -- own, exactly if it succeeds.
  abbrev pub Holds {ℓ} : {A : Type ℓ} → ℕ → ℕ → Result A × List Entry → Type 0
  Holds n before (ok a, log) = openness server log (false, n) ≡ (true, before + 1)
  Holds n before (err e, log) = (openness server log (false, n)).1 ≡ before

  -- Code that was given its channel open: if it fails the channel is closed, unless an error is of a
  -- kind that leaves it open.
  abbrev pub Owns {ℓ} : {A : Type ℓ} → ℕ → ℕ → Result A × List Entry → Type 0
  Owns n before (ok a, log) = openness server log (false, n) ≡ (true, before + 1)
  Owns n before (err e, log) =
      (openness server log (false, n) ≡ (false, before))
      ⊎ ((openness server log (false, n) ≡ (true, before + 1)) × IsLenient)

  pub Owns-Holds {ℓ} :
      {A : Type ℓ} (n before : ℕ) (r : Result A × List Entry)
      → ErrorsClose server
      → Owns n before r
      → Holds n before r
  Owns-Holds n before (ok a, log) close h = h
  Owns-Holds n before (err e, log) close (inl h) = ap (λ (o : Openness). o.1) h
  Owns-Holds n before (err e, log) close (inr h) = absurd (closes-IsLenient close h.1)

  pub open_after-Holds {ℓ} :
      {A : Type ℓ} (n before : ℕ) (r : Result A × List Entry)
      → Holds n before r
      → open_after server r.1 n ≡ opened r.0 before
  unfolding open_after
  open_after-Holds n before (ok a, log) h = ap (λ (o : Openness). o.1) h
  open_after-Holds n before (err e, log) h = h

  -- The channel is given back, whether it is open still or not.
  pub close-Owns {ℓ} :
      {A : Type ℓ} (n before : ℕ) (r : Result A × List Entry)
      → Owns n before r
      → openness server (close_channel_now server r.1) (false, n) ≡ (false, before)
  close-Owns n before (ok a, log) h =
      openness-close log (false, n) ∙ ap shut h ∙ ap (λ (i : ℕ). (false, i)) (omega arith)
  close-Owns n before (err e, log) (inl h) = openness-close log (false, n) ∙ ap shut h
  close-Owns n before (err e, log) (inr h) =
      openness-close log (false, n) ∙ ap shut h.0 ∙ ap (λ (i : ℕ). (false, i)) (omega arith)

  pub open_after-close {ℓ} :
      {A : Type ℓ} (n before : ℕ) (r : Result A × List Entry)
      → Owns n before r
      → open_after server (close_channel_now server r.1) n ≡ before
  unfolding open_after
  open_after-close n before r h = ap (λ (o : Openness). o.1) (close-Owns n before r h)

  -- Code that follows a plan on the channel that was opened before it.
  pub on_channel-Owns {ℓ} :
      {A : Type ℓ} (plan : List Planned) (m : Session A) (a : A) (log : List Entry) (n before : ℕ)
      → Follows server plan m a
      → all (λ p. is_quiet p.0) plan ≡ true
      → openness server log (false, n) ≡ (true, before + 1)
      → Owns n before (m log)
  on_channel-Owns plan m a log n before follows quiet h =
      rw (follows log) (go (run_plan server plan log) (openness-run_plan plan log (false, n) quiet))
    where
      go :
          (r : Option Error × List Entry)
          → Left r.0 (openness server log (false, n)) (openness server r.1 (false, n))
          → Owns n before (outcome a r)
      go (none, l) k = k ∙ h
      go (some e, l) (inl k) = inl (k ∙ ap shut h ∙ ap (λ (i : ℕ). (false, i)) (omega arith))
      go (some e, l) (inr k) = inr (k.0 ∙ h, k.1)

  or_close-Owns {ℓ} :
      {A : Type ℓ} (n before : ℕ) (r : Result A × List Entry)
      → Owns n before r
      → Holds n before (or_close server r)
  or_close-Owns n before (ok a, l) h = h
  or_close-Owns {A} n before (err e, l) h =
      ap (λ (o : Openness). o.1) (close-Owns {A = A} n before (err e, l) h)

  -- Code that opens a channel, and closes it if one of the plan's requests is refused.
  pub or_close-Holds {ℓ} :
      {A : Type ℓ} (explain : Error → Error) (plan : List Planned) (m : Session A) (a : A)
      → (log : List Entry) (n : ℕ) → Follows server plan m a
      → all (λ p. is_quiet p.0) plan ≡ true
      → Holds n
          (open_after server log n)
          ((request server open_channel explain >> λ l. or_close server (m l)) log)
  unfolding open_after
  or_close-Holds explain plan m a log n follows quiet =
      go (request server open_channel explain log) (openness-open explain log (false, n))
    where
      go :
          (r : Result (Unit {0}) × List Entry)
          → openness server r.1 (false, n) ≡ with_channel r.0 (openness server log (false, n))
          → Holds n (open_after server log n) (and_then (λ _. λ l. or_close server (m l)) r)
      go (ok u, l) h = or_close-Owns n _ (m l) (on_channel-Owns plan m a l n _ follows quiet h)
      go (err e, l) h = ap (λ (o : Openness). o.1) h
