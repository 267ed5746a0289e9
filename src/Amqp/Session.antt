-- ===== src/Amqp/Session.antt =====
-- The requests that ext/amqp/amqpclt makes of the broker, on a channel of its connection, and the
-- errors between them. The broker is an argument: it may refuse any request with an error.
pub mod Plans
pub mod Openings
use eventbus.Base.{
  not, ◌&&◌, ◌≡◌, ℕ, ◌+◌, ◌-◌, List, [], ◌∷◌, ◌++◌, Bool, true, false, Option, none, some, Text,
}
use eventbus.Base.Order.{ℤ}
use eventbus.Errors.{Error}

-- The calls of amqp.Connection and amqp.Channel, with all their arguments but a nil table.
pub data Request : Type 0 where
  open_channel close_channel : Request
  qos : (prefetch_count prefetch_size : ℤ) → (global : Bool) → Request
  exchange_declare : (name kind : Text) → (durable auto_delete internal no_wait : Bool) → Request
  -- The last argument is x-dead-letter-exchange of the table, if it is there.
  queue_declare :
      (name : Text)
      → (durable auto_delete exclusive no_wait : Bool) → (dead_letter_exchange : Option Text)
      → Request
  queue_bind : (name key exchange : Text) → (no_wait : Bool) → Request
  consume : (queue consumer : Text) → (auto_ack exclusive no_local no_wait : Bool) → Request
  confirm : (no_wait : Bool) → Request

-- A request that was made, and whether the broker granted it.
abbrev pub Entry : Type 0
Entry = Request × Bool

-- The error, if any, with which a request is answered after those of the log; and the name of the
-- queue that queue_declare returns.
pub record Server : Type 0 where
  pub refuses : List Entry → Request → Option Error
  pub queue_name : Text → Text
  -- Whether an error of a request on a channel closes the channel.
  pub closes : Request → Bool

pub data Result {ℓ} (A : Type ℓ) : Type ℓ where
  ok : A → Result A
  err : Error → Result A

-- Code that makes requests: the log grows at its end.
abbrev pub Session {ℓ} : Type ℓ → Type ℓ
Session A = List Entry → Result A × List Entry

abbrev pub and_then {ℓ κ} :
    {A : Type ℓ} {B : Type κ} → (A → Session B) → Result A × List Entry → Result B × List Entry
and_then f (ok a, log) = f a log
and_then f (err e, log) = (err e, log)

infixl 5 ◌>>=◌ ◌>>◌
abbrev pub ◌>>=◌ {ℓ κ} : {A : Type ℓ} {B : Type κ} → Session A → (A → Session B) → Session B
◌>>=◌ m f log = and_then f (m log)

abbrev pub ◌>>◌ {ℓ κ} : {A : Type ℓ} {B : Type κ} → Session A → Session B → Session B
m >> k = m >>= λ _. k

abbrev pub return {ℓ} : {A : Type ℓ} → A → Session A
return a log = (ok a, log)

abbrev pub answered :
    Request → (Error → Error) → List Entry → Option Error → Result (Unit {0}) × List Entry
answered r explain log none = (ok tt, log ++ (r, true) ∷ [])
answered r explain log (some e) = (err (explain e), log ++ (r, false) ∷ [])

-- One call, with what the code makes of its error.
unfoldable pub request : Server → Request → (Error → Error) → Session (Unit {0})
request server r explain log = answered r explain log (server.refuses log r)

abbrev is_nil : Option Error → Bool
is_nil none = true
is_nil (some e) = false

-- The call of Close; the channel is gone whatever it returns.
unfoldable pub close_channel_now : Server → List Entry → List Entry
close_channel_now server log =
    log ++ (close_channel, is_nil (server.refuses log close_channel)) ∷ []

-- The channel is closed if the code fails.
abbrev pub or_close {ℓ} : {A : Type ℓ} → Server → Result A × List Entry → Result A × List Entry
or_close server (ok a, log) = (ok a, log)
or_close server (err e, log) = (err e, close_channel_now server log)

abbrev pub explained {ℓ} :
    {A : Type ℓ} → (Error → Error) → Result A × List Entry → Result A × List Entry
explained f (ok a, log) = (ok a, log)
explained f (err e, log) = (err (f e), log)

-- Whether the channel that was opened last is open, and the number of all open channels. Close of a
-- closed channel is no more than an error.
abbrev pub Openness : Type 0
Openness = Bool × ℕ

abbrev pub shut : Openness → Openness
shut (true, n) = (false, n - 1)
shut (false, n) = (false, n)

abbrev pub shut_if : Bool → Openness → Openness
shut_if true o = shut o
shut_if false o = o

module _ (server : Server) where
  abbrev pub entry_after : Entry → Openness → Openness
  entry_after (open_channel, true) (mine, n) = (true, n + 1)
  entry_after (open_channel, false) o = o
  entry_after (close_channel, granted) o = shut o
  entry_after (r, granted) o = shut_if (not granted && server.closes r) o

  unfoldable pub openness : List Entry → Openness → Openness
  openness [] o = o
  openness (e ∷ log) o = openness log (entry_after e o)

  -- The channels that are open after the log, if `n` were open before it.
  unfoldable pub open_after : List Entry → ℕ → ℕ
  unfolding openness
  open_after log n = (openness log (false, n)).1

-- The request neither opens nor closes a channel.
abbrev pub is_quiet : Request → Bool
is_quiet open_channel = false
is_quiet close_channel = false
is_quiet _ = true

-- What the client library documents: an error of a request on a channel closes the channel.
abbrev pub ErrorsClose : Server → Type 0
ErrorsClose server = (r : Request) → is_quiet r ≡ true → server.closes r ≡ true
