-- ===== src/Event.antt =====
-- event.go: events, and identifiers made of the clock and a random number.
pub mod Ids
pub mod Counts
use eventbus.Base.{
  ℕ, zero, suc, ◌+◌, ◌*◌, ◌/◌, ◌%◌, ◌^◌, ◌-◌, ◌<◌, ◌≡◌, List, [], ◌∷◌, ◌++◌, Text, arith, codes,
  ltb, if◌then◌else◌, leb,
}
use eventbus.Base.Order.{u64, u32}

-- The payload is of any type: what the program asks of it is asked through its code number.
pub record Event : Type 0 where
  pub id : Text
  pub topic : Text
  pub payload : ℕ
  pub source : Text
  pub timestamp : ℕ

-- The last `n` bytes of a number, the highest first: binary.BigEndian.PutUint64 and PutUint32.
pub big_endian : ℕ → ℕ → List ℕ
big_endian zero v = []
big_endian (suc n) v = big_endian n (v / 256) ++ (v % 256) ∷ []

pub hex_digit : ℕ → ℕ
hex_digit d = if ltb d 10 then b'0' + d else b'a' + (d - 10)

-- hex.EncodeToString.
pub hex_encode : List ℕ → Text
unfolding hex_digit
hex_encode [] = []
hex_encode (b ∷ bs) = hex_digit (b / 16) ∷ hex_digit (b % 16) ∷ hex_encode bs

-- newEventID: `now` is UnixNano as an unsigned word, `draw` what rand.Uint32 returns.
unfoldable pub new_event_id : ℕ → ℕ → Text
unfolding hex_encode big_endian
new_event_id now draw = hex_encode (big_endian 8 (u64 now) ++ big_endian 4 (u32 draw))

-- NewEvent, at a clock reading and a random number.
unfoldable pub new_event : ℕ → ℕ → Text → ℕ → Event
new_event now draw topic payload = record {
  id = new_event_id now draw;
  topic = topic;
  payload = payload;
  source = codes "local";
  timestamp = now;
}
