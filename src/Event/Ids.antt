-- ===== src/Event/Ids.antt =====
-- What an identifier of newEventID holds.
use native.Mathlib.Nat.{pow-suc}
use mathlib.Core.Path.{ap₂}
use eventbus.Base.{
  ℕ, zero, suc, ◌+◌, ◌*◌, ◌/◌, ◌%◌, ◌^◌, ◌-◌, ◌<◌, ◌≡◌, refl, List, [], ◌∷◌, ◌++◌, Text, arith,
  length, length-append, All, ltb, if◌then◌else◌, ◌↔◌, ap, sym, ◌∙◌, All-append,
}
use eventbus.Base.Order.{u64, u32}
use eventbus.Event.{big_endian, hex_digit, hex_encode, new_event_id}

length-big_endian : (n v : ℕ) → length (big_endian n v) ≡ n
unfolding big_endian
length-big_endian zero v = refl
length-big_endian (suc n) v =
    omega (
      arith,
      length-append (big_endian n (v / 256)) ((v % 256) ∷ []),
      length-big_endian n (v / 256),
    )

length-hex_encode : (bs : List ℕ) → length (hex_encode bs) ≡ 2 * length bs
unfolding hex_encode
length-hex_encode [] = refl
length-hex_encode (b ∷ bs) = omega (arith, length-hex_encode bs)

-- The number that bytes stand for, the highest first.
number_from : ℕ → List ℕ → ℕ
number_from acc [] = acc
number_from acc (b ∷ bs) = number_from (acc * 256 + b) bs

digit_value : ℕ → ℕ
digit_value c = if ltb c b'a' then c - b'0' else c - b'a' + 10

-- The inverse of the encoding.
hex_decode : Text → List ℕ
unfolding digit_value
hex_decode [] = []
hex_decode (c ∷ []) = []
hex_decode (c ∷ d ∷ s) = (digit_value c * 16 + digit_value d) ∷ hex_decode s

abbrev IsBytes : List ℕ → Type 0
IsBytes = All (λ b. b < 256)

digit_value-hex_digit : (d : ℕ) → d < 16 → digit_value (hex_digit d) ≡ d
unfolding digit_value hex_digit
digit_value-hex_digit d h = ground arith

hex_decode-hex_encode : (bs : List ℕ) → IsBytes bs → hex_decode (hex_encode bs) ≡ bs
unfolding hex_decode hex_encode
hex_decode-hex_encode [] h = refl
hex_decode-hex_encode (b ∷ bs) h = ground (
  arith,
  digit_value-hex_digit (b / 16),
  digit_value-hex_digit (b % 16),
  hex_decode-hex_encode bs,
)

big_endian-IsBytes : (n v : ℕ) → IsBytes (big_endian n v)
unfolding big_endian
big_endian-IsBytes zero v = tt
big_endian-IsBytes (suc n) v =
    All-append (λ b. b < 256) (big_endian n (v / 256)) _ (big_endian-IsBytes n (v / 256))
      (omega arith)

number_from-append :
    (acc : ℕ) (bs cs : List ℕ) → number_from acc (bs ++ cs) ≡ number_from (number_from acc bs) cs
unfolding number_from
number_from-append acc [] cs = refl
number_from-append acc (b ∷ bs) cs = number_from-append (acc * 256 + b) bs cs

-- The bytes give the number back, behind whatever number stands before them.
number_from-big_endian :
    (n acc v : ℕ) → v < 256 ^ n → number_from acc (big_endian n v) ≡ acc * 256 ^ n + v
unfolding number_from big_endian
number_from-big_endian zero acc v h = omega arith
number_from-big_endian (suc n) acc v h =
    number_from-append acc (big_endian n (v / 256)) ((v % 256) ∷ [])
    ∙ rw (pow-suc 256 n)
        (omega (arith, number_from-big_endian n acc (v / 256) (omega (arith, pow-suc 256 n))))

-- The number that an identifier spells.
id_number : Text → ℕ
id_number id = number_from 0 (hex_decode id)

id_number_lem : (now draw : ℕ) → id_number (new_event_id now draw) ≡ u64 now * 2 ^ 32 + u32 draw
unfolding id_number new_event_id
id_number_lem now draw =
    ap (number_from 0) (
      hex_decode-hex_encode _ (
        All-append (λ b. b < 256) (big_endian 8 (u64 now)) (big_endian 4 (u32 draw))
          (big_endian-IsBytes 8 (u64 now)) (big_endian-IsBytes 4 (u32 draw))))
    ∙ number_from-append 0 (big_endian 8 (u64 now)) (big_endian 4 (u32 draw))
    ∙ number_from-big_endian 4 _ (u32 draw) (omega arith)
    ∙ omega (arith, number_from-big_endian 8 0 (u64 now) (omega arith))

-- An identifier has 24 characters, and the clock and the random number can be read back from it, as
-- far as their words of 64 and 32 bits go: two identifiers are equal exactly if both words are.
pub new_event_id_lem :
    (now draw now' draw' : ℕ)
    → (length (new_event_id now draw) ≡ 24)
      × ((new_event_id now draw ≡ new_event_id now' draw')
          ↔ ((u64 now ≡ u64 now') × (u32 draw ≡ u32 draw')))
unfolding new_event_id
new_event_id_lem now draw now' draw' = (
  length-hex_encode (big_endian 8 (u64 now) ++ big_endian 4 (u32 draw))
      ∙ omega (
        arith,
        length-append (big_endian 8 (u64 now)) (big_endian 4 (u32 draw)),
        length-big_endian 8 (u64 now),
        length-big_endian 4 (u32 draw),
      ),
  (
    λ e.
        let numbers : u64 now * 2 ^ 32 + u32 draw ≡ u64 now' * 2 ^ 32 + u32 draw' =
          sym (id_number_lem now draw) ∙ ap id_number e ∙ id_number_lem now' draw' in
        (omega arith, omega arith),
    λ h. ap₂ (λ (t d : ℕ). hex_encode (big_endian 8 t ++ big_endian 4 d)) h.0 h.1,
  ),
)
