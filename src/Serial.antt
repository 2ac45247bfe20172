-- ===== src/Serial.antt =====
-- kernel/src/serial.c: the characters that the serial line's functions send, in order.
pub mod Hex
pub mod Wait
pub mod Feeds
pub mod Tests
use tuna_os.Base.{
  ℕ, zero, suc, ◌+◌, ◌-◌, ◌*◌, ◌/◌, ◌%◌, ◌^◌, ◌≤◌, ◌<◌, ◌≡◌, ◌≢◌, refl, Bool, true, false, not,
  ◌&&◌, ◌||◌, Option, none, some, List, [], ◌∷◌, ◌++◌, ltb, ◌==◌, if◌then◌else◌, arith, length,
  ◌>>>◌, Bool-cases, inl, inr, ==_iff, ◌∙◌,
}

abbrev pub line_feed : ℕ
line_feed = 10

abbrev pub carriage_return : ℕ
carriage_return = 13

-- A carriage return goes before each line feed.
unfoldable pub serial_write : List ℕ → List ℕ
serial_write [] = []
serial_write (c ∷ s) =
    let rest = serial_write s in if c == line_feed then carriage_return ∷ c ∷ rest else c ∷ rest

-- `hex[nibble]`.
pub hex_digit : ℕ → ℕ
hex_digit nibble = if ltb nibble 10 then 48 + nibble else 55 + nibble

-- for (shift = 60; shift >= 0; shift -= 4), with `n` rounds left: the shift is 4 (n - 1).
unfoldable pub hex_loop : ℕ → (value : ℕ) → Bool → List ℕ
hex_loop zero value started = []
hex_loop (suc n) value started =
    let nibble = (value >>> (4 * n)) % 16 in
    let later = hex_loop n value true in
    let skipped = hex_loop n value started in
    if not (nibble == 0) || (started || n == 0) then hex_digit nibble ∷ later else skipped

pub serial_write_hex_u64 : ℕ → List ℕ
serial_write_hex_u64 value = 48 ∷ 120 ∷ hex_loop 16 value false

-- while (value > 0), with `room` bytes of `buf` left, the last one written first; `none` is a
-- write behind the buffer.
unfoldable pub dec_loop : (room value : ℕ) → List ℕ → Option (List ℕ)
dec_loop zero value buf = if value == 0 then some buf else none
dec_loop (suc room) value buf =
    let rest = dec_loop room (value / 10) ((48 + value % 10) ∷ buf) in
    if value == 0 then some buf else rest

-- The second loop sends the buffer from its end.
unfoldable pub serial_write_dec_u64 : ℕ → Option (List ℕ)
serial_write_dec_u64 value = if value == 0 then some (48 ∷ []) else dec_loop 21 value []

-- The number that decimal digits stand for, after `n`.
unfoldable pub read_dec : ℕ → List ℕ → ℕ
read_dec n [] = n
read_dec n (c ∷ cs) = read_dec (n * 10 + (c - 48)) cs

abbrev FitsDigits : ℕ → ℕ → Type 0
FitsDigits zero value = value ≡ 0
FitsDigits (suc n) value = FitsDigits n (value / 10)

dec_loop-zero : (room : ℕ) (buf : List ℕ) → dec_loop room 0 buf ≡ some buf
unfolding dec_loop
dec_loop-zero zero buf = refl
dec_loop-zero (suc room) buf = refl

dec_loop-step :
    (room value : ℕ) (buf : List ℕ)
    → value ≢ 0
    → dec_loop (suc room) value buf ≡ dec_loop room (value / 10) ((48 + value % 10) ∷ buf)
unfolding dec_loop
dec_loop-step room value buf ne =
    let nonzero : (value == 0) ≡ false = ground (arith, ne) in rw nonzero refl

read_dec-digit :
    (value : ℕ) (buf : List ℕ)
    → read_dec (value / 10) ((48 + value % 10) ∷ buf) ≡ read_dec value buf
unfolding read_dec
read_dec-digit value buf =
    let back : value / 10 * 10 + (48 + value % 10 - 48) ≡ value = omega arith in rw back

-- With room for the digits of `value` the loop ends within the buffer.
dec_loop_lem :
    (room value : ℕ) (buf : List ℕ)
    → FitsDigits room value
    → (out : List ℕ) × (dec_loop room value buf ≡ some out)
      × (read_dec 0 out ≡ read_dec value buf)
      × (length out ≤ room + length buf)
dec_loop_lem zero value buf h = (buf, rw h (dec_loop-zero 0 buf), rw h, omega arith)
dec_loop_lem (suc room) value buf h = elim (Bool-cases (value == 0)) [
  | inl z ↦
      let e = (==_iff value 0).0 z in (buf, rw e (dec_loop-zero (suc room) buf), rw e, omega arith)
  | inr n ↦
      let (out, r, e, l) = dec_loop_lem room (value / 10) ((48 + value % 10) ∷ buf) h in
      (
        out,
        dec_loop-step room value buf (λ z. let clash = rw z at n in cc) ∙ r,
        e ∙ read_dec-digit value buf,
        omega (arith, l),
      )
]

-- Sixty-four bits have at most 21 digits, in steps of seven.
seven_digits : (value : ℕ) → value / 10 / 10 / 10 / 10 / 10 / 10 / 10 ≡ value / 10000000
seven_digits value = omega arith

fits_buffer : (value : ℕ) → value < 2 ^ 64 → FitsDigits 21 value
fits_buffer value h =
    rw
      (
        seven_digits value,
        seven_digits (value / 10000000),
        seven_digits (value / 10000000 / 10000000),
      )
      (omega arith)

-- `serial_write_dec_u64` of a 64-bit number stays within its buffer of 21 characters, and sends
-- decimal digits that stand for the number.
pub serial_write_dec_u64_lem :
    (value : ℕ)
    → value < 2 ^ 64
    → (out : List ℕ) × (serial_write_dec_u64 value ≡ some out) × (read_dec 0 out ≡ value)
unfolding serial_write_dec_u64 read_dec
serial_write_dec_u64_lem value h = elim (Bool-cases (value == 0)) [
  | inl z ↦ let e = (==_iff value 0).0 z in (48 ∷ [], rw e refl, rw e refl)
  | inr n ↦ let (out, r, e, l) = dec_loop_lem 21 value [] (fits_buffer value h) in (out, rw n r, e)
]

-- The carriage returns are taken out again.
unfoldable pub drop_returns : List ℕ → List ℕ
drop_returns [] = []
drop_returns (c ∷ s) = let rest = drop_returns s in if c == carriage_return then rest else c ∷ rest

abbrev pub NoReturns : List ℕ → Type 0
NoReturns [] = Unit {0}
NoReturns (c ∷ s) = (c ≢ carriage_return) × NoReturns s

-- Each line feed follows a carriage return, after the character `before`.
abbrev pub IsPaired : (before : ℕ) → List ℕ → Type 0
IsPaired before [] = Unit {0}
IsPaired before (c ∷ s) = (c ≡ line_feed → before ≡ carriage_return) × IsPaired c s

-- What `serial_write` sends of a string without carriage returns has a carriage return before
-- each line feed; with the carriage returns taken out it is the string.
pub serial_write_lem :
    (before : ℕ) (s : List ℕ)
    → NoReturns s
    → IsPaired before (serial_write s) × (drop_returns (serial_write s) ≡ s)
unfolding drop_returns serial_write
serial_write_lem before [] h = (tt, refl)
serial_write_lem before (c ∷ s) h =
    let (paired, rest) = serial_write_lem c s h.1 in
    let kept : (c == carriage_return) ≡ false = ground (arith, h.0) in
    elim (Bool-cases (c == line_feed)) [
      | inl e ↦ rw (e, kept, rest) ((λ clash. absurd (omega arith), ((λ _. refl), paired)), refl)
      | inr n ↦
          let other : c ≢ line_feed = ground (arith, n) in
          rw (n, kept, rest) ((λ e. absurd (other e), paired), refl)
    ]

-- The bytes that `serial_init` writes, each after its port.
abbrev pub serial_init : List (ℕ × ℕ)
serial_init =
    (0x3f9, 0x00)
    ∷ (0x3fb, 0x80)
    ∷ (0x3f8, 0x03)
    ∷ (0x3f9, 0x00)
    ∷ (0x3fb, 0x03)
    ∷ (0x3fa, 0xc7)
    ∷ (0x3fc, 0x0b)
    ∷ []
