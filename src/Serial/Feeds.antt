-- ===== src/Serial/Feeds.antt =====
-- kernel/src/serial.c: the lines of what is sent.
use tuna_os.Base.{
  ℕ, zero, suc, ◌+◌, ◌/◌, ◌%◌, ◌≡◌, refl, Bool, true, false, not, ◌||◌, List, [], ◌∷◌, ◌++◌, Option,
  none, some, ◌==◌, if◌then◌else◌, arith, Bool-cases, inl, inr, ◌>>>◌, ◌*◌,
}
use tuna_os.Serial.{
  line_feed, hex_digit, hex_loop, serial_write_hex_u64, dec_loop, serial_write_dec_u64,
}

unfoldable pub count_feeds : List ℕ → ℕ
count_feeds [] = 0
count_feeds (c ∷ s) = let rest = count_feeds s in if c == line_feed then suc rest else rest

pub count_feeds-append : (s t : List ℕ) → count_feeds (s ++ t) ≡ count_feeds s + count_feeds t
unfolding count_feeds
count_feeds-append [] t = omega arith
count_feeds-append (c ∷ s) t = ground (arith, count_feeds-append s t)

digit-feed : (nibble : ℕ) → (hex_digit nibble == line_feed) ≡ false
unfolding hex_digit
digit-feed nibble = ground arith

loop-count_feeds : (n value : ℕ) (started : Bool) → count_feeds (hex_loop n value started) ≡ 0
unfolding count_feeds hex_loop
loop-count_feeds zero value started = refl
loop-count_feeds (suc n) value started =
    elim (Bool-cases (not ((value >>> (4 * n)) % 16 == 0) || (started || n == 0))) [
      | inl sent ↦ rw (sent, digit-feed ((value >>> (4 * n)) % 16)) (loop-count_feeds n value true)
      | inr skipped ↦ rw skipped (loop-count_feeds n value started)
    ]

-- Numbers have no line feeds.
pub hex-count_feeds : (value : ℕ) → count_feeds (serial_write_hex_u64 value) ≡ 0
unfolding count_feeds serial_write_hex_u64
hex-count_feeds value = loop-count_feeds 16 value false

same_list : (s t : List ℕ) → ◌≡◌ {A = Option (List ℕ)} (some s) (some t) → s ≡ t
same_list s t e = cc

dec_loop-count_feeds :
    (room value : ℕ) (buf out : List ℕ)
    → dec_loop room value buf ≡ some out
    → count_feeds buf ≡ 0
    → count_feeds out ≡ 0
unfolding dec_loop count_feeds
dec_loop-count_feeds zero value buf out run h = elim (Bool-cases (value == 0)) [
  | inl z ↦ let e : buf ≡ out = same_list buf out (rw z at run) in rw (← e) h
  | inr n ↦ let clash : ◌≡◌ {A = Option (List ℕ)} none (some out) = rw n at run in cc
]
dec_loop-count_feeds (suc room) value buf out run h = elim (Bool-cases (value == 0)) [
  | inl z ↦ let e : buf ≡ out = same_list buf out (rw z at run) in rw (← e) h
  | inr n ↦
      let digit : (48 + value % 10 == line_feed) ≡ false = ground arith in
      dec_loop-count_feeds room (value / 10) ((48 + value % 10) ∷ buf) out (rw n at run)
        (rw digit h)
]

pub dec-count_feeds :
    (value : ℕ) (out : List ℕ) → serial_write_dec_u64 value ≡ some out → count_feeds out ≡ 0
unfolding serial_write_dec_u64 count_feeds
dec-count_feeds value out run = elim (Bool-cases (value == 0)) [
  | inl z ↦ let e : 48 ∷ [] ≡ out = same_list (48 ∷ []) out (rw z at run) in rw (← e) refl
  | inr n ↦ dec_loop-count_feeds 21 value [] out (rw n at run) refl
]
