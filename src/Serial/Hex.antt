-- ===== src/Serial/Hex.antt =====
-- kernel/src/serial.c: the hexadecimal digits that are sent.
use tuna_os.Base.{
  ℕ, zero, suc, ◌+◌, ◌-◌, ◌*◌, ◌/◌, ◌%◌, ◌^◌, ◌<◌, ◌≤◌, ◌≡◌, refl, true, false, not, ◌||◌, List, [],
  ◌∷◌, length, ltb, ◌==◌, if◌then◌else◌, arith, ◌>>>◌, Bool-cases, inl, inr, ◌∙◌, sym, ap,
}
use native.Mathlib.Nat.{div-div-eq-div-mul, pow-suc}
use tuna_os.Serial.{hex_digit, hex_loop, serial_write_hex_u64}

-- The value of a digit, and the number that digits stand for, after `n`.
abbrev pub digit_value : ℕ → ℕ
digit_value c = if ltb c 58 then c - 48 else c - 55

unfoldable pub read_hex : ℕ → List ℕ → ℕ
read_hex n [] = n
read_hex n (c ∷ cs) = read_hex (n * 16 + digit_value c) cs

digit_value-hex_digit : (nibble : ℕ) → nibble < 16 → digit_value (hex_digit nibble) ≡ nibble
unfolding hex_digit
digit_value-hex_digit nibble h = ground arith

pow_four : (k : ℕ) → 2 ^ (k + 4) ≡ 2 ^ k * 16
pow_four k =
    let e : k + 4 ≡ suc (suc (suc (suc k))) = omega arith in
    rw e (
      omega (
        arith,
        pow-suc 2 k,
        pow-suc 2 (suc k),
        pow-suc 2 (suc (suc k)),
        pow-suc 2 (suc (suc (suc k))),
      ))

-- The digits above the next one.
above-next : (n value : ℕ) → value >>> (4 * suc n) ≡ (value >>> (4 * n)) / 16
above-next n value =
    let four : 4 * suc n ≡ 4 * n + 4 = omega arith in
    let split : 2 ^ (4 * n + 4) ≡ 2 ^ (4 * n) * 16 = pow_four (4 * n) in
    rw (four, split) (sym (div-div-eq-div-mul value (2 ^ (4 * n)) 16))

-- With the digit sent, those above the one after it.
next-digit :
    (n value : ℕ)
    → (value >>> (4 * suc n)) * 16 + digit_value (hex_digit ((value >>> (4 * n)) % 16))
      ≡ value >>> (4 * n)
next-digit n value =
    let above = above-next n value in
    let digit = digit_value-hex_digit ((value >>> (4 * n)) % 16) (omega arith) in
    rw (above, digit) (omega arith)

whole : (value : ℕ) → value >>> (4 * 0) ≡ value
whole value = omega arith

started_lem :
    (n value : ℕ)
    → (read_hex (value >>> (4 * n)) (hex_loop n value true) ≡ value)
      × (length (hex_loop n value true) ≡ n)
unfolding hex_loop read_hex
started_lem zero value = (whole value, refl)
started_lem (suc n) value = elim (Bool-cases ((value >>> (4 * n)) % 16 == 0)) [
  | inl z ↦ let (r, l) = started_lem n value in rw (z, next-digit n value) (r, omega (arith, l))
  | inr d ↦ let (r, l) = started_lem n value in rw (d, next-digit n value) (r, omega (arith, l))
]

-- Before the first digit, where all above are zero: a digit that is sent.
sent :
    (n value : ℕ)
    → value >>> (4 * suc n) ≡ 0
    → (not ((value >>> (4 * n)) % 16 == 0) || (n == 0)) ≡ true
    → (read_hex 0 (hex_loop (suc n) value false) ≡ value)
      × (length (hex_loop (suc n) value false) ≡ suc n)
unfolding hex_loop read_hex
sent n value h here =
    let (r, l) = started_lem n value in
    let e : 0 + digit_value (hex_digit ((value >>> (4 * n)) % 16)) ≡ value >>> (4 * n) =
      rw h at (next-digit n value) in
    rw here (ap (λ (m : ℕ). read_hex m (hex_loop n value true)) e ∙ r, omega (arith, l))

skipped :
    (n value : ℕ)
    → ((value >>> (4 * suc n)) % 16 == 0) ≡ true
    → hex_loop (suc (suc n)) value false ≡ hex_loop (suc n) value false
unfolding hex_loop
skipped n value z = let more : (suc n == 0) ≡ false = ground arith in rw (z, more) refl

unstarted_lem :
    (n value : ℕ)
    → value >>> (4 * suc n) ≡ 0
    → (read_hex 0 (hex_loop (suc n) value false) ≡ value)
      × (1 ≤ length (hex_loop (suc n) value false))
      × (length (hex_loop (suc n) value false) ≤ suc n)
unstarted_lem zero value h =
    let (r, l) = sent 0 value h (ground arith) in (r, omega (arith, l), omega (arith, l))
unstarted_lem (suc n) value h = elim (Bool-cases ((value >>> (4 * suc n)) % 16 == 0)) [
  | inr digit ↦
      let (r, l) = sent (suc n) value h (ground arith) in (r, omega (arith, l), omega (arith, l))
  | inl z ↦
      let above = above-next (suc n) value in
      let nothing : value >>> (4 * suc n) ≡ 0 = ground arith in
      let (r, some', few) = unstarted_lem n value nothing in
      rw (skipped n value z) (r, some', omega (arith, few))
]

-- `serial_write_hex_u64` of a 64-bit number sends "0x" and from one to sixteen digits, which stand
-- for the number.
pub serial_write_hex_u64_lem :
    (value : ℕ)
    → value < 2 ^ 64
    → (out : List ℕ) × (serial_write_hex_u64 value ≡ 48 ∷ 120 ∷ out)
      × (read_hex 0 out ≡ value)
      × (1 ≤ length out)
      × (length out ≤ 16)
unfolding serial_write_hex_u64
serial_write_hex_u64_lem value h =
    let (r, some', few) = unstarted_lem 15 value (omega arith) in
    (hex_loop 16 value false, refl, r, some', few)
