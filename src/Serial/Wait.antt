-- ===== src/Serial/Wait.antt =====
-- kernel/src/serial.c: the port's transmitter. What the line status register reads, one time after
-- the other, is a list; a wait that reads it to its end goes on for ever.
use tuna_os.Base.{
  ℕ, suc, ◌≡◌, refl, Bool, not, List, [], ◌∷◌, Option, none, some, ◌==◌, if◌then◌else◌, bit_and,
  bit_and_digit, bit_and-one, ◌*◌, ◌/◌, ◌%◌, arith, Bool-cases, inl, inr, take, take-nil, sym, ap,
  ◌⊎◌,
}

-- Bit 5 of the register.
abbrev pub tx_empty : (status : ℕ) → Bool
tx_empty status = not (bit_and status 32 == 0)

-- while (!tx_empty()) {}: what is left to read.
unfoldable pub wait_empty : List ℕ → Option (List ℕ)
wait_empty [] = none
wait_empty (status ∷ later) =
    let rest = wait_empty later in if tx_empty status then some later else rest

-- Calls of `serial_write_char` for the characters, in order: those that are sent.
unfoldable pub serial_write_chars : (chars statuses : List ℕ) → List ℕ
serial_write_chars [] statuses = []
serial_write_chars (c ∷ chars) statuses = elim (wait_empty statuses) [
  | none ↦ []
  | some later ↦ c ∷ serial_write_chars chars later
]

-- How many times the transmitter was found empty: a status whose bit 5 is set.
unfoldable pub count_empty : List ℕ → ℕ
count_empty [] = 0
count_empty (status ∷ later) =
    let rest = count_empty later in if status / 32 % 2 == 1 then suc rest else rest

tx_empty-bit : (status : ℕ) → tx_empty status ≡ (status / 32 % 2 == 1)
tx_empty-bit status = elim (Bool-cases (status / 32 % 2 == 1)) [
  | inl one ↦ let set : bit_and status 32 ≡ 32 = ground (arith, digit) in rw (set, one) refl
  | inr not_one ↦
      let clear : bit_and status 32 ≡ 0 = ground (arith, digit) in rw (clear, not_one) refl
]
  where
    digit : bit_and status 32 ≡ status / 32 % 2 * 32
    digit = omega (
      arith,
      bit_and_digit status 32,
      bit_and_digit (status / 2) 16,
      bit_and_digit (status / 2 / 2) 8,
      bit_and_digit (status / 2 / 2 / 2) 4,
      bit_and_digit (status / 2 / 2 / 2 / 2) 2,
      bit_and-one (status / 2 / 2 / 2 / 2 / 2),
    )

-- A wait that ends takes the first time.
wait_empty-count :
    (statuses : List ℕ)
    → ((wait_empty statuses ≡ none) × (count_empty statuses ≡ 0))
      ⊎ ((later : List ℕ) × (wait_empty statuses ≡ some later)
          × (count_empty statuses ≡ suc (count_empty later)))
unfolding wait_empty count_empty
wait_empty-count [] = inl (refl, refl)
wait_empty-count (status ∷ later) = elim (Bool-cases (tx_empty status)) [
  | inl empty ↦ inr (later, rw empty refl, rw (← tx_empty-bit status, empty) refl)
  | inr busy ↦ elim (wait_empty-count later) [
    | inl (w, c) ↦ inl (rw busy w, rw (← tx_empty-bit status, busy) c)
    | inr (rest, w, c) ↦ inr (rest, rw busy w, rw (← tx_empty-bit status, busy) c)
  ]
]

-- The characters go out in order, one for each time that the transmitter is found empty; where it
-- is found empty too few times, the last ones wait for ever.
pub serial_write_chars-take :
    (chars statuses : List ℕ)
    → serial_write_chars chars statuses ≡ take (count_empty statuses) chars
unfolding serial_write_chars
serial_write_chars-take [] statuses = sym (take-nil (count_empty statuses))
serial_write_chars-take (c ∷ chars) statuses = elim (wait_empty-count statuses) [
  | inl (w, z) ↦ rw (w, serial_write_chars, z) refl
  | inr (later, w, n) ↦
      rw (w, serial_write_chars, n)
        (ap (λ (l : List ℕ). c ∷ l) (serial_write_chars-take chars later))
]
