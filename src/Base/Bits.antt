-- ===== src/Base/Bits.antt =====
-- `|` and `&` at variables, from the binary digits that the native operations stand for.
use Prim.Native.Nat.{
  ℕ, zero, suc, ◌+◌, ◌*◌, ◌/◌, ◌%◌, ◌≤◌, ◌<◌, min, max, bit_and, bit_or, digits, bit_and-bitwise,
  bit_or-bitwise,
}
use mathlib.Core.Path.{◌≡◌, refl, ◌∙◌}
use native.Mathlib.Omega.{arith}
use mathlib.Core.Logic.{inl, inr}
use tuna_os.Base.Tests.{leb, leb→le, Bool-cases}

-- Once the fuel reaches the first operand, one more unit changes nothing, and so no more do.
module _ (ending : ℕ → ℕ) (join : ℕ → ℕ → ℕ) where
  one_more :
      (b a fuel : ℕ) → a ≤ fuel → digits ending join (suc fuel) a b ≡ digits ending join fuel a b
  one_more b zero zero h = refl
  one_more b zero (suc fuel) h = refl
  one_more b (suc a) zero h = absurd (omega arith)
  one_more b (suc a) (suc fuel) h = rw (one_more (b / 2) (suc a / 2) fuel (omega arith))

  settled : (b a fuel : ℕ) → a ≤ fuel → digits ending join fuel a b ≡ digits ending join a a b
  settled b a zero h = let at : a ≡ 0 = omega arith in rw at
  settled b a (suc fuel) h = elim (Bool-cases (leb a fuel)) [
    | inl small ↦ one_more b a fuel (leb→le a fuel small) ∙ settled b a fuel (leb→le a fuel small)
    | inr last ↦ let at : a ≡ suc fuel = ground arith in rw at
  ]

-- One binary digit of `|` and of `&`.
pub bit_or_digit : (a b : ℕ) → bit_or a b ≡ bit_or (a / 2) (b / 2) * 2 + max (a % 2) (b % 2)
bit_or_digit zero b = omega (arith, bit_or-bitwise 0 b, bit_or-bitwise 0 (b / 2))
bit_or_digit (suc a) b = omega (
  arith,
  bit_or-bitwise (suc a) b,
  bit_or-bitwise (suc a / 2) (b / 2),
  settled (λ y. y) max (b / 2) (suc a / 2) a (omega arith),
)

pub bit_and_digit : (a b : ℕ) → bit_and a b ≡ bit_and (a / 2) (b / 2) * 2 + min (a % 2) (b % 2)
bit_and_digit zero b = omega (arith, bit_and-bitwise 0 b, bit_and-bitwise 0 (b / 2))
bit_and_digit (suc a) b = omega (
  arith,
  bit_and-bitwise (suc a) b,
  bit_and-bitwise (suc a / 2) (b / 2),
  settled (λ y. zero) min (b / 2) (suc a / 2) a (omega arith),
)

-- A zero operand, below a bound that the halved operand stays under.
zero_operand : (bound a : ℕ) → a ≤ bound → (bit_and a 0 ≡ 0) × (bit_or a 0 ≡ a)
zero_operand bound zero h = (refl, refl)
zero_operand zero (suc a) h = absurd (omega arith)
zero_operand (suc bound) (suc a) h =
    let (both, either) = zero_operand bound (suc a / 2) (omega arith) in
    (omega (arith, bit_and_digit (suc a) 0, both), omega (arith, bit_or_digit (suc a) 0, either))

pub bit_and-zero : (a : ℕ) → bit_and a 0 ≡ 0
bit_and-zero a = (zero_operand a a (omega arith)).0

pub bit_or-zero : (a : ℕ) → bit_or a 0 ≡ a
bit_or-zero a = (zero_operand a a (omega arith)).1

-- The lowest bit.
pub bit_and-one : (a : ℕ) → bit_and a 1 ≡ a % 2
bit_and-one a = omega (arith, bit_and_digit a 1, bit_and-zero (a / 2))

bit_or-nibble : (a b : ℕ) → bit_or a b / 16 ≡ bit_or (a / 16) (b / 16)
bit_or-nibble a b =
    rw (← div16 a, ← div16 b)
      (omega (
        arith,
        bit_or_digit a b,
        bit_or_digit (a / 2) (b / 2),
        bit_or_digit (a / 2 / 2) (b / 2 / 2),
        bit_or_digit (a / 2 / 2 / 2) (b / 2 / 2 / 2),
      ))
  where
    div16 : (x : ℕ) → x / 2 / 2 / 2 / 2 ≡ x / 16
    div16 x = omega arith

-- Flags in the low twelve bits leave the page number alone.
pub bit_or-page : (a b : ℕ) → b < 4096 → bit_or a b / 4096 ≡ a / 4096
bit_or-page a b h = pages ∙ rw (zero_page, div4096 a) (bit_or-zero (a / 4096))
  where
    div4096 : (x : ℕ) → x / 16 / 16 / 16 ≡ x / 4096
    div4096 x = omega arith

    zero_page : b / 16 / 16 / 16 ≡ 0
    zero_page = omega arith

    pages : bit_or a b / 4096 ≡ bit_or (a / 16 / 16 / 16) (b / 16 / 16 / 16)
    pages = rw (
      ← div4096 (bit_or a b),
      bit_or-nibble a b,
      bit_or-nibble (a / 16) (b / 16),
      bit_or-nibble (a / 16 / 16) (b / 16 / 16),
    )

-- The two lowest bits, set above a multiple of 4096.
bit_or-three : (n : ℕ) → bit_or (n * 4096) 3 ≡ n * 4096 + 3
bit_or-three n =
    let half : n * 4096 / 2 ≡ n * 2048 = omega arith in
    let quarter : n * 2048 / 2 ≡ n * 1024 = omega arith in
    let top = bit_or-zero (n * 1024) in
    let one : bit_or (n * 2048) 1 ≡ bit_or (n * 1024) 0 * 2 + max (n * 2048 % 2) 1 =
      rw (← quarter) (bit_or_digit (n * 2048) 1) in
    let two : bit_or (n * 4096) 3 ≡ bit_or (n * 2048) 1 * 2 + max (n * 4096 % 2) 1 =
      rw (← half) (bit_or_digit (n * 4096) 3) in
    omega (arith, top, one, two)

-- So that the third is not.
pub bit_and-four : (n : ℕ) → bit_and (bit_or (n * 4096) 3) 4 ≡ 0
bit_and-four n =
    let half : (n * 4096 + 3) / 2 ≡ n * 2048 + 1 = omega arith in
    let quarter : (n * 2048 + 1) / 2 ≡ n * 1024 = omega arith in
    let top = bit_and-one (n * 1024) in
    let one : bit_and (n * 2048 + 1) 2 ≡ bit_and (n * 1024) 1 * 2 + min ((n * 2048 + 1) % 2) 0 =
      rw (← quarter) (bit_and_digit (n * 2048 + 1) 2) in
    let two : bit_and (n * 4096 + 3) 4 ≡ bit_and (n * 2048 + 1) 2 * 2 + min ((n * 4096 + 3) % 2) 0 =
      rw (← half) (bit_and_digit (n * 4096 + 3) 4) in
    rw (bit_or-three n) (omega (arith, top, one, two))
