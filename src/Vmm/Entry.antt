-- ===== src/Vmm/Entry.antt =====
-- kernel/src/vmm.c: the bits of an entry, the addresses of a table's entries, and its zeroing.
use tuna_os.Base.{
  ℕ, zero, suc, ◌+◌, ◌%◌, ◌≤◌, ◌<◌, ◌≡◌, ◌≢◌, Bool, true, bit_or, ◌==◌, arith, Bool-cases, inl, inr,
  ◌∙◌, bit_and-one, bit_and_digit, bit_or_digit, bit_and, ◌⊎◌, ◌/◌, refl, bit_or-page,
}
use tuna_os.Vmm.{slot, has_flag, flag_present, flag_user, page_mask, zero_table, intermediate_flags}

abbrev pub is_present : ℕ → Bool
is_present e = has_flag e flag_present

pub is_present-odd : (e : ℕ) → e % 2 ≡ 1 → is_present e ≡ true
is_present-odd e h = ground (arith, bit_and-one e)

pub odd-is_present : (e : ℕ) → is_present e ≡ true → e % 2 ≡ 1
odd-is_present e h = ground (arith, bit_and-one e)

-- What the flags of an upper level are: PRESENT is among them, and they fit the low twelve bits.
pub record AreFlags (flags : ℕ) : Type 0 where
  pub odd : flags % 2 ≡ 1
  pub low : flags < 4096

pub intermediate-AreFlags : (flags : ℕ) → AreFlags (intermediate_flags flags)
unfolding intermediate_flags
intermediate-AreFlags flags = ground arith

pub is_present-or : (e flags : ℕ) → AreFlags flags → is_present (bit_or e flags) ≡ true
is_present-or e flags f = is_present-odd _ (omega (arith, bit_or_digit e flags, f.odd))

-- The bits for a page that can be written and for one of programs, and that one of them is set.
abbrev pub IsRight : ℕ → Type 0
IsRight k = (k ≡ 2) ⊎ (k ≡ 4)

abbrev pub HasRight : (k e : ℕ) → Type 0
HasRight k e = e / k % 2 ≡ 1

pub HasRight-or :
    (k e flags : ℕ) → IsRight k → HasRight k e ⊎ HasRight k flags → HasRight k (bit_or e flags)
HasRight-or k e flags (inl at) set =
    rw at (omega (arith, bit_or_digit e flags, bit_or_digit (e / 2) (flags / 2), rw at at set))
HasRight-or k e flags (inr at) set = rw at (
    omega (
      arith,
      bit_or_digit e flags,
      bit_or_digit (e / 2) (flags / 2),
      bit_or_digit (e / 2 / 2) (flags / 2 / 2),
      rw at at set,
    ))

-- The flags of an upper level allow writing, and what the flags of the page allow to programs.
pub intermediate-writable : (flags : ℕ) → HasRight 2 (intermediate_flags flags)
unfolding intermediate_flags
intermediate-writable flags = elim (Bool-cases (has_flag flags flag_user)) [
  | inl user ↦ rw user refl
  | inr kernel ↦ rw kernel refl
]

pub intermediate-user :
    (page flags : ℕ)
    → page % 4096 ≡ 0
    → HasRight 4 (bit_or page flags)
    → HasRight 4 (intermediate_flags flags)
unfolding intermediate_flags
intermediate-user page flags aligned set = elim (Bool-cases (has_flag flags flag_user)) [
  | inl user ↦ rw user refl
  | inr kernel ↦
      let zero_bit : bit_and flags 4 ≡ 0 = ground arith in
      absurd (
        omega (
          arith,
          zero_bit,
          set,
          bit_and_digit flags 4,
          bit_and_digit (flags / 2) 2,
          bit_and-one (flags / 2 / 2),
          bit_or_digit page flags,
          bit_or_digit (page / 2) (flags / 2),
          bit_or_digit (page / 2 / 2) (flags / 2 / 2),
        ))
]

pub page_mask-or : (e flags : ℕ) → AreFlags flags → page_mask (bit_or e flags) ≡ page_mask e
page_mask-or e flags f = omega (arith, bit_or-page e flags f.low)

pub page_mask-table : (t flags : ℕ) → AreFlags flags → t % 4096 ≡ 0 → page_mask (bit_or t flags) ≡ t
page_mask-table t flags f h = omega (arith, bit_or-page t flags f.low)

-- Two entries of tables have one address only if table and index agree.
pub slot-injective :
    (t u i j : ℕ)
    → t % 4096 ≡ 0
    → u % 4096 ≡ 0
    → i < 512
    → j < 512
    → slot t i ≡ slot u j
    → (t ≡ u) × (i ≡ j)
slot-injective t u i j ht hu hi hj e = omega arith

zero_table-written : (n t i : ℕ) (w : ℕ → ℕ) (x : ℕ) → w x ≡ 0 → zero_table n t i w x ≡ 0
unfolding zero_table
zero_table-written zero t i w x h = h
zero_table-written (suc n) t i w x h = zero_table-written n t (i + 1) _ x (ground arith)

-- Every entry of the table is zero.
pub zero_table-inside :
    (n t i : ℕ) (w : ℕ → ℕ) (j : ℕ) → i ≤ j → j < i + n → zero_table n t i w (slot t j) ≡ 0
unfolding zero_table
zero_table-inside zero t i w j lo hi = absurd (omega arith)
zero_table-inside (suc n) t i w j lo hi = elim (Bool-cases (i == j)) [
  | inl e ↦ zero_table-written n t (i + 1) _ (slot t j) (ground arith)
  | inr ne ↦ zero_table-inside n t (i + 1) _ j (ground arith) (omega arith)
]

-- No other word changes.
pub zero_table-outside :
    (n t i : ℕ) (w : ℕ → ℕ) (x : ℕ)
    → ((j : ℕ) → j < i + n → x ≢ slot t j)
    → zero_table n t i w x ≡ w x
unfolding zero_table
zero_table-outside zero t i w x h = refl
zero_table-outside (suc n) t i w x h =
    zero_table-outside n t (i + 1) _ x (λ j lt. h j (omega arith))
    ∙ ground (arith, h i (omega arith))
