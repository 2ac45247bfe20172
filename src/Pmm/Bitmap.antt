-- ===== src/Pmm/Bitmap.antt =====
-- kernel/src/pmm.c: the three operations on the bitmap, one bit for each frame.
use tuna_os.Base.{
  ℕ, ◌-◌, ◌/◌, ◌%◌, ◌^◌, ◌<◌, ◌≡◌, ◌⊎◌, ==_refl, refl, Bool, true, false, not, bit_and, bit_or,
  ◌==◌, leb, leb→le, fun_ext, sym, if◌then◌else◌, update, u8, arith, all_below, all_below_sound,
  Bool-cases, inl, inr,
}

-- The array of bytes. Every access of the file is below PMM_MAX_FRAMES / 8.
abbrev pub ByteArray : Type 0
ByteArray = ℕ → ℕ

unfoldable pub bitmap_set : ByteArray → ℕ → ByteArray
bitmap_set m frame = update m (frame / 8) (u8 (bit_or (m (frame / 8)) (2 ^ (frame % 8))))

-- `~(1 << k)` is an int of which the byte keeps the low eight bits.
unfoldable pub bitmap_clear : ByteArray → ℕ → ByteArray
bitmap_clear m frame = update m (frame / 8) (bit_and (m (frame / 8)) (255 - 2 ^ (frame % 8)))

unfoldable pub bitmap_test : ByteArray → ℕ → ℕ
bitmap_test m frame = bit_and (m (frame / 8)) (2 ^ (frame % 8))

-- The value of `bitmap_test` as a condition.
abbrev pub is_set : ByteArray → ℕ → Bool
is_set m frame = not (bitmap_test m frame == 0)

abbrev pub IsBytes : ByteArray → Type 0
IsBytes m = (i : ℕ) → m i < 256

-- The laws of one byte, checked at every value.
bit : ℕ → ℕ → Bool
bit b k = not (bit_and b (2 ^ k) == 0)

beq : Bool → Bool → Bool
beq true b = b
beq false b = not b

set_byte : ℕ → ℕ → ℕ
set_byte b k = u8 (bit_or b (2 ^ k))

clear_byte : ℕ → ℕ → ℕ
clear_byte b k = bit_and b (255 - 2 ^ k)

abbrev byte_law : (ℕ → ℕ → ℕ → Bool) → Bool
byte_law p = all_below 256 (λ b. all_below 8 (λ j. all_below 8 (λ k. p b j k)))

byte_law_sound :
    (p : ℕ → ℕ → ℕ → Bool)
    → byte_law p ≡ true
    → (b j k : ℕ) → b < 256
    → j < 8
    → k < 8
    → p b j k ≡ true
byte_law_sound p h b j k hb hj hk =
    all_below_sound 8 _ k (all_below_sound 8 _ j (all_below_sound 256 _ b h hb) hj) hk

bit-set_table :
    byte_law (λ b j k. beq (bit (set_byte b j) k) (if j == k then true else bit b k)) ≡ true
unfolding all_below beq bit set_byte
bit-set_table = refl

bit-clear_table :
    byte_law (λ b j k. beq (bit (clear_byte b j) k) (if j == k then false else bit b k)) ≡ true
unfolding all_below beq bit clear_byte
bit-clear_table = refl

set_clear_table :
    byte_law (λ b j k. if bit b j then true else clear_byte (set_byte b j) j == b) ≡ true
unfolding all_below bit set_byte clear_byte
set_clear_table = refl

clear-lt_table : byte_law (λ b j k. leb (clear_byte b j) b) ≡ true
unfolding all_below clear_byte
clear-lt_table = refl

beq_eq : (a b : Bool) → beq a b ≡ true → a ≡ b
unfolding beq
beq_eq true b h = sym h
beq_eq false true h = cc
beq_eq false false h = refl

-- Two frames share a byte, or they differ.
div-cases : (f g : ℕ) → (f / 8 ≡ g / 8) ⊎ (((f / 8) == (g / 8)) ≡ false) × ((f == g) ≡ false)
div-cases f g = elim (Bool-cases ((f / 8) == (g / 8))) [
  | inl e ↦ inl (ground arith)
  | inr e ↦ inr (e, ground arith)
]

mod-eq : (f g : ℕ) → f / 8 ≡ g / 8 → ((f % 8) == (g % 8)) ≡ (f == g)
mod-eq f g e = ground arith

module _ (m : ByteArray) (bytes : IsBytes m) (f g : ℕ) where
  -- After setting the bit of `f` that bit is set and every other is as before.
  pub is_set-bitmap_set : is_set (bitmap_set m f) g ≡ (if f == g then true else is_set m g)
  unfolding bitmap_set bitmap_test bit set_byte
  is_set-bitmap_set = elim (div-cases f g) [
    | inr (e, n) ↦ rw (e, n)
    | inl e ↦
        rw (e, ==_refl (g / 8), ← mod-eq f g e)
          (beq_eq _ _ (
            byte_law_sound _ bit-set_table (m (g / 8)) (f % 8) (g % 8) (bytes (g / 8)) (omega arith)
              (omega arith)))
  ]

  -- After clearing the bit of `f` that bit is clear and every other is as before.
  pub is_set-bitmap_clear : is_set (bitmap_clear m f) g ≡ (if f == g then false else is_set m g)
  unfolding bitmap_clear bitmap_test bit clear_byte
  is_set-bitmap_clear = elim (div-cases f g) [
    | inr (e, n) ↦ rw (e, n)
    | inl e ↦
        rw (e, ==_refl (g / 8), ← mod-eq f g e)
          (beq_eq _ _ (
            byte_law_sound _ bit-clear_table (m (g / 8)) (f % 8) (g % 8) (bytes (g / 8))
              (omega arith) (omega arith)))
  ]

module _ (m : ByteArray) (bytes : IsBytes m) (f : ℕ) where
  pub bitmap_set-IsBytes : IsBytes (bitmap_set m f)
  unfolding bitmap_set
  bitmap_set-IsBytes i = ground (arith, bytes i)

  pub bitmap_clear-IsBytes : IsBytes (bitmap_clear m f)
  unfolding bitmap_clear clear_byte
  bitmap_clear-IsBytes i = ground (
    arith,
    bytes i,
    leb→le _ _ (
        byte_law_sound _ clear-lt_table (m (f / 8)) (f % 8) 0 (bytes (f / 8)) (omega arith)
          (omega arith)),
    bytes (f / 8),
  )

  -- Clearing a bit that was just set, and was clear before, gives the same array.
  pub bitmap_clear-bitmap_set : is_set m f ≡ false → bitmap_clear (bitmap_set m f) f ≡ m
  unfolding bitmap_set bitmap_clear bitmap_test bit set_byte clear_byte
  bitmap_clear-bitmap_set h = fun_ext λ i. ground (arith, restore)
    where
      restore :
          (if bit (m (f / 8)) (f % 8)
            then true
            else clear_byte (set_byte (m (f / 8)) (f % 8)) (f % 8) == m (f / 8))
          ≡ true
      restore =
          byte_law_sound _ set_clear_table (m (f / 8)) (f % 8) 0 (bytes (f / 8)) (omega arith)
            (omega arith)

full_table : all_below 8 (λ k. bit 255 k) ≡ true
unfolding all_below bit
full_table = refl

-- A byte 0xFF has no free frame.
pub is_set_of_full : (m : ByteArray) (f : ℕ) → m (f / 8) ≡ 255 → is_set m f ≡ true
unfolding bitmap_test bit
is_set_of_full m f e = rw e (all_below_sound 8 _ (f % 8) full_table (omega arith))
