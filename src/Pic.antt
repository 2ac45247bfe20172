-- ===== src/Pic.antt =====
-- kernel/src/pic.c: the interrupt controllers. What a data port reads is a map by port, which
-- holds what was last written to it; commands are the bytes written, each after its port.
pub mod Tests
use tuna_os.Base.{
  ℕ, ◌+◌, ◌-◌, ◌/◌, ◌%◌, ◌^◌, ◌<◌, ◌≤◌, ◌≡◌, refl, Bool, true, false, ltb, leb, ◌==◌, if◌then◌else◌,
  update, bit_and, bit_or, u8, arith, List, [], ◌∷◌, Bool-cases, inl, inr, ◌∙◌, ap, not, ◌⊎◌,
  ==_iff, all_below, all_below_sound,
}
use tuna_os.Pmm.Bitmap.{
  IsBytes, is_set, bitmap_set, bitmap_clear, bitmap_test, is_set-bitmap_set, is_set-bitmap_clear,
}

abbrev pub pic1_cmd : ℕ
pic1_cmd = 0x20

abbrev pub pic1_data : ℕ
pic1_data = 0x21

abbrev pub pic2_cmd : ℕ
pic2_cmd = 0xa0

abbrev pub pic2_data : ℕ
pic2_data = 0xa1

-- The bytes that `pic_init` writes.
abbrev pub pic_init : List (ℕ × ℕ)
pic_init =
    (pic1_cmd, 0x11)
    ∷ (pic2_cmd, 0x11)
    ∷ (pic1_data, 32)
    ∷ (pic2_data, 40)
    ∷ (pic1_data, 0x04)
    ∷ (pic2_data, 0x02)
    ∷ (pic1_data, 0x01)
    ∷ (pic2_data, 0x01)
    ∷ (pic1_data, 0xff)
    ∷ (pic2_data, 0xff)
    ∷ []

unfoldable pub pic_eoi : ℕ → List (ℕ × ℕ)
pic_eoi irq =
    let first : List (ℕ × ℕ) = (pic1_cmd, 0x20) ∷ [] in
    if leb 8 irq then (pic2_cmd, 0x20) ∷ first else first

unfoldable pub irq_mask : ℕ → (ℕ → ℕ) → ℕ → ℕ
irq_mask irq data_ports =
    let port = if ltb irq 8 then pic1_data else pic2_data in
    let line = if ltb irq 8 then irq else u8 (irq + 2 ^ 8 - 8) in
    update data_ports port (u8 (bit_or (data_ports port) (u8 (2 ^ line))))

-- `~(1 << irq)` is an int of which the cast keeps the low eight bits. A port reads as a byte.
unfoldable pub irq_unmask : ℕ → (ℕ → ℕ) → ℕ → ℕ
irq_unmask irq data_ports =
    let port = if ltb irq 8 then pic1_data else pic2_data in
    let line = if ltb irq 8 then irq else u8 (irq + 2 ^ 8 - 8) in
    update data_ports port (bit_and (data_ports port) (255 - u8 (2 ^ line)))

-- The masks of the two controllers, one byte each.
unfoldable pub masks : (ℕ → ℕ) → ℕ → ℕ
masks data_ports i = data_ports (if i == 0 then pic1_data else pic2_data)

-- Whether the controllers hold back the interrupt.
abbrev pub is_masked : ℕ → (ℕ → ℕ) → Bool
is_masked irq data_ports = is_set (masks data_ports) irq

bit_fits : (k : ℕ) → k < 8 → u8 (2 ^ k) ≡ 2 ^ k
bit_fits k h =
    (==_iff (u8 (2 ^ k)) (2 ^ k)).0
      (all_below_sound 8 (λ j. u8 (2 ^ j) == 2 ^ j) k (unfold all_below in refl) h)

-- The controller of an interrupt, and its line there.
which_controller :
    (irq : ℕ)
    → irq < 16
    → ((ltb irq 8 ≡ true) × (irq / 8 ≡ 0) × (irq % 8 ≡ irq))
      ⊎ ((ltb irq 8 ≡ false) × (irq / 8 ≡ 1) × (u8 (irq + 2 ^ 8 - 8) ≡ irq % 8))
which_controller irq h = elim (Bool-cases (ltb irq 8)) [
  | inl first ↦ inl (first, ground (arith, first), ground (arith, first))
  | inr second ↦ inr (second, ground (arith, second), ground (arith, second))
]

-- On the masks the two operations are those of a bitmap.
masks-irq :
    (irq g : ℕ) (d : ℕ → ℕ)
    → irq < 16
    → g < 16
    → (masks (irq_mask irq d) (g / 8) ≡ bitmap_set (masks d) irq (g / 8))
      × (masks (irq_unmask irq d) (g / 8) ≡ bitmap_clear (masks d) irq (g / 8))
unfolding masks irq_mask irq_unmask bitmap_set bitmap_clear
masks-irq irq g d h h' = elim (which_controller irq h) [
  | inl (first, at, line) ↦
      let fits = bit_fits irq (ground (arith, first)) in
      elim (which_controller g h') [
        | inl (_, at', _) ↦ rw (first, at, at', line, fits) (refl, refl)
        | inr (_, at', _) ↦ rw (first, at, at') (refl, refl)
      ]
  | inr (second, at, line) ↦
      let fits = bit_fits (irq % 8) (omega arith) in
      elim (which_controller g h') [
        | inl (_, at', _) ↦ rw (second, at, at') (refl, refl)
        | inr (_, at', _) ↦ rw (second, at, at', line, fits) (refl, refl)
      ]
]

is_set-agree : (m n : ℕ → ℕ) (g : ℕ) → m (g / 8) ≡ n (g / 8) → is_set m g ≡ is_set n g
unfolding bitmap_test
is_set-agree m n g e = rw e refl

-- `irq_mask` masks the interrupt that it is given and `irq_unmask` lets it through; both leave
-- the other fifteen as they are. The ports hold bytes.
pub irq_mask_lem :
    (irq g : ℕ) (data_ports : ℕ → ℕ)
    → irq < 16
    → g < 16
    → IsBytes data_ports
    → (is_masked g (irq_mask irq data_ports) ≡ (if irq == g then true else is_masked g data_ports))
      × (is_masked g (irq_unmask irq data_ports)
          ≡ (if irq == g then false else is_masked g data_ports))
irq_mask_lem irq g d h h' bytes =
    let (masked, unmasked) = masks-irq irq g d h h' in
    let two_bytes : IsBytes (masks d) =
      λ i. unfold masks in bytes (if i == 0 then pic1_data else pic2_data) in
    (
      is_set-agree (masks (irq_mask irq d)) (bitmap_set (masks d) irq) g masked
          ∙ is_set-bitmap_set (masks d) two_bytes irq g,
      is_set-agree (masks (irq_unmask irq d)) (bitmap_clear (masks d) irq) g unmasked
          ∙ is_set-bitmap_clear (masks d) two_bytes irq g,
    )
