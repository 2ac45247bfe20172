-- ===== src/Gdt.antt =====
-- kernel/src/gdt.c and gdt.h: the descriptor table and the descriptor of the task state segment.
pub mod Tests
use tuna_os.Base.{
  ℕ, ◌+◌, ◌-◌, ◌*◌, ◌/◌, ◌%◌, ◌^◌, ◌<◌, ◌≡◌, ◌≢◌, refl, ◌==◌, if◌then◌else◌, true, false, Bool,
  update, bit_and, bit_or, u8, u16, u32, ◌>>>◌, arith,
}

-- `struct gdt_descriptor`.
pub record Descriptor : Type 0 where
  pub limit_low : ℕ
  pub base_low : ℕ
  pub base_mid : ℕ
  pub access : ℕ
  pub granularity : ℕ
  pub base_high : ℕ

-- The table, what the processor holds of its address and size, and its task register.
pub record Gdt : Type 0 where
  pub entries : ℕ → Descriptor
  pub limit : ℕ
  pub base : ℕ
  pub task_register : ℕ

abbrev pub null_descriptor : Descriptor
null_descriptor = record {
  limit_low = 0;
  base_low = 0;
  base_mid = 0;
  access = 0;
  granularity = 0;
  base_high = 0;
}

abbrev pub gdt_tss : ℕ
gdt_tss = 0x28

unfoldable pub make_descriptor : (access flags : ℕ) → Descriptor
make_descriptor access flags = record {
  limit_low = 0xffff;
  base_low = 0;
  base_mid = 0;
  access = access;
  granularity = u8 (bit_or 0x0f (bit_and flags 0xf0));
  base_high = 0;
}

-- `address` is where the table stands; the table has 7 entries of 8 bytes.
unfoldable pub gdt_init : (address : ℕ) → Gdt → Gdt
gdt_init address s = record s {
  entries =
      update
        (update
          (update
            (update
              (update (update (update s.entries 0 null_descriptor) 1 (make_descriptor 0x9a 0xa0)) 2
                (make_descriptor 0x92 0xc0))
              3 (make_descriptor 0xf2 0xc0))
            4 (make_descriptor 0xfa 0xa0))
          5 null_descriptor)
        6 null_descriptor;
  limit = 7 * 8 - 1;
  base = address;
}

-- The low half of the descriptor, in slot 5.
unfoldable pub tss_low : (tss_base tss_limit : ℕ) → Descriptor
tss_low tss_base tss_limit = record {
  limit_low = tss_limit % 2 ^ 16;
  base_low = tss_base % 2 ^ 16;
  base_mid = (tss_base >>> 16) % 2 ^ 8;
  access = 0x89;
  granularity = (tss_limit >>> 16) % 2 ^ 4;
  base_high = (tss_base >>> 24) % 2 ^ 8;
}

-- Slot 6 by its bytes: the first two pairs are the fields `limit_low` and `base_low`.
unfoldable pub tss_high : (tss_base : ℕ) → Descriptor
tss_high tss_base =
    let base_upper = u32 (tss_base >>> 32) in
    record {
      limit_low = u8 base_upper + u8 (base_upper >>> 8) * 2 ^ 8;
      base_low = u8 (base_upper >>> 16) + u8 (base_upper >>> 24) * 2 ^ 8;
      base_mid = 0;
      access = 0;
      granularity = 0;
      base_high = 0;
    }

unfoldable pub gdt_load_tss : (tss_base tss_limit : ℕ) → Gdt → Gdt
gdt_load_tss tss_base tss_limit s = record s {
  entries = update (update s.entries 5 (tss_low tss_base tss_limit)) 6 (tss_high tss_base);
  task_register = gdt_tss;
}

-- What the processor reads from the two slots of a 16-byte descriptor at entry `i`: the base, and
-- the limit in bytes.
unfoldable pub segment_base : Gdt → ℕ → ℕ
segment_base s i =
    let low = s.entries i in
    let high = s.entries (i + 1) in
    low.base_low
    + low.base_mid * 2 ^ 16
    + low.base_high * 2 ^ 24
    + (high.limit_low + high.base_low * 2 ^ 16) * 2 ^ 32

unfoldable pub segment_limit : Gdt → ℕ → ℕ
segment_limit s i = let low = s.entries i in low.limit_low + low.granularity % 2 ^ 4 * 2 ^ 16

-- After `gdt_load_tss` the task register selects a descriptor from which the processor reads the
-- base and the limit that were given, a limit below 2 ^ 20; the first five entries are as before.
pub gdt_load_tss_lem :
    (tss_base tss_limit : ℕ) (s : Gdt)
    → tss_base < 2 ^ 64
    → tss_limit < 2 ^ 20
    → (segment_base
          (gdt_load_tss tss_base tss_limit s)
          ((gdt_load_tss tss_base tss_limit s).task_register / 8)
        ≡ tss_base)
      × (segment_limit
            (gdt_load_tss tss_base tss_limit s)
            ((gdt_load_tss tss_base tss_limit s).task_register / 8)
          ≡ tss_limit)
      × ((i : ℕ) → i < 5 → (gdt_load_tss tss_base tss_limit s).entries i ≡ s.entries i)
unfolding gdt_load_tss segment_base segment_limit tss_low tss_high
gdt_load_tss_lem tss_base tss_limit s h h' = (omega arith, omega arith, λ i lt. ground arith)
