-- ===== src/Vmm.antt =====
-- kernel/src/vmm.c and vmm.h: four-level page tables in physical memory. A table is 512 words of
-- 8 bytes; a pointer to one is its physical address, which the boot tables identity-map.
-- `serial_write` only reports and `invlpg` only drops a cached translation: both are left out.
pub mod Entry
pub mod Tree
pub mod Descend
pub mod Map
pub mod Unmap
pub mod Range
pub mod Fresh
pub mod Init
pub mod Tests
use tuna_os.Base.{
  ℕ, zero, suc, ◌+◌, ◌*◌, ◌/◌, ◌%◌, ◌^◌, Bool, not, bit_and, bit_or, ◌==◌, if◌then◌else◌, update,
  ◌>>>◌, u64,
}
use tuna_os.Pmm.{Pmm, pmm_alloc_frame}

-- The frame allocator, the words of physical memory by address, the static variable `pml4`, and
-- the root that the processor walks from.
pub record Memory : Type 0 where
  pub pmm : Pmm
  pub words : ℕ → ℕ
  pub pml4 : ℕ
  pub cr3 : ℕ

abbrev pub flag_present : ℕ
flag_present = 0x001

abbrev pub flag_write : ℕ
flag_write = 0x002

abbrev pub flag_user : ℕ
flag_user = 0x004

-- `& 0x1FF` is the remainder by 2 ^ 9.
abbrev pub pml4_index : ℕ → ℕ
pml4_index addr = (addr >>> 39) % 2 ^ 9

abbrev pub pdpt_index : ℕ → ℕ
pdpt_index addr = (addr >>> 30) % 2 ^ 9

abbrev pub pd_index : ℕ → ℕ
pd_index addr = (addr >>> 21) % 2 ^ 9

abbrev pub pt_index : ℕ → ℕ
pt_index addr = (addr >>> 12) % 2 ^ 9

-- `e & PAGE_MASK`.
abbrev pub page_mask : ℕ → ℕ
page_mask e = e / 2 ^ 12 * 2 ^ 12

abbrev pub has_flag : ℕ → ℕ → Bool
has_flag e f = not (bit_and e f == 0)

-- The address of `table[i]`.
abbrev pub slot : ℕ → ℕ → ℕ
slot table i = table + 8 * i

-- for (i = 0; i < 512; i++) table[i] = 0, with `rounds` left.
unfoldable pub zero_table : ℕ → (table i : ℕ) → (ℕ → ℕ) → ℕ → ℕ
zero_table zero table i words = words
zero_table (suc rounds) table i words =
    zero_table rounds table (i + 1) (update words (slot table i) 0)

-- The address of a table of zeroes, or 0.
unfoldable pub alloc_table : Memory → ℕ × Memory
alloc_table s =
    let (frame, pmm') = pmm_alloc_frame s.pmm in
    if frame == 0
    then (0, record s { pmm = pmm' })
    else (frame, record s { pmm = pmm'; words = zero_table 512 frame 0 s.words })

unfoldable pub write_word : ℕ → ℕ → Memory → Memory
write_word a e s = record s { words = update s.words a e }

-- One level of the walk: the next table, or a return from `vmm_map_page`.
pub data Descent : Type 0 where
  next_table : ℕ → Memory → Descent
  no_frame : Memory → Descent

-- The entry at address `a`: an existing table is followed and its flags widened, a missing one
-- allocated.
unfoldable pub descend : (a flags : ℕ) → Memory → Descent
unfolding write_word alloc_table
descend a flags s =
    if has_flag (s.words a) flag_present
    then next_table (page_mask (s.words a)) (write_word a (bit_or (s.words a) flags) s)
    else let (table, s') = alloc_table s in
      if table == 0 then no_frame s' else next_table table (write_word a (bit_or table flags) s')

unfoldable pub intermediate_flags : ℕ → ℕ
intermediate_flags flags =
    if has_flag flags flag_user
    then bit_or (bit_or flag_present flag_write) flag_user
    else bit_or flag_present flag_write

unfoldable pub vmm_map_page : (virt phys flags : ℕ) → Memory → Memory
vmm_map_page virt phys flags s =
    let inner = intermediate_flags flags in
    elim (descend (slot s.pml4 (pml4_index virt)) inner s) [
      | no_frame s₁ ↦ s₁
      | next_table pdpt s₁ ↦ elim (descend (slot pdpt (pdpt_index virt)) inner s₁) [
        | no_frame s₂ ↦ s₂
        | next_table pd s₂ ↦ elim (descend (slot pd (pd_index virt)) inner s₂) [
          | no_frame s₃ ↦ s₃
          | next_table pt s₃ ↦
              write_word (slot pt (pt_index virt)) (bit_or (page_mask phys) flags) s₃
        ]
      ]
    ]

unfoldable pub vmm_unmap_page : ℕ → Memory → Memory
unfolding write_word
vmm_unmap_page virt s =
    let e₁ = s.words (slot s.pml4 (pml4_index virt)) in
    let e₂ = s.words (slot (page_mask e₁) (pdpt_index virt)) in
    let e₃ = s.words (slot (page_mask e₂) (pd_index virt)) in
    if not (has_flag e₁ flag_present)
    then s
    else if not (has_flag e₂ flag_present)
    then s
    else if not (has_flag e₃ flag_present)
    then s
    else write_word (slot (page_mask e₃) (pt_index virt)) 0 s

abbrev pub map_end : ℕ
map_end = 4 * 1024 * 1024

-- for (addr = 0; addr < map_end; addr += 4096), with `rounds` left.
pub identity_map : ℕ → ℕ → Memory → Memory
identity_map zero addr s = s
identity_map (suc rounds) addr s =
    identity_map rounds (addr + 4096) (vmm_map_page addr addr (bit_or flag_present flag_write) s)

unfoldable pub vmm_init : Memory → Memory
vmm_init s =
    let (table, s') = alloc_table s in
    let s'' = record s' { pml4 = table } in
    if table == 0
    then s''
    else let mapped = identity_map (map_end / 4096) 0 s'' in record mapped { cr3 = mapped.pml4 }
