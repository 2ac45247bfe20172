-- ===== src/Pmm.antt =====
-- kernel/src/pmm.c and pmm.h: the physical page frame allocator, a bitmap with two counters.
-- `serial_write` only reports and is left out.
pub mod Bitmap
pub mod Count
pub mod Alloc
pub mod Init
pub mod Counters
pub mod Tests
use tuna_os.Base.{
  ℕ, zero, suc, ◌+◌, ◌-◌, ◌*◌, ◌/◌, ◌%◌, ◌^◌, Bool, not, true, false, List, [], ◌∷◌, ltb, leb, ◌==◌,
  if◌then◌else◌, update, u8, u32, u64,
}
use tuna_os.Pmm.Bitmap.{ByteArray, bitmap_set, bitmap_clear, is_set}

abbrev pub page_size : ℕ
page_size = 4096

abbrev pub max_frames : ℕ
max_frames = 32768

-- The static variables of pmm.c.
pub record Pmm : Type 0 where
  pub bitmap : ByteArray
  pub total_frames : ℕ
  pub used_frames : ℕ

-- `struct mmap_region` of multiboot2.h.
pub record MmapRegion : Type 0 where
  pub base : ℕ
  pub length : ℕ
  pub type : ℕ

abbrev pub type_available : ℕ
type_available = 1

-- Marks a free frame and counts it, as both loops over reserved memory and the allocator do.
unfoldable pub take_frame : ℕ → Pmm → Pmm
take_frame f s = record s { bitmap = bitmap_set s.bitmap f; used_frames = u32 (s.used_frames + 1) }

-- The body of the loop over an available region. `used_frames--` on 32 bits.
pub release_frame : ℕ → Pmm → Pmm
release_frame f s = record s {
  bitmap = bitmap_clear s.bitmap f;
  total_frames = u32 (s.total_frames + 1);
  used_frames = u32 (s.used_frames + (2 ^ 32 - 1));
}

-- for (f = frame_start; f < frame_end; f++), with `rounds` left.
pub release_range : ℕ → ℕ → Pmm → Pmm
release_range zero f s = s
release_range (suc rounds) f s = release_range rounds (f + 1) (release_frame f s)

-- The body of the loops over low memory and over the kernel.
pub reserve_frame : ℕ → Pmm → Pmm
reserve_frame f s = if is_set s.bitmap f then s else take_frame f s

pub reserve_range : ℕ → ℕ → Pmm → Pmm
reserve_range zero f s = s
reserve_range (suc rounds) f s = reserve_range rounds (f + 1) (reserve_frame f s)

-- PMM_MAX_FRAMES where the value is larger.
pub clamp_frame : ℕ → ℕ
clamp_frame f = if ltb max_frames f then max_frames else f

pub frame_start : MmapRegion → ℕ
frame_start r = u32 (u64 (r.base + (page_size - 1)) / page_size)

pub frame_end : MmapRegion → ℕ
unfolding clamp_frame
frame_end r = clamp_frame (u32 (u64 (r.base + r.length) / page_size))

pub release_region : MmapRegion → Pmm → Pmm
unfolding frame_start frame_end release_range release_frame
release_region r s =
    if r.type == type_available
    then release_range (frame_end r - frame_start r) (frame_start r) s
    else s

pub release_regions : List MmapRegion → Pmm → Pmm
unfolding release_region
release_regions [] s = s
release_regions (r ∷ rs) s = release_regions rs (release_region r s)

abbrev pub low_end : ℕ
low_end = 1024 * 1024 / page_size

pub kernel_frame_start : ℕ → ℕ
kernel_frame_start k_start = u32 (k_start / page_size)

pub kernel_frame_end : ℕ → ℕ
unfolding clamp_frame
kernel_frame_end k_end = clamp_frame (u32 (u64 (k_end + page_size - 1) / page_size))

-- All frames used. The bytes past the end of the C array are never read.
unfoldable pub all_used : Pmm
all_used = record { bitmap = λ _. 0xff; total_frames = 0; used_frames = max_frames }

-- `k_start` and `k_end` are the addresses of the linker's symbols `_kernel_start`, `_kernel_end`.
pub pmm_init : List MmapRegion → (k_start k_end : ℕ) → Pmm
unfolding release_regions reserve_range reserve_frame take_frame kernel_frame_start kernel_frame_end
    all_used
pmm_init regions k_start k_end =
    let released = release_regions regions all_used in
    let low = reserve_range low_end 0 released in
    reserve_range (kernel_frame_end k_end - kernel_frame_start k_start) (kernel_frame_start k_start)
      low

-- What the loop over the bits of a byte does: it returns from the function, or it ends.
pub data BitScan : Type 0 where
  found : ℕ → Pmm → BitScan
  exhausted : BitScan

-- for (bit = 0; bit < 8; bit++), with `rounds` left.
unfoldable pub scan_bits : ℕ → (i bit : ℕ) → Pmm → BitScan
scan_bits zero i bit s = exhausted
scan_bits (suc rounds) i bit s =
    let rest = scan_bits rounds i (bit + 1) s in
    if leb max_frames (i * 8 + bit)
    then found 0 s
    else if is_set s.bitmap (i * 8 + bit)
    then rest
    else found ((i * 8 + bit) * page_size) (take_frame (i * 8 + bit) s)

-- for (i = 0; i < PMM_MAX_FRAMES / 8; i++), with `rounds` left.
unfoldable pub scan_bytes : ℕ → ℕ → Pmm → ℕ × Pmm
unfolding scan_bits
scan_bytes zero i s = (0, s)
scan_bytes (suc rounds) i s =
    let rest = scan_bytes rounds (i + 1) s in
    if s.bitmap i == 0xff
    then rest
    else elim (scan_bits 8 i 0 s) [ found addr s' ↦ (addr, s') | exhausted ↦ rest ]

-- The address of the frame, or 0.
unfoldable pub pmm_alloc_frame : Pmm → ℕ × Pmm
unfolding scan_bytes take_frame
pmm_alloc_frame s = scan_bytes (max_frames / 8) 0 s

unfoldable pub pmm_free_frame : ℕ → Pmm → Pmm
pmm_free_frame addr s =
    let frame = u32 (addr / page_size) in
    if leb max_frames frame
    then s
    else if is_set s.bitmap frame
    then record s {
      bitmap = bitmap_clear s.bitmap frame;
      used_frames = u32 (s.used_frames + (2 ^ 32 - 1));
    }
    else s

unfoldable pub pmm_get_free_count : Pmm → ℕ
pmm_get_free_count s = u32 (s.total_frames + 2 ^ 32 - s.used_frames)

unfoldable pub pmm_get_total_count : Pmm → ℕ
pmm_get_total_count s = s.total_frames
