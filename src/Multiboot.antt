-- ===== src/Multiboot.antt =====
-- kernel/src/multiboot2.c and multiboot2.h: the memory map that the boot loader hands over.
-- Memory is a map from addresses to bytes. The walk over the tags runs on fuel, and `none` is a
-- walk that does not come to an end, as along a tag of size 0; the loop over the entries of a tag
-- ends because the array of regions fills up.
pub mod Tags
pub mod Print
pub mod Tests
use tuna_os.Base.{
  ℕ, zero, suc, ◌+◌, ◌-◌, ◌*◌, ◌/◌, ◌^◌, ◌==◌, ltb, if◌then◌else◌, Option, none, some, List, [],
  ◌∷◌, ◌++◌, length, u32,
}
use tuna_os.Pmm.{MmapRegion}

-- The types of tags, and of regions beside those that are available.
abbrev pub tag_type_end : ℕ
tag_type_end = 0

abbrev pub tag_type_mmap : ℕ
tag_type_mmap = 6

abbrev pub mmap_type_reserved : ℕ
mmap_type_reserved = 2

abbrev pub mmap_type_acpi_reclaim : ℕ
mmap_type_acpi_reclaim = 3

abbrev pub mmap_type_acpi_nvs : ℕ
mmap_type_acpi_nvs = 4

abbrev pub mmap_type_bad_ram : ℕ
mmap_type_bad_ram = 5

-- MMAP_MAX_REGIONS.
abbrev pub max_regions : ℕ
max_regions = 32

abbrev pub le32_at : (bytes : ℕ → ℕ) → (address : ℕ) → ℕ
le32_at bytes p = bytes p + bytes (p + 1) * 2 ^ 8 + bytes (p + 2) * 2 ^ 16 + bytes (p + 3) * 2 ^ 24

abbrev pub le64_at : (bytes : ℕ → ℕ) → (address : ℕ) → ℕ
le64_at bytes p = le32_at bytes p + le32_at bytes (p + 4) * 2 ^ 32

-- ALIGN_UP(size, 8) on 32 bits.
abbrev pub align_up : ℕ → ℕ
align_up size = u32 (size + 7) / 8 * 8

-- `struct multiboot2_mmap_entry` as a region.
abbrev pub read_entry : (bytes : ℕ → ℕ) → (entry : ℕ) → MmapRegion
read_entry bytes entry = record {
  base = le64_at bytes entry;
  length = le64_at bytes (entry + 8);
  type = le32_at bytes (entry + 16);
}

-- The loop over the entries, with `room` regions left in the array; the regions are those below
-- `region_count`.
unfoldable pub parse_entries :
    (room : ℕ)
    → (bytes : ℕ → ℕ) → (entries entries_end entry_size : ℕ) → List MmapRegion
    → List MmapRegion
parse_entries zero bytes entries entries_end entry_size regions = regions
parse_entries (suc room) bytes entries entries_end entry_size regions =
    let rest =
      parse_entries room bytes (entries + entry_size) entries_end entry_size
        (regions ++ read_entry bytes entries ∷ []) in
    if ltb entries entries_end then rest else regions

-- The loop over the tags, from `ptr` on.
unfoldable pub parse_tags :
    (fuel : ℕ) → (bytes : ℕ → ℕ) → (ptr : ℕ) → List MmapRegion → Option (List MmapRegion)
parse_tags zero bytes ptr regions = none
parse_tags (suc fuel) bytes ptr regions =
    let type = le32_at bytes ptr in
    let size = le32_at bytes (ptr + 4) in
    let parsed =
      if type == tag_type_mmap
      then parse_entries (max_regions - length regions) bytes (ptr + 16) (ptr + size)
          (le32_at bytes (ptr + 8)) regions
      else regions in
    let rest = parse_tags fuel bytes (ptr + align_up size) parsed in
    if type == tag_type_end then some regions else rest

unfoldable pub multiboot2_parse_mmap :
    (fuel : ℕ) → (bytes : ℕ → ℕ) → (address : ℕ) → Option (List MmapRegion)
multiboot2_parse_mmap fuel bytes address = parse_tags fuel bytes (address + 8) []

-- The count and the array.
unfoldable pub multiboot2_get_mmap : List MmapRegion → ℕ × List MmapRegion
multiboot2_get_mmap regions = (length regions, regions)
