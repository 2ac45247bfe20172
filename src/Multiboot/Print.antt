-- ===== src/Multiboot/Print.antt =====
-- kernel/src/multiboot2.c: the memory map as it is reported.
use tuna_os.Base.{
  ℕ, suc, ◌^◌, ◌<◌, ◌≡◌, refl, List, [], ◌∷◌, ◌++◌, length, Option, some, ◌==◌, if◌then◌else◌,
  arith, ◌>>=◌,
}
use tuna_os.Strings.{codes}
use tuna_os.Pmm.{MmapRegion, type_available}
use tuna_os.Multiboot.{
  mmap_type_reserved, mmap_type_acpi_reclaim, mmap_type_acpi_nvs, mmap_type_bad_ram,
}
use tuna_os.Serial.{
  serial_write, serial_write_dec_u64, serial_write_dec_u64_lem, serial_write_hex_u64,
}
use tuna_os.Serial.Feeds.{count_feeds, count_feeds-append, hex-count_feeds, dec-count_feeds}

unfoldable pub mmap_type_string : (type : ℕ) → List ℕ
mmap_type_string type =
    if type == type_available
    then codes "available"
    else if type == mmap_type_reserved
    then codes "reserved"
    else if type == mmap_type_acpi_reclaim
    then codes "ACPI reclaimable"
    else if type == mmap_type_acpi_nvs
    then codes "ACPI NVS"
    else if type == mmap_type_bad_ram
    then codes "bad memory"
    else codes "unknown"

-- The body of the loop.
unfoldable pub print_region : MmapRegion → List ℕ
print_region r =
    serial_write (codes "mmap: base=")
    ++ (serial_write_hex_u64 r.base
        ++ (serial_write (codes " length=")
            ++ (serial_write_hex_u64 r.length
                ++ (serial_write (codes " type=")
                    ++ (serial_write (mmap_type_string r.type) ++ serial_write (codes "\n"))))))

unfoldable pub print_regions : List MmapRegion → List ℕ
print_regions [] = []
print_regions (r ∷ regions) = print_region r ++ print_regions regions

-- What is sent; `none` is a number that does not fit its buffer.
unfoldable pub multiboot2_print_mmap : List MmapRegion → Option (List ℕ)
multiboot2_print_mmap regions = do
  count ← serial_write_dec_u64 (length regions)
  some (
      serial_write (codes "mmap: detected ")
      ++ (count ++ (serial_write (codes " regions\n") ++ print_regions regions)))

type-count_feeds : (type : ℕ) → count_feeds (serial_write (mmap_type_string type)) ≡ 0
unfolding mmap_type_string serial_write count_feeds
type-count_feeds type = ground arith

literals :
    (count_feeds (serial_write (codes "\n")) ≡ 1)
    × (count_feeds (serial_write (codes "mmap: base=")) ≡ 0)
    × (count_feeds (serial_write (codes " length=")) ≡ 0)
    × (count_feeds (serial_write (codes " type=")) ≡ 0)
    × (count_feeds (serial_write (codes "mmap: detected ")) ≡ 0)
    × (count_feeds (serial_write (codes " regions\n")) ≡ 1)
unfolding count_feeds serial_write
literals = (refl, refl, refl, refl, refl, refl)

region-count_feeds : (r : MmapRegion) → count_feeds (print_region r) ≡ 1
unfolding print_region
region-count_feeds r =
    let end = serial_write (codes "\n") in
    let type = serial_write (mmap_type_string r.type) in
    let base_label = serial_write (codes "mmap: base=") in
    let length_label = serial_write (codes " length=") in
    let type_label = serial_write (codes " type=") in
    let length_digits = serial_write_hex_u64 r.length in
    let base_digits = serial_write_hex_u64 r.base in
    omega (
      arith,
      count_feeds-append type end,
      count_feeds-append type_label (type ++ end),
      count_feeds-append length_digits (type_label ++ (type ++ end)),
      count_feeds-append length_label (length_digits ++ (type_label ++ (type ++ end))),
      count_feeds-append base_digits
          (length_label ++ (length_digits ++ (type_label ++ (type ++ end)))),
      count_feeds-append base_label
          (base_digits ++ (length_label ++ (length_digits ++ (type_label ++ (type ++ end))))),
      type-count_feeds r.type,
      hex-count_feeds r.length,
      hex-count_feeds r.base,
      literals,
    )

regions-count_feeds :
    (regions : List MmapRegion) → count_feeds (print_regions regions) ≡ length regions
unfolding print_regions
regions-count_feeds [] = unfold count_feeds in refl
regions-count_feeds (r ∷ regions) =
    let one = region-count_feeds r in
    let rest = regions-count_feeds regions in
    omega (arith, count_feeds-append (print_region r) (print_regions regions), one, rest)

-- The report of the memory map is sent, and is a line for the count and one for each region.
pub multiboot2_print_mmap-count_feeds :
    (regions : List MmapRegion)
    → length regions < 2 ^ 64
    → (out : List ℕ) × (multiboot2_print_mmap regions ≡ some out)
      × (count_feeds out ≡ suc (length regions))
unfolding multiboot2_print_mmap
multiboot2_print_mmap-count_feeds regions small =
    let (count, run, _) = serial_write_dec_u64_lem (length regions) small in
    let head = serial_write (codes "mmap: detected ") in
    let label = serial_write (codes " regions\n") in
    let lines = print_regions regions in
    (
      head ++ (count ++ (label ++ lines)),
      rw run refl,
      omega (
        arith,
        count_feeds-append label lines,
        count_feeds-append count (label ++ lines),
        count_feeds-append head (count ++ (label ++ lines)),
        regions-count_feeds regions,
        dec-count_feeds (length regions) count run,
        literals,
      ),
    )
