-- ===== src/Pmm/Tests.antt =====
-- Frame allocator states and runs of its operations.
use tuna_os.Base.{ℕ, ◌≡◌, refl, true, false, not, ◌||◌, List, [], ◌∷◌, ltb, arith, ◌*◌, ◌-◌, ◌↔◌}
use tuna_os.Pmm.{
  Pmm, scan_bits, scan_bytes, take_frame, MmapRegion, max_frames, page_size, all_used, pmm_init,
  pmm_alloc_frame, pmm_free_frame, pmm_get_free_count, type_available,
}
use tuna_os.Pmm.Bitmap.{IsBytes, is_set, bitmap_test, bitmap_clear, bitmap_set}
use tuna_os.Pmm.Count.{IsValid, used_below}
use tuna_os.Pmm.Alloc.{free-IsValid}
use tuna_os.Pmm.Init.{usable, covers, in_kernel, FrameNumbersFit, pmm_init_frames}
use tuna_os.Pmm.Counters.{
  Apart, count_usable, pmm_init-IsValid, pmm_init-free_count, all_used-IsBalanced,
}

-- Frames 3, 9 and 10 are free.
abbrev pub three_free : Pmm
three_free = pmm_free_frame 0xa000 (pmm_free_frame 0x9000 (pmm_free_frame 0x3000 all_used))

pub three_free-IsValid : IsValid three_free
three_free-IsValid =
    free-IsValid _ 0xa000
      (free-IsValid _ 0x9000 (free-IsValid all_used 0x3000 all_used-IsBalanced.valid))

pub three_free-used : (is_set three_free.bitmap 0 ≡ true) × (is_set three_free.bitmap 1 ≡ true)
unfolding pmm_free_frame all_used bitmap_test bitmap_clear
three_free-used = (refl, refl)

pub two_frames :
    (pmm_alloc_frame three_free ≡ (3 * page_size, take_frame 3 three_free))
    × (pmm_alloc_frame (take_frame 3 three_free)
        ≡ (9 * page_size, take_frame 9 (take_frame 3 three_free)))
unfolding pmm_alloc_frame pmm_free_frame all_used bitmap_test bitmap_clear bitmap_set scan_bytes
    scan_bits take_frame
two_frames = (refl, refl)

-- 255 pages of low memory, a reserved region, and 127 MiB above 1 MiB in two regions.
abbrev memory_map : List MmapRegion
memory_map =
    record { base = 0; length = 0x9fc00; type = type_available }
    ∷ record { base = 0xf0000; length = 0x10000; type = 2 }
    ∷ record { base = 0x100000; length = 0x7ee0000; type = type_available }
    ∷ []

memory_map-fit : FrameNumbersFit memory_map
memory_map-fit = (omega arith, (omega arith, (omega arith, tt)))

usable-none : (f : ℕ) → usable [] f ≡ false
unfolding usable
usable-none f = refl

memory_map-Apart : Apart memory_map
unfolding usable covers
memory_map-Apart = (λ f h c. ground arith, (λ f h c. ground arith, (λ f h c. usable-none f, tt)))

pmm_init_frames_example :
    IsBytes (pmm_init memory_map 0x100000 0x12a000).bitmap
    × (is_set (pmm_init memory_map 0x100000 0x12a000).bitmap 0x200 ≡ (
        not (usable memory_map 0x200)
        || (ltb (0x200 * page_size) 0x100000 || in_kernel 0x100000 0x12a000 0x200)))
pmm_init_frames_example =
    pmm_init_frames memory_map 0x100000 0x12a000 0x200 memory_map-fit (omega arith) (omega arith)
      (omega arith)

pmm_init-IsValid_example :
    IsValid (pmm_init memory_map 0x100000 0x12a000)
    × ((pmm_init memory_map 0x100000 0x12a000).total_frames ≡ count_usable memory_map max_frames)
pmm_init-IsValid_example =
    pmm_init-IsValid memory_map 0x100000 0x12a000 memory_map-fit memory_map-Apart

pmm_init-free_count_example :
    let s = pmm_init memory_map 0x100000 0x12a000 in
    (pmm_get_free_count s ≡ max_frames - used_below s.bitmap max_frames)
    ↔ (count_usable memory_map max_frames ≡ max_frames)
pmm_init-free_count_example =
    pmm_init-free_count memory_map 0x100000 0x12a000 memory_map-fit memory_map-Apart
