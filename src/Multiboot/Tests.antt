-- ===== src/Multiboot/Tests.antt =====
-- Boot information with a tag of the loader and a memory map of two regions.
use tuna_os.Base.{take, ℕ, ◌+◌, ◌≡◌, refl, some, [], ◌∷◌, List, update, arith}
use tuna_os.Multiboot.{multiboot2_parse_mmap}
use tuna_os.Multiboot.Tags.{Tag, other, mmap, AreTags, all_regions, multiboot2_parse_mmap-take}

abbrev bytes : ℕ → ℕ
bytes =
    update
      (update
        (update
          (update
            (update
              (update
                (update (update (update (update (update (λ _. 0) 8 1) 12 9) 24 6) 28 64) 32 24) 40
                0)
              49 0x10)
            56 1)
          66 0x10)
        73 0x20)
      80 2

abbrev tags : List Tag
tags = other 1 9 ∷ mmap 24 2 ∷ []

tags_stand : AreTags bytes 8 tags
tags_stand = (
  (refl, λ e. omega (arith, e), λ e. omega (arith, e), refl),
  ((refl, refl, refl, λ e. omega (arith, e)), refl),
)

-- The two regions.
regions :
    all_regions bytes 8 tags
    ≡ record { base = 0; length = 0x1000; type = 1 }
      ∷ record { base = 0x100000; length = 0x2000; type = 2 }
      ∷ []
regions = refl

multiboot2_parse_mmap-take_example :
    multiboot2_parse_mmap 4 bytes 0 ≡ some (take 32 (all_regions bytes (0 + 8) tags))
multiboot2_parse_mmap-take_example =
    multiboot2_parse_mmap-take 4 bytes 0 tags tags_stand (omega arith)
