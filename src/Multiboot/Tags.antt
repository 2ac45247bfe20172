-- ===== src/Multiboot/Tags.antt =====
-- kernel/src/multiboot2.c: the regions of a list of tags.
use tuna_os.Base.{
  take, take-nil, append_nil, append_assoc, take-append, length-take, length-take_rest, ℕ, zero,
  suc, ◌+◌, ◌-◌, ◌*◌, ◌<◌, ◌≤◌, ◌≡◌, ◌≢◌, refl, true, false, ◌==◌, ltb, some, List, [], ◌∷◌, ◌++◌,
  length, length-append, arith, ap, sym, ◌∙◌,
}
use tuna_os.Pmm.{MmapRegion}
use tuna_os.Multiboot.{
  max_regions, le32_at, le64_at, align_up, read_entry, parse_entries, parse_tags,
  multiboot2_parse_mmap,
}

-- A tag of the memory map with its entries, or another one.
pub data Tag : Type 0 where
  mmap : (entry_size entries : ℕ) → Tag
  other : (type size : ℕ) → Tag

-- The regions of `n` entries, from an address on, and those of all tags: an entry is the base, the
-- length of 8 bytes behind it and the type behind that.
abbrev pub entries_from : (n : ℕ) → (bytes : ℕ → ℕ) → (entry entry_size : ℕ) → List MmapRegion
entries_from zero bytes entry entry_size = []
entries_from (suc n) bytes entry entry_size =
    record {
      base = le64_at bytes entry;
      length = le64_at bytes (entry + 8);
      type = le32_at bytes (entry + 16);
    }
    ∷ entries_from n bytes (entry + entry_size) entry_size

abbrev pub tag_size : Tag → ℕ
tag_size (mmap entry_size entries) = 16 + entries * entry_size
tag_size (other type size) = size

abbrev pub tag_regions : (bytes : ℕ → ℕ) → (ptr : ℕ) → Tag → List MmapRegion
tag_regions bytes ptr (mmap entry_size entries) = entries_from entries bytes (ptr + 16) entry_size
tag_regions bytes ptr (other type size) = []

abbrev pub all_regions : (bytes : ℕ → ℕ) → (ptr : ℕ) → List Tag → List MmapRegion
all_regions bytes ptr [] = []
all_regions bytes ptr (t ∷ ts) =
    tag_regions bytes ptr t ++ all_regions bytes (ptr + align_up (tag_size t)) ts

-- The header of the tag stands at `ptr`.
abbrev pub IsTag : (bytes : ℕ → ℕ) → (ptr : ℕ) → Tag → Type 0
IsTag bytes ptr (mmap entry_size entries) =
    (le32_at bytes ptr ≡ 6)
    × (le32_at bytes (ptr + 4) ≡ 16 + entries * entry_size)
    × (le32_at bytes (ptr + 8) ≡ entry_size)
    × (entry_size ≢ 0)
IsTag bytes ptr (other type size) =
    (le32_at bytes ptr ≡ type) × (type ≢ 0) × (type ≢ 6) × (le32_at bytes (ptr + 4) ≡ size)

-- The tags stand one after the other from `ptr` on, and the end tag behind them.
abbrev pub AreTags : (bytes : ℕ → ℕ) → (ptr : ℕ) → List Tag → Type 0
AreTags bytes ptr [] = le32_at bytes ptr ≡ 0
AreTags bytes ptr (t ∷ ts) = IsTag bytes ptr t × AreTags bytes (ptr + align_up (tag_size t)) ts

-- The loop over the entries takes as many as there is room for.
parse_entries-take :
    (room n : ℕ) (bytes : ℕ → ℕ) (entry stop entry_size : ℕ) (regions : List MmapRegion)
    → stop ≡ entry + n * entry_size
    → entry_size ≢ 0
    → parse_entries room bytes entry stop entry_size regions
      ≡ regions ++ take room (entries_from n bytes entry entry_size)
unfolding parse_entries
parse_entries-take zero n bytes entry stop entry_size regions e ne = sym (append_nil regions)
parse_entries-take (suc room) zero bytes entry stop entry_size regions e ne =
    let done : ltb entry stop ≡ false = ground arith in rw done (sym (append_nil regions))
parse_entries-take (suc room) (suc n) bytes entry stop entry_size regions e ne =
    let more : ltb entry stop ≡ true = ground arith in
    rw more (
      parse_entries-take room n bytes (entry + entry_size) stop entry_size _ (omega arith) ne
      ∙ append_assoc regions (read_entry bytes entry ∷ []) _)

tag_step :
    (fuel : ℕ) (bytes : ℕ → ℕ) (ptr : ℕ) (t : Tag) (regions : List MmapRegion)
    → IsTag bytes ptr t
    → parse_tags (suc fuel) bytes ptr regions
      ≡ parse_tags fuel bytes
          (ptr + align_up (tag_size t))
          (regions ++ take (max_regions - length regions) (tag_regions bytes ptr t))
unfolding parse_tags
tag_step fuel bytes ptr (mmap entry_size entries) regions (type, size, width, ne) =
    rw (type, size, width)
      (rw
        (parse_entries-take (max_regions - length regions) entries bytes (ptr + 16)
          (ptr + (16 + entries * entry_size)) entry_size regions (omega arith) ne)
        refl)
tag_step fuel bytes ptr (other type size) regions (e, ne, ne', e') =
    let not_end : (type == 0) ≡ false = ground (arith, ne) in
    let not_map : (type == 6) ≡ false = ground (arith, ne') in
    rw (e, e', not_end, not_map, take-nil (max_regions - length regions), append_nil regions) refl

tags_end :
    (fuel : ℕ) (bytes : ℕ → ℕ) (ptr : ℕ) (regions : List MmapRegion)
    → le32_at bytes ptr ≡ 0
    → parse_tags (suc fuel) bytes ptr regions ≡ some regions
unfolding parse_tags
tags_end fuel bytes ptr regions e = rw e refl

parse_tags-take :
    (fuel : ℕ) (bytes : ℕ → ℕ) (ptr : ℕ) (ts : List Tag) (regions : List MmapRegion)
    → AreTags bytes ptr ts
    → length ts < fuel
    → length regions ≤ max_regions
    → parse_tags fuel bytes ptr regions
      ≡ some (regions ++ take (max_regions - length regions) (all_regions bytes ptr ts))
parse_tags-take zero bytes ptr ts regions tags enough small = absurd (omega arith)
parse_tags-take (suc fuel) bytes ptr [] regions tags enough small =
    tags_end fuel bytes ptr regions tags
    ∙ rw (take-nil (max_regions - length regions), append_nil regions) refl
parse_tags-take (suc fuel) bytes ptr (t ∷ ts) regions (tag, tags) enough small =
    tag_step fuel bytes ptr t regions tag
    ∙ parse_tags-take fuel bytes (ptr + align_up (tag_size t)) ts _ tags (omega arith)
        (omega (arith, length-append regions taken, length-take room new))
    ∙ ap some (
        append_assoc regions taken _
        ∙ ap (λ (l : List MmapRegion). regions ++ l)
            (sym (
              take-append room _ new _ (
                omega (
                  arith,
                  length-append regions taken,
                  length-take room new,
                  length-take_rest room new,
                )))))
  where
    room : ℕ
    room = max_regions - length regions

    new : List MmapRegion
    new = tag_regions bytes ptr t

    taken : List MmapRegion
    taken = take room new

-- `multiboot2_parse_mmap` comes to an end on tags that stand in order, with fuel for one more than
-- there are; the regions are the first 32 entries of the tags of the memory map, in order.
pub multiboot2_parse_mmap-take :
    (fuel : ℕ) (bytes : ℕ → ℕ) (address : ℕ) (ts : List Tag)
    → AreTags bytes (address + 8) ts
    → length ts < fuel
    → multiboot2_parse_mmap fuel bytes address ≡ some (take 32 (all_regions bytes (address + 8) ts))
unfolding multiboot2_parse_mmap
multiboot2_parse_mmap-take fuel bytes address ts tags enough =
    parse_tags-take fuel bytes (address + 8) ts [] tags enough (omega arith)
