-- ===== src/Elf/Load.antt =====
-- kernel/src/elf.c: what loading an image keeps.
use tuna_os.Base.{
  ℕ, zero, suc, ◌+◌, ◌*◌, ◌/◌, ◌^◌, ◌<◌, ◌≤◌, ◌≡◌, refl, true, ◌==◌, u64, Bool-cases, inl, inr,
  arith, ◌∙◌,
}
use tuna_os.Pmm.Bitmap.{is_set}
use tuna_os.Vmm.Map.{IsWellFormed}
use tuna_os.Vmm.Range.{Remaps, Remaps-refl, Remaps-trans, Remaps-widen}
use tuna_os.Elf.{
  Machine, Ehdr, Phdr, read_ehdr, read_phdr, load_segment, load_segments, elf_load, vaddr_start,
}
use tuna_os.Elf.Header.{elf_load-cases}
use tuna_os.Elf.Contents.{Fits}
use tuna_os.Elf.Segment.{Grows, load_segment-Loads}

-- From `s` to `s'` nothing happened to the pages below `low`, nor to frames that were in use.
pub record Protects (low : ℕ) (s s' : Machine) : Type 0 where
  pub pages : Remaps low (2 ^ 36) s.memory s'.memory
  pub same_bytes : (a : ℕ) → is_set s.memory.pmm.bitmap (a / 4096) ≡ true → s'.frames a ≡ s.frames a

pub Protects-refl : (low : ℕ) (s : Machine) → IsWellFormed s.memory → Protects low s s
Protects-refl low s v = record {
  pages = Remaps-refl low (2 ^ 36) s.memory v;
  same_bytes = λ a h. refl;
}

pub Protects-trans :
    (low : ℕ) (s t u : Machine) → Protects low s t → Protects low t u → Protects low s u
Protects-trans low s t u g h = record {
  pages = Remaps-trans low (2 ^ 36) s.memory t.memory u.memory g.pages h.pages;
  same_bytes = λ a used. h.same_bytes a (g.pages.marks (a / 4096) used) ∙ g.same_bytes a used;
}

-- Pages below 2 ^ 36 are all there are.
Grows-Protects :
    (low : ℕ) (s s' : Machine) (page rounds : ℕ)
    → Grows s s' page rounds
    → low ≤ page / 4096
    → page / 4096 + rounds ≤ 2 ^ 36
    → Protects low s s'
Grows-Protects low s s' page rounds g h top = record {
  pages = Remaps-widen _ _ low (2 ^ 36) s.memory s'.memory h top g.pages;
  same_bytes = g.same_bytes;
}

-- A segment at or above the page `low` whose sums stay within the address space.
pub record IsUser (low : ℕ) (phdr : Phdr) : Type 0 where
  pub fits : Fits phdr
  pub below : phdr.p_vaddr + phdr.p_memsz + 4095 < 2 ^ 48
  pub above : low ≤ vaddr_start phdr / 4096

-- The header of a segment, and whether those from `i` on that are loaded are all user's.
abbrev pub header_at : (image : ℕ → ℕ) → Ehdr → (i : ℕ) → Phdr
header_at image ehdr i = read_phdr image (u64 (ehdr.e_phoff + i * ehdr.e_phentsize))

abbrev pub AreUser : (low rounds : ℕ) → (image : ℕ → ℕ) → Ehdr → (i : ℕ) → Type 0
AreUser low zero image ehdr i = Unit {0}
AreUser low (suc rounds) image ehdr i =
    ((header_at image ehdr i).p_type ≡ 1 → IsUser low (header_at image ehdr i))
    × AreUser low rounds image ehdr (i + 1)

segments-Protects :
    (low rounds : ℕ) (image : ℕ → ℕ) (ehdr : Ehdr) (i : ℕ) (s : Machine)
    → IsWellFormed s.memory
    → AreUser low rounds image ehdr i
    → Protects low s (load_segments rounds image ehdr i s)
unfolding load_segments
segments-Protects low zero image ehdr i s v user = Protects-refl low s v
segments-Protects low (suc rounds) image ehdr i s v user =
    elim (Bool-cases ((header_at image ehdr i).p_type == 1)) [
      | inl load ↦
          let phdr = header_at image ehdr i in
          let u = user.0 (ground arith) in
          let g = (load_segment-Loads image phdr s v u.fits u.below).0 in
          let p =
            Grows-Protects low s (load_segment image phdr s) _ _ g u.above
              (let below = u.below in omega arith) in
          rw load (
            Protects-trans low s (load_segment image phdr s) _ p (
              segments-Protects low rounds image ehdr (i + 1) (load_segment image phdr s)
                p.pages.well_formed user.1))
      | inr skip ↦ rw skip (segments-Protects low rounds image ehdr (i + 1) s v user.1)
    ]

-- `elf_load` of an image, on well-formed tables: they stay so, frames in use stay in use with
-- their bytes, and where the image's segments lie at or above a page, the pages below it are
-- translated as before.
pub elf_load-Protects :
    (low : ℕ) (image : ℕ → ℕ) (size : ℕ) (s : Machine)
    → IsWellFormed s.memory
    → AreUser low (read_ehdr image).e_phnum image (read_ehdr image) 0
    → Protects low s (elf_load image size s).1
elf_load-Protects low image size s v user = elim (elf_load-cases image size s) [
  | inl (_, e) ↦
      rw e (segments-Protects low (read_ehdr image).e_phnum image (read_ehdr image) 0 s v user)
  | inr (_, e) ↦ rw e (Protects-refl low s v)
]
