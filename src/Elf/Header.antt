-- ===== src/Elf/Header.antt =====
-- kernel/src/elf.c: which images are refused.
use tuna_os.Base.{
  ℕ, ◌+◌, ◌*◌, ◌^◌, ◌≤◌, ◌≡◌, Bool, sym, ◌∙◌, refl, ◌⊎◌, inl, inr, true, false, arith, Bool-cases,
  ltb, u64, if◌then◌else◌,
}
use tuna_os.Elf.{Machine, ehdr_size, read_ehdr, elf_validate, load_segments, elf_load}

-- Where the table of program headers ends.
abbrev headers_end : (image : ℕ → ℕ) → ℕ
headers_end image =
    (read_ehdr image).e_phoff + (read_ehdr image).e_phnum * (read_ehdr image).e_phentsize

-- A statically linked program for this processor, whose program headers end within the image or
-- beyond 2 ^ 64, where their end is taken modulo 2 ^ 64.
pub record IsProgram (image : ℕ → ℕ) (size : ℕ) : Type 0 where
  pub header : ehdr_size ≤ size
  pub magic : (image 0 ≡ 0x7f) × (image 1 ≡ 69) × (image 2 ≡ 76) × (image 3 ≡ 70)
  pub class_64 : image 4 ≡ 2
  pub little_endian : image 5 ≡ 1
  pub executable : (read_ehdr image).e_type ≡ 2
  pub machine : (read_ehdr image).e_machine ≡ 62
  pub table :
      (headers_end image ≤ size) ⊎ ((2 ^ 64 ≤ headers_end image) × (u64 (headers_end image) ≤ size))

validate_sound :
    (image : ℕ → ℕ) (size : ℕ)
    → elf_validate (read_ehdr image) size ≡ true
    → (ehdr_size ≤ size)
      × ((image 0 ≡ 0x7f) × (image 1 ≡ 69) × (image 2 ≡ 76) × (image 3 ≡ 70))
      × (image 4 ≡ 2)
      × (image 5 ≡ 1)
      × ((read_ehdr image).e_type ≡ 2)
      × ((read_ehdr image).e_machine ≡ 62)
unfolding elf_validate read_ehdr
validate_sound image size h = ground arith

validate_complete :
    (image : ℕ → ℕ) (size : ℕ) → IsProgram image size → elf_validate (read_ehdr image) size ≡ true
unfolding elf_validate read_ehdr
validate_complete image size p =
    let h = p.header in
    let m = p.magic in
    let c = p.class_64 in
    let l = p.little_endian in let e = p.executable in let a = p.machine in ground arith

elf_load-refused :
    (image : ℕ → ℕ) (size : ℕ) (s : Machine)
    → elf_validate (read_ehdr image) size ≡ false
    → elf_load image size s ≡ (0, s)
unfolding elf_load
elf_load-refused image size s h = rw h refl

elf_load-table :
    (image : ℕ → ℕ) (size : ℕ) (s : Machine)
    → elf_validate (read_ehdr image) size ≡ true
    → let ehdr = read_ehdr image in
      elf_load image size s ≡ (
        if ltb size (u64 (ehdr.e_phoff + ehdr.e_phnum * ehdr.e_phentsize))
        then (0, s)
        else (ehdr.e_entry, load_segments ehdr.e_phnum image ehdr 0 s))
unfolding elf_load
elf_load-table image size s h = rw h refl

pub elf_load-cases :
    (image : ℕ → ℕ) (size : ℕ) (s : Machine)
    → (IsProgram image size
        × (elf_load image size s ≡ (
          (read_ehdr image).e_entry,
          load_segments (read_ehdr image).e_phnum image (read_ehdr image) 0 s,
        )))
      ⊎ ((¬ IsProgram image size) × (elf_load image size s ≡ (0, s)))
elf_load-cases image size s = elim (Bool-cases (elf_validate (read_ehdr image) size)) [
  | inr bad ↦ inr (
    λ p. let clash : ◌≡◌ {A = Bool} true false = sym (validate_complete image size p) ∙ bad in cc,
    elf_load-refused image size s bad,
  )
  | inl good ↦ elim (Bool-cases (ltb size end)) [
    | inl beyond ↦ inr (
      λ p. let t = p.table in absurd (ground arith),
      elf_load-table image size s good ∙ rw beyond refl,
    )
    | inr within ↦
        let (h, m, c, l, e, a) = validate_sound image size good in
        inl (
          record {
            header = h;
            magic = m;
            class_64 = c;
            little_endian = l;
            executable = e;
            machine = a;
            table = elim (Bool-cases (ltb (headers_end image) (2 ^ 64))) [
              | inl small ↦ inl (ground arith)
              | inr wraps ↦ inr (ground arith, ground arith)
            ];
          },
          elf_load-table image size s good ∙ rw within refl,
        )
  ]
]
  where
    end : ℕ
    end =
        u64 ((read_ehdr image).e_phoff + (read_ehdr image).e_phnum * (read_ehdr image).e_phentsize)
