-- ===== src/Usermode/Start.antt =====
-- kernel/src/usermode.c: the ways in which the start of a program ends.
use tuna_os.Base.{
  ℕ, zero, suc, ◌+◌, ◌*◌, ◌/◌, ◌^◌, ◌<◌, ◌≤◌, ◌≡◌, ◌≢◌, refl, ◌⊎◌, inl, inr, true, false, Option,
  none, some, ◌==◌, arith, Bool-cases,
}
use tuna_os.Pmm.Alloc.{IsFull, pmm_alloc_frame_lem}
use tuna_os.Vmm.Descend.{lowest-ne_zero}
use tuna_os.Vmm.Map.{IsWellFormed}
use tuna_os.Elf.{Machine, read_ehdr, elf_load}
use tuna_os.Elf.Header.{IsProgram, elf_load-cases}
use tuna_os.Elf.Load.{Protects, Protects-trans, AreUser, elf_load-Protects}
use tuna_os.Usermode.{
  UserEntry, map_stack, usermode_exec_elf, user_stack_vaddr, user_stack_pages, user_code_rpl3,
  user_data_rpl3,
}
use tuna_os.Usermode.Stack.{
  first_page, map_stack-full, map_stack-step, first_page-Protects, map_stack-Protects,
}

-- Without a result there is no frame left.
pub map_stack-cases :
    (rounds vaddr : ℕ) (s : Machine)
    → IsWellFormed s.memory
    → vaddr + 4096 * rounds < 2 ^ 48
    → ((map_stack rounds vaddr s).0 ≡ true)
      ⊎ (((map_stack rounds vaddr s).0 ≡ false) × IsFull (map_stack rounds vaddr s).1.memory.pmm)
map_stack-cases zero vaddr s v room = unfold map_stack in inl refl
map_stack-cases (suc rounds) vaddr s v room = elim (pmm_alloc_frame_lem s.memory.pmm) [
  | inr (full, r) ↦ rw (map_stack-full rounds vaddr s r) (inr (refl, full))
  | inl (f, least, r) ↦
      let (_, tree) = v in
      let p = first_page-Protects 0 vaddr f s v least (omega arith) (omega arith) in
      rw (map_stack-step rounds vaddr f s r (lowest-ne_zero s.memory f tree.zero_used least)) (
        map_stack-cases rounds (vaddr + 4096) (first_page vaddr f s) p.pages.well_formed
          (omega arith))
]

-- What `iretq` pops for a program with that entry point.
abbrev pub entered : (entry : ℕ) → UserEntry
entered entry = record {
  rip = entry;
  cs = user_code_rpl3;
  rflags = 0x202;
  rsp = user_stack_vaddr + user_stack_pages * 4096;
  ss = user_data_rpl3;
}

-- The program is entered, or the function returns, for one of three reasons.
abbrev pub Enters : (image : ℕ → ℕ) → (size : ℕ) → Option UserEntry × Machine → Type 0
Enters image size r =
    (IsProgram image size
      × ((read_ehdr image).e_entry ≢ 0)
      × (r.0 ≡ some (entered (read_ehdr image).e_entry)))
    ⊎ ((r.0 ≡ none)
        × ((¬ IsProgram image size) ⊎ (((read_ehdr image).e_entry ≡ 0) ⊎ IsFull r.1.memory.pmm)))

no_entry :
    (image : ℕ → ℕ) (size : ℕ) (s : Machine)
    → ((elf_load image size s).0 == 0) ≡ true
    → usermode_exec_elf image size s ≡ (none, (elf_load image size s).1)
unfolding usermode_exec_elf
no_entry image size s e = rw e refl

no_stack :
    (image : ℕ → ℕ) (size : ℕ) (s : Machine)
    → ((elf_load image size s).0 == 0) ≡ false
    → (map_stack user_stack_pages user_stack_vaddr (elf_load image size s).1).0 ≡ false
    → usermode_exec_elf image size s
      ≡ (none, (map_stack user_stack_pages user_stack_vaddr (elf_load image size s).1).1)
unfolding usermode_exec_elf
no_stack image size s e e' = rw (e, e') refl

with_stack :
    (image : ℕ → ℕ) (size : ℕ) (s : Machine)
    → ((elf_load image size s).0 == 0) ≡ false
    → (map_stack user_stack_pages user_stack_vaddr (elf_load image size s).1).0 ≡ true
    → usermode_exec_elf image size s ≡ (
      some (entered (elf_load image size s).0),
      (map_stack user_stack_pages user_stack_vaddr (elf_load image size s).1).1,
    )
unfolding usermode_exec_elf
with_stack image size s e e' = rw (e, e') refl

-- `usermode_exec_elf` of an image whose segments lie at or above a page that is not above the
-- stack, on well-formed tables: pages below that page and frames in use are left alone, and
-- either the program is entered in ring 3 at its entry point with the stack's end as its stack,
-- or the function returns, where the image is no program, its entry point is 0 or there is no
-- frame for the stack.
pub usermode_exec_elf-Enters :
    (low : ℕ) (image : ℕ → ℕ) (size : ℕ) (s : Machine)
    → IsWellFormed s.memory
    → AreUser low (read_ehdr image).e_phnum image (read_ehdr image) 0
    → low ≤ user_stack_vaddr / 4096
    → Protects low s (usermode_exec_elf image size s).1
      × Enters image size (usermode_exec_elf image size s)
usermode_exec_elf-Enters low image size s v user below =
    let p = elf_load-Protects low image size s v user in
    let loaded = (elf_load image size s).1 in
    let q =
      map_stack-Protects low user_stack_pages user_stack_vaddr loaded p.pages.well_formed below
        (omega arith) in
    let both = Protects-trans low s loaded _ p q in
    elim (elf_load-cases image size s) [
      | inr (bad, e) ↦
          let zero_entry : ((elf_load image size s).0 == 0) ≡ true = rw e refl in
          rw (no_entry image size s zero_entry) (p, inr (refl, inl bad))
      | inl (program, e) ↦
          let at : (elf_load image size s).0 ≡ (read_ehdr image).e_entry = rw e refl in
          elim (Bool-cases ((elf_load image size s).0 == 0)) [
            | inl nowhere ↦
                rw (no_entry image size s nowhere)
                  (p, inr (refl, inr (inl (ground (arith, at, nowhere)))))
            | inr entry ↦
                elim (map_stack-cases user_stack_pages user_stack_vaddr loaded p.pages.well_formed
                  (omega arith)) [
                    | inl enough ↦
                        rw (with_stack image size s entry enough)
                          (both, inl (program, ground (arith, at, entry), rw at refl))
                    | inr (few, full) ↦
                        rw (no_stack image size s entry few) (both, inr (refl, inr (inr full)))
                  ]
          ]
    ]
