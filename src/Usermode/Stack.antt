-- ===== src/Usermode/Stack.antt =====
-- kernel/src/usermode.c: the pages of a stack, beside the rest of the memory.
use tuna_os.Base.{
  ℕ, zero, suc, ◌+◌, ◌*◌, ◌/◌, ◌^◌, ◌<◌, ◌≤◌, ◌≡◌, refl, inl, inr, false, ◌==◌, arith,
}
use tuna_os.Pmm.{take_frame, page_size, pmm_alloc_frame}
use tuna_os.Pmm.Alloc.{IsLowestFree, pmm_alloc_frame_lem}
use tuna_os.Vmm.{vmm_map_page}
use tuna_os.Vmm.Descend.{lowest-ne_zero}
use tuna_os.Vmm.Map.{IsWellFormed}
use tuna_os.Vmm.Fresh.{taken, map_taken-Remaps}
use tuna_os.Elf.{Machine}
use tuna_os.Elf.Load.{Protects, Protects-refl, Protects-trans}
use tuna_os.Usermode.{map_stack, stack_flags}

abbrev pub first_page : (vaddr f : ℕ) → Machine → Machine
first_page vaddr f s = record s {
  memory = vmm_map_page vaddr (f * page_size) stack_flags (taken f s.memory);
}

pub map_stack-full :
    (rounds vaddr : ℕ) (s : Machine)
    → pmm_alloc_frame s.memory.pmm ≡ (0, s.memory.pmm)
    → map_stack (suc rounds) vaddr s ≡ (false, s)
unfolding map_stack
map_stack-full rounds vaddr s e = rw e refl

pub map_stack-step :
    (rounds vaddr f : ℕ) (s : Machine)
    → pmm_alloc_frame s.memory.pmm ≡ (f * page_size, take_frame f s.memory.pmm)
    → (f * page_size == 0) ≡ false
    → map_stack (suc rounds) vaddr s ≡ map_stack rounds (vaddr + 4096) (first_page vaddr f s)
unfolding map_stack
map_stack-step rounds vaddr f s e n = rw (e, map_stack, n) refl

pub first_page-Protects :
    (low vaddr f : ℕ) (s : Machine)
    → IsWellFormed s.memory
    → IsLowestFree s.memory.pmm f
    → low ≤ vaddr / 4096
    → vaddr < 2 ^ 48
    → Protects low s (first_page vaddr f s)
first_page-Protects low vaddr f s v least above small = record {
  pages =
      map_taken-Remaps s.memory f least low (2 ^ 36) vaddr stack_flags v refl (omega arith)
        (omega arith) (omega arith);
  same_bytes = λ a h. refl;
}

-- Mapping the stack leaves the pages below `low` and the frames in use alone.
pub map_stack-Protects :
    (low rounds vaddr : ℕ) (s : Machine)
    → IsWellFormed s.memory
    → low ≤ vaddr / 4096
    → vaddr + 4096 * rounds < 2 ^ 48
    → Protects low s (map_stack rounds vaddr s).1
map_stack-Protects low zero vaddr s v above room = unfold map_stack in Protects-refl low s v
map_stack-Protects low (suc rounds) vaddr s v above room = elim (pmm_alloc_frame_lem s.memory.pmm) [
  | inr (full, r) ↦ rw (map_stack-full rounds vaddr s r) (Protects-refl low s v)
  | inl (f, least, r) ↦
      let (_, tree) = v in
      let p = first_page-Protects low vaddr f s v least above (omega arith) in
      rw (map_stack-step rounds vaddr f s r (lowest-ne_zero s.memory f tree.zero_used least)) (
        Protects-trans low s _ _ p (
          map_stack-Protects low rounds (vaddr + 4096) (first_page vaddr f s) p.pages.well_formed
            (omega arith) (omega arith)))
]
