-- ===== src/Vmm/Tests.antt =====
-- Page tables and runs of the operations on them.
use tuna_os.Base.{
  ℕ, ◌≡◌, refl, ◌⊎◌, Bool, true, false, none, some, [], ◌==◌, if◌then◌else◌, arith, bit_or, ==_iff,
}
use tuna_os.Pmm.{Pmm}
use tuna_os.Pmm.Tests.{three_free, three_free-IsValid, three_free-used}
use tuna_os.Pmm.Alloc.{IsFull}
use tuna_os.Vmm.{
  Memory, intermediate_flags, descend, write_word, page_mask, vmm_map_page, vmm_unmap_page,
  vmm_init,
}
use tuna_os.Vmm.Entry.{is_present}
use tuna_os.Vmm.Tree.{Owner, Place, IsTree}
use tuna_os.Vmm.Map.{Maps, IsWellFormed, vmm_map_page-Maps}
use tuna_os.Vmm.Unmap.{Unmaps, vmm_unmap_page-Unmaps}
use tuna_os.Vmm.Init.{IsIdentity, vmm_init-IsIdentity}

-- An empty root in frame 1, with three free frames for the tables below.
abbrev pub empty_root : Memory
empty_root = record { pmm = three_free; words = λ _. 0; pml4 = 0x1000; cr3 = 0 }

abbrev pub only_root : Owner
only_root t = if 0x1000 == t then some [] else none

pub only_root_self : (t : ℕ) (p : Place) → only_root t ≡ some p → t ≡ 0x1000
only_root_self t p e = ground (arith, ==_iff 0x1000 t)

pub no_entry : is_present 0 ≡ false
no_entry = refl

pub empty_root-IsTree : IsTree empty_root only_root
empty_root-IsTree = record {
  counted = three_free-IsValid;
  zero_used = three_free-used.0;
  root = refl;
  table = λ t p e.
      let at = only_root_self t p e in
      record { aligned = omega arith; in_range = omega arith; marked = rw at three_free-used.1 };
  child =
      λ t p i e d h present. let clash : ◌≡◌ {A = Bool} false true = rw no_entry at present in cc;
}

present_writable : is_present 3 ≡ true
present_writable = refl

vmm_map_page-Maps_example :
    Maps empty_root 0x40201000
      (bit_or (page_mask 0xb8000) 3)
      (vmm_map_page 0x40201000 0xb8000 3 empty_root)
vmm_map_page-Maps_example =
    vmm_map_page-Maps empty_root only_root empty_root-IsTree 0x40201000 0xb8000 3 present_writable

abbrev one_page : Memory
one_page = vmm_map_page 0x40201000 0xb8000 3 empty_root

one_page-IsWellFormed : IsWellFormed one_page
one_page-IsWellFormed =
    (vmm_map_page-Maps empty_root only_root empty_root-IsTree 0x40201000 0xb8000 3
      present_writable).well_formed

vmm_unmap_page-Unmaps_example :
    Unmaps one_page one_page-IsWellFormed.0 0x40201000 (vmm_unmap_page 0x40201000 one_page)
vmm_unmap_page-Unmaps_example =
    vmm_unmap_page-Unmaps one_page one_page-IsWellFormed.0 one_page-IsWellFormed.1 0x40201000

vmm_init-IsIdentity_example :
    let s' = vmm_init empty_root in
    IsFull s'.pmm ⊎ (IsWellFormed s' × (s'.cr3 ≡ s'.pml4) × IsIdentity 1024 s')
vmm_init-IsIdentity_example = vmm_init-IsIdentity empty_root three_free-IsValid three_free-used.0

-- A root of which every entry leads to itself needs no new tables.
abbrev pub everywhere : Pmm → Memory
everywhere p = record { pmm = p; words = λ _. 0x1007; pml4 = 0x1000; cr3 = 0x1000 }

pub everywhere_pmm : (p : Pmm) (phys : ℕ) → (vmm_map_page 0x900000 phys 7 (everywhere p)).pmm ≡ p
unfolding vmm_map_page descend write_word intermediate_flags
everywhere_pmm p phys = refl
