-- ===== src/Usermode.antt =====
-- kernel/src/usermode.c: the start of the first program in ring 3.
pub mod Stack
pub mod Start
pub mod Tests
use tuna_os.Base.{
  ℕ, zero, suc, ◌+◌, ◌*◌, ◌==◌, if◌then◌else◌, Bool, true, false, Option, none, some, bit_or,
}
use tuna_os.Pmm.{pmm_alloc_frame}
use tuna_os.Vmm.{flag_present, flag_write, flag_user, vmm_map_page}
use tuna_os.Elf.{Machine, elf_load}

-- What `iretq` pops.
pub record UserEntry : Type 0 where
  pub rip : ℕ
  pub cs : ℕ
  pub rflags : ℕ
  pub rsp : ℕ
  pub ss : ℕ

-- GDT_USER_DATA_RPL3 and GDT_USER_CODE_RPL3 of gdt.h.
abbrev pub user_data_rpl3 : ℕ
user_data_rpl3 = 0x1b

abbrev pub user_code_rpl3 : ℕ
user_code_rpl3 = 0x23

abbrev pub stack_flags : ℕ
stack_flags = bit_or (bit_or flag_present flag_write) flag_user

-- for (i = 0; i < USER_STACK_PAGES; i++), with `rounds` left, from `vaddr` on; whether the frames
-- sufficed.
unfoldable pub map_stack : ℕ → (vaddr : ℕ) → Machine → Bool × Machine
map_stack zero vaddr s = (true, s)
map_stack (suc rounds) vaddr s =
    let (frame, pmm) = pmm_alloc_frame s.memory.pmm in
    let taken = record (s.memory) { pmm = pmm } in
    let rest =
      map_stack rounds (vaddr + 4096)
        (record s { memory = vmm_map_page vaddr frame stack_flags taken }) in
    if frame == 0 then (false, record s { memory = taken }) else rest

abbrev pub user_stack_vaddr : ℕ
user_stack_vaddr = 0x800000

abbrev pub user_stack_pages : ℕ
user_stack_pages = 2

-- The entry into ring 3; `none` where the function returns to its caller.
unfoldable pub usermode_exec_elf :
    (image : ℕ → ℕ) → (size : ℕ) → Machine → Option UserEntry × Machine
usermode_exec_elf image size s =
    let (entry, loaded) = elf_load image size s in
    let (enough, mapped) = map_stack user_stack_pages user_stack_vaddr loaded in
    let started : Option UserEntry = some (record {
      rip = entry;
      cs = user_code_rpl3;
      rflags = 0x202;
      rsp = user_stack_vaddr + user_stack_pages * 4096;
      ss = user_data_rpl3;
    }) in
    if entry == 0 then (none, loaded) else if enough then (started, mapped) else (none, mapped)
