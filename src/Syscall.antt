-- ===== src/Syscall.antt =====
-- kernel/src/syscall.c: the calls that programs make through vector 128.
-- A buffer of the program is read through the page tables, byte by byte; a page that is not there
-- is a page fault in the kernel, which halts. Keys arrive as a list, and `sys_read` waits for ever
-- when there are no more. The kernel's own messages on the serial line are left out.
pub mod Cases
pub mod Protect
pub mod Isolation
pub mod Exec
pub mod Exit
pub mod Tests
pub mod Runs
use tuna_os.Base.{
  ℕ, zero, suc, ◌+◌, ◌-◌, ◌*◌, ◌/◌, ◌%◌, ◌^◌, ◌==◌, ltb, leb, if◌then◌else◌, true, false, not, ◌||◌,
  Bool, update, List, [], ◌∷◌, ◌++◌, Option, none, some, u64,
}
use tuna_os.Vmm.{page_mask}
use tuna_os.Vmm.Tree.{translate}
use tuna_os.Ramfs.{File, Ramfs, ramfs_find, ramfs_list}
use tuna_os.Elf.{Machine, elf_load}
use tuna_os.Usermode.{map_stack, user_code_rpl3, user_data_rpl3}
use tuna_os.Idt.{Frame, Resume, resumes, halts, waits}

abbrev pub max_syscalls : ℕ
max_syscalls = 16

-- -1 as a 64-bit number.
abbrev pub minus_one : ℕ
minus_one = 2 ^ 64 - 1

-- The functions that stand in the table.
pub data SyscallFn : Type 0 where
  sys_read : SyscallFn
  sys_write : SyscallFn
  sys_listfiles : SyscallFn

-- What programs send to the serial line: characters, or the list of the files.
pub data Sent : Type 0 where
  characters : List ℕ → Sent
  listing : List (List ℕ × ℕ) → Sent

-- The static variables, with what stands below: the memory, the files, the keys that will arrive,
-- and what was sent. `behind` is what the memory holds behind the data of a file, by the address
-- of the data and the offset from it.
pub record System : Type 0 where
  pub syscall_table : ℕ → Option SyscallFn
  pub saved_frame : Frame
  pub child_running : ℕ
  pub shell_elf_image : Option (ℕ → ℕ)
  pub shell_elf_size : ℕ
  pub machine : Machine
  pub files : Ramfs
  pub behind : ℕ → ℕ → ℕ
  pub keys : List ℕ
  pub sent : List Sent

abbrev pub child_stack_vaddr : ℕ
child_stack_vaddr = 0x900000

abbrev pub child_stack_pages : ℕ
child_stack_pages = 2

unfoldable pub syscall_register :
    (number : ℕ) → SyscallFn → (ℕ → Option SyscallFn) → ℕ → Option SyscallFn
syscall_register number handler table =
    if ltb number max_syscalls then update table number (some handler) else table

-- for (i = 0; i < MAX_SYSCALLS; i++), with `rounds` left.
unfoldable pub clear_table : ℕ → (i : ℕ) → (ℕ → Option SyscallFn) → ℕ → Option SyscallFn
clear_table zero i table = table
clear_table (suc rounds) i table = clear_table rounds (i + 1) (update table i none)

unfoldable pub syscall_init : System → System
syscall_init s = record s {
  syscall_table = syscall_register 2 sys_listfiles (
      syscall_register 1 sys_write
        (syscall_register 0 sys_read (clear_table max_syscalls 0 s.syscall_table)));
  child_running = 0;
}

unfoldable pub syscall_set_shell_elf : (image : ℕ → ℕ) → (size : ℕ) → System → System
syscall_set_shell_elf image size s = record s {
  shell_elf_image = some image;
  shell_elf_size = size;
}

-- The byte that the processor reads at a virtual address, or a page fault.
unfoldable pub load_byte : (address : ℕ) → Machine → Option ℕ
load_byte address m = elim (translate m.memory.words m.memory.cr3 address) [
  | none ↦ none
  | some entry ↦ some (m.frames (page_mask entry + address % 4096))
]

-- The bytes from an address on, `count` of them.
unfoldable pub load_bytes : (count address : ℕ) → Machine → Option (List ℕ)
load_bytes zero address m = some []
load_bytes (suc count) address m =
    let rest = load_bytes count (u64 (address + 1)) m in
    elim (load_byte address m) [
      | none ↦ none
      | some byte ↦ elim rest [ none ↦ none | some bytes ↦ some (byte ∷ bytes) ]
    ]

-- What a function of the table does: `rax` receives the value.
abbrev pub answer : (value : ℕ) → Frame → System → Resume System
answer value frame s = resumes (record frame { rax = value }) s

unfoldable pub call_read : Frame → System → Resume System
call_read frame s = elim s.keys [
  | [] ↦ waits
  | key ∷ keys ↦ answer (key % 2 ^ 8) frame (record s { keys = keys })
]

unfoldable pub call_write : Frame → System → Resume System
call_write frame s =
    let buf = frame.rdi in
    let len = frame.rsi in
    let written : Resume System = elim (load_bytes len buf s.machine) [
      | none ↦ halts
      | some bytes ↦ answer len frame (record s { sent = s.sent ++ characters bytes ∷ [] })
    ] in
    if (buf == 0) || ltb (u64 (buf + len)) buf then answer minus_one frame s else written

unfoldable pub call_listfiles : Frame → System → Resume System
call_listfiles frame s =
    answer 0 frame (record s { sent = s.sent ++ listing (ramfs_list s.files).0 ∷ [] })

unfoldable pub call_function : SyscallFn → Frame → System → Resume System
call_function sys_read frame s = call_read frame s
call_function sys_write frame s = call_write frame s
call_function sys_listfiles frame s = call_listfiles frame s

-- The string in `namebuf`: up to the first zero.
unfoldable pub until_zero : List ℕ → List ℕ
until_zero [] = []
until_zero (c ∷ cs) = let rest = until_zero cs in if c == 0 then [] else c ∷ rest

-- The bytes at `f->data`, by offset.
unfoldable pub file_image : List ℕ → (behind : ℕ → ℕ) → ℕ → ℕ
file_image [] behind offset = behind offset
file_image (b ∷ bs) behind zero = b
file_image (b ∷ bs) behind (suc offset) = file_image bs (λ k. behind (suc k)) offset

abbrev pub image_of : File → System → ℕ → ℕ
image_of f s = file_image f.bytes (s.behind f.address)

-- The end of `handle_exec`, with the stack and the frame.
unfoldable pub start_child : (entry : ℕ) → Frame → System → Resume System
start_child entry frame s =
    let (enough, machine) = map_stack child_stack_pages child_stack_vaddr s.machine in
    let mapped = record s { machine = machine } in
    if enough
    then resumes
        (record frame {
          rip = entry;
          rsp = child_stack_vaddr + child_stack_pages * 4096;
          cs = user_code_rpl3;
          ss = user_data_rpl3;
          rflags = 0x202;
        })
        (record mapped { saved_frame = frame; child_running = 1 })
    else answer minus_one frame mapped

-- A file that was found is loaded.
unfoldable pub exec_file : File → Frame → System → Resume System
exec_file f frame s =
    let (entry, machine) = elf_load (image_of f s) f.size s.machine in
    let loaded = record s { machine = machine } in
    if entry == 0 then answer minus_one frame loaded else start_child entry frame loaded

unfoldable pub handle_exec : Frame → System → Resume System
handle_exec frame s =
    let name_len = frame.rsi in
    let named : Resume System = elim (load_bytes name_len frame.rdi s.machine) [
      | none ↦ halts
      | some name ↦ elim (ramfs_find (until_zero name) s.files) [
        | none ↦ answer minus_one frame s
        | some f ↦ exec_file f frame s
      ]
    ] in
    if (frame.rdi == 0) || ((name_len == 0) || ltb 127 name_len)
    then answer minus_one frame s
    else named

-- The shell's own pages are loaded again.
unfoldable pub reload_shell : System → Machine
reload_shell s = elim s.shell_elf_image [
  | none ↦ s.machine
  | some image ↦ (elf_load image s.shell_elf_size s.machine).1
]

unfoldable pub handle_exit : Frame → System → Resume System
handle_exit frame s =
    if s.child_running == 0
    then halts
    else resumes (record (s.saved_frame) { rax = 0 })
        (record s { child_running = 0; machine = reload_shell s })

unfoldable pub syscall_dispatch : Frame → System → Resume System
syscall_dispatch frame s =
    let number = frame.rax in
    let called : Resume System = elim (s.syscall_table number) [
      | none ↦ answer minus_one frame s
      | some f ↦ call_function f frame s
    ] in
    if number == 3
    then handle_exec frame s
    else if number == 4
    then handle_exit frame s
    else if leb max_syscalls number
    then answer minus_one frame s
    else called
