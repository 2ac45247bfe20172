-- ===== src/Kernel.antt =====
-- kernel/src/kernel.c: the kernel's entry, which sets up each part in order and starts the shell.
-- The parts share one memory, so that a step over one part passes its memory on to the others.
-- Behind the set-up only the memory of the machine goes on, as nothing allocates from the heap.
-- The addresses that the linker chooses and the files that it embeds are parameters, as is the
-- frame that the processor stores at the breakpoint. The messages are left out.
pub mod SelfTest
pub mod Pages
pub mod Files
pub mod Launch
pub mod Main
pub mod Programs
pub mod Descriptors
pub mod Tests
use tuna_os.Base.{
  ℕ, ◌+◌, ◌-◌, ◌*◌, ◌/◌, ◌==◌, ◌||◌, Bool, true, false, if◌then◌else◌, Option, none, some, List, [],
  ◌∷◌, ◌++◌, ◌>>=◌, length, u64,
}
use tuna_os.Strings.{codes}
use tuna_os.Pmm.{MmapRegion, pmm_init}
use tuna_os.Vmm.{vmm_init}
use tuna_os.Kheap.{Kheap, kheap_init, kmalloc, kfree}
use tuna_os.Gdt.{Gdt, gdt_init, gdt_load_tss}
use tuna_os.Tss.{Tss, tss_init, tss_size}
use tuna_os.Idt.{Idt, Frame, Resume, resumes, halts, waits, idt_init, isr_dispatch}
use tuna_os.Pic.{pic_init}
use tuna_os.Multiboot.{multiboot2_parse_mmap, multiboot2_get_mmap}
use tuna_os.Ramfs.{Ramfs, File, ramfs_init, ramfs_create, ramfs_find}
use tuna_os.Elf.{Machine}
use tuna_os.Usermode.{UserEntry, usermode_exec_elf}
use tuna_os.Syscall.{System, syscall_init, syscall_set_shell_elf, syscall_dispatch, image_of}

-- What the boot loader, the linker and the assembler provide.
pub record Provided : Type 0 where
  pub bytes : ℕ → ℕ
  pub multiboot2_addr : ℕ
  pub kernel_start : ℕ
  pub kernel_end : ℕ
  pub gdt_address : ℕ
  pub tss_address : ℕ
  pub idt_address : ℕ
  pub stubs : ℕ → ℕ
  pub syscall_stub : ℕ
  pub breakpoint : Frame
  pub hello_elf : List ℕ
  pub shell_elf : List ℕ

-- The parts' states; `ports` are the bytes written to the interrupt controllers.
pub record Kernel : Type 0 where
  pub gdt : Gdt
  pub tss : Tss
  pub idt : Idt
  pub ports : List (ℕ × ℕ)
  pub system : System

abbrev pub hello_name : List ℕ
hello_name = codes "hello.elf"

abbrev pub shell_name : List ℕ
shell_name = codes "shell.elf"

-- The heap and its memory, in the system.
abbrev pub with_files : Ramfs → System → System
with_files files s = record s {
  files = files;
  machine = record (s.machine) { memory = files.heap.memory };
}

abbrev pub with_heap : Kheap → System → System
with_heap heap s = with_files (record (s.files) { heap = heap }) s

-- From `pmm_init` to `kheap_init`.
unfoldable pub memory_setup : Provided → List MmapRegion → System → System
memory_setup p regions s =
    let pmm = pmm_init (multiboot2_get_mmap regions).1 p.kernel_start p.kernel_end in
    let memory = vmm_init (record (s.machine.memory) { pmm = pmm }) in
    with_heap (kheap_init (record (s.files.heap) { memory = memory })) s

-- The calls in the branch of the self-test where both allocations succeeded.
unfoldable pub self_test_body : (a b : ℕ) → Kheap → Option Kheap
self_test_body a b s = do
  freed ← kfree a s
  c ← kmalloc 32 freed
  freed' ← kfree b c.1
  kfree c.0 freed'

-- Whether the self-test of the heap passes, and the heap that it leaves. The words that it writes
-- into the blocks are no part of the headers.
unfoldable pub heap_self_test : Kheap → Option (Bool × Kheap)
heap_self_test s = do
  a ← kmalloc 64 s
  b ← kmalloc 128 a.1
  if (a.0 == 0) || (b.0 == 0)
      then some (false, b.1)
      else do tested ← self_test_body a.0 b.0 b.1; some (true, tested)

-- From `gdt_init` to `idt_init`.
unfoldable pub tables_setup : Provided → Kernel → Kernel
tables_setup p k =
    let kernel_stack_top = u64 (p.kernel_end + 0x4000) / 16 * 16 in
    record k {
      gdt = gdt_load_tss p.tss_address (tss_size - 1) (gdt_init p.gdt_address k.gdt);
      tss = tss_init kernel_stack_top;
      idt = idt_init p.idt_address p.stubs p.syscall_stub k.idt;
    }

-- The self-test of the interrupt table: `int3`, with no handler registered.
unfoldable pub trigger_breakpoint : Provided → System → Resume System
trigger_breakpoint p s =
    (isr_dispatch syscall_dispatch (λ _. none)
      (record (p.breakpoint) { vector = 3; error_code = 0 }) s).0

-- From `ramfs_init` to the second `ramfs_create`, whose results are not looked at.
unfoldable pub files_setup : Provided → Ramfs → Option Ramfs
files_setup p s = do
  hello ← ramfs_create hello_name p.hello_elf (ramfs_init s)
  shell ← ramfs_create shell_name p.shell_elf hello.1
  some shell.1

-- How the start ends: in ring 3, in the loop that halts, at fields of a null pointer, or in the
-- handler of the breakpoint.
pub data Outcome : Type 0 where
  enters : UserEntry → Kernel → Outcome
  idles : Kernel → Outcome
  faults : Kernel → Outcome
  stops : Outcome

-- From `ramfs_find` on.
unfoldable pub launch : Kernel → Outcome
launch k = elim (ramfs_find shell_name k.system.files) [
  | none ↦ faults k
  | some f ↦
      let image = image_of f k.system in
      let s = syscall_set_shell_elf image f.size k.system in
      let (entry, machine) = usermode_exec_elf image f.size s.machine in
      let k' = record k { system = record s { machine = machine } } in
      elim entry [ none ↦ idles k' | some e ↦ enters e k' ]
]

-- After the self-test of the heap.
unfoldable pub start_parts : Provided → Kernel → Option Outcome
start_parts p k =
    let ready = tables_setup p k in
    elim (trigger_breakpoint p ready.system) [
      | halts ↦ some stops
      | waits ↦ some stops
      | resumes _ s ↦ do
        let s' = syscall_init s
        files ← files_setup p s'.files
        some (launch (record ready { ports = k.ports ++ pic_init; system = with_files files s' }))
    ]

-- `none` is a walk over the tags that does not end, or a loop of the heap that does not.
unfoldable pub kernel_main : (fuel : ℕ) → Provided → Kernel → Option Outcome
kernel_main fuel p k = do
  regions ← multiboot2_parse_mmap fuel p.bytes p.multiboot2_addr
  let s = memory_setup p regions k.system
  tested ← heap_self_test s.files.heap
  start_parts p (record k { system = with_heap tested.1 s })
