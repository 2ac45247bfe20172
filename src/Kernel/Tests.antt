-- ===== src/Kernel/Tests.antt =====
-- A start of the kernel with one region of memory and two programs.
use tuna_os.Base.{
  ℕ, ◌-◌, ◌/◌, ◌%◌, ◌+◌, ◌*◌, ◌≡◌, Bool, true, none, some, List, [], ◌∷◌, update, arith,
}
use tuna_os.Pmm.{MmapRegion, type_available}
use tuna_os.Kheap.{Kheap}
use tuna_os.Kheap.Blocks.{Block}
use tuna_os.Kheap.Chain.{IsHeap}
use tuna_os.Kheap.Live.{IsLive}
use tuna_os.Kheap.Tests.{half_used, half_blocks, half_used-IsHeap}
use tuna_os.Gdt.{segment_base, segment_limit, null_descriptor}
use tuna_os.Usermode.{user_code_rpl3, user_data_rpl3}
use tuna_os.Kernel.Descriptors.{access_of, tables_setup_lem}
use tuna_os.Idt.{empty_gate, kernel_code_selector}
use tuna_os.Tss.{tss_init, tss_size}
use tuna_os.Elf.Tests.{machine}
use tuna_os.Syscall.Tests.{frame}
use tuna_os.Kernel.{Provided, Kernel, heap_self_test, tables_setup}
use tuna_os.Kernel.SelfTest.{heap_self_test-IsLive}
use tuna_os.Kernel.Main.{base}

-- A program for address 0x400000, with two bytes and six zeroes behind them.
abbrev program : List ℕ
program =
    127 ∷ 69 ∷ 76 ∷ 70 ∷ 2 ∷ 1 ∷ 0 ∷ 0 ∷ 0 ∷ 0 ∷ 0 ∷ 0 ∷ 0 ∷ 0 ∷ 0 ∷ 0 ∷ 2 ∷ 0 ∷ 62 ∷ 0 ∷ 0 ∷ 0 ∷ 0
    ∷ 0 ∷ 0 ∷ 0 ∷ 64 ∷ 0 ∷ 0 ∷ 0 ∷ 0 ∷ 0 ∷ 64 ∷ 0 ∷ 0 ∷ 0 ∷ 0 ∷ 0 ∷ 0 ∷ 0 ∷ 0 ∷ 0 ∷ 0 ∷ 0 ∷ 0 ∷ 0
    ∷ 0 ∷ 0 ∷ 0 ∷ 0 ∷ 0 ∷ 0 ∷ 0 ∷ 0 ∷ 56 ∷ 0 ∷ 1 ∷ 0 ∷ 0 ∷ 0 ∷ 0 ∷ 0 ∷ 0 ∷ 0 ∷ 1 ∷ 0 ∷ 0 ∷ 0 ∷ 6 ∷ 0
    ∷ 0 ∷ 0 ∷ 120 ∷ 0 ∷ 0 ∷ 0 ∷ 0 ∷ 0 ∷ 0 ∷ 0 ∷ 0 ∷ 0 ∷ 64 ∷ 0 ∷ 0 ∷ 0 ∷ 0 ∷ 0 ∷ 0 ∷ 0 ∷ 0 ∷ 0 ∷ 0
    ∷ 0 ∷ 0 ∷ 0 ∷ 2 ∷ 0 ∷ 0 ∷ 0 ∷ 0 ∷ 0 ∷ 0 ∷ 0 ∷ 8 ∷ 0 ∷ 0 ∷ 0 ∷ 0 ∷ 0 ∷ 0 ∷ 0 ∷ 0 ∷ 0 ∷ 0 ∷ 0 ∷ 0
    ∷ 0 ∷ 0 ∷ 0 ∷ 11 ∷ 22 ∷ []

-- A memory map of one entry, of 126 MiB above 1 MiB, and the end of the tags.
abbrev boot_bytes : ℕ → ℕ
boot_bytes =
    update
      (update (update (update (update (update (update (λ _. 0) 8 6) 12 40) 16 24) 26 0x10) 34 0xee)
        35 7)
      40 1

abbrev provided : Provided
provided = record {
  bytes = boot_bytes;
  multiboot2_addr = 0;
  kernel_start = 0x100000;
  kernel_end = 0x12a000;
  gdt_address = 0x10d000;
  tss_address = 0x10e000;
  idt_address = 0x10f000;
  stubs = λ i. 0x101000 + i * 16;
  syscall_stub = 0x102000;
  breakpoint = frame 0;
  hello_elf = program;
  shell_elf = program;
}

abbrev off : Kernel
off = record {
  gdt = record { entries = λ _. null_descriptor; limit = 0; base = 0; task_register = 0 };
  tss = tss_init 0;
  idt = record { gates = λ _. empty_gate; limit = 0; base = 0 };
  ports = [];
  system = record {
    syscall_table = λ _. none;
    saved_frame = frame 0;
    child_running = 0;
    shell_elf_image = none;
    shell_elf_size = 0;
    machine = machine;
    files = record { heap = half_used; file_list = [] };
    behind = λ _ _. 0;
    keys = [];
    sent = [];
  };
}

abbrev memory_map : List MmapRegion
memory_map = record { base = 0x100000; length = 0x7ee0000; type = type_available } ∷ []

heap_self_test-IsLive_example :
    (passed : Bool) × (t : Kheap) × (cs : List Block) × (heap_self_test half_used
      ≡ some (passed, t))
    × IsHeap t cs
    × ((x : ℕ) → IsLive half_used half_blocks x → IsLive t cs x)
    × (passed ≡ true → (x : ℕ) → IsLive t cs x → IsLive half_used half_blocks x)
heap_self_test-IsLive_example = heap_self_test-IsLive half_used half_blocks half_used-IsHeap

tables_setup_lem_example :
    let k' = tables_setup provided off in
    (segment_base k'.gdt (k'.gdt.task_register / 8) ≡ provided.tss_address)
    × (segment_limit k'.gdt (k'.gdt.task_register / 8) ≡ tss_size - 1)
    × (access_of k'.gdt k'.gdt.task_register ≡ (0x89, 0))
    × (k'.tss.rsp0 % 16 ≡ 0)
    × (access_of k'.gdt kernel_code_selector ≡ (0x9a, 0xa))
    × (access_of k'.gdt user_code_rpl3 ≡ (0xfa, 0xa))
    × (access_of k'.gdt user_data_rpl3 ≡ (0xf2, 0xc))
    × (user_code_rpl3 % 4 ≡ 3)
    × (user_data_rpl3 % 4 ≡ 3)
tables_setup_lem_example = tables_setup_lem provided off (omega arith)
