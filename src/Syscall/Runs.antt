-- ===== src/Syscall/Runs.antt =====
-- kernel/src/syscall.c: a run of programs that store and make system calls.
use tuna_os.Pmm.{Pmm, pmm_free_frame}
use tuna_os.Pmm.Tests.{three_free}
use tuna_os.Elf.{Machine}
use tuna_os.Elf.Isolation.{stored}
use tuna_os.Usermode.{map_stack}
use tuna_os.Idt.{Frame}
use tuna_os.Syscall.{System, reload_shell}
use tuna_os.Syscall.Tests.{frame, system}

-- Frames 3, 9 and 10 to 14 are free.
abbrev many_free : Pmm
many_free =
    pmm_free_frame 0xe000
      (pmm_free_frame 0xd000 (pmm_free_frame 0xc000 (pmm_free_frame 0xb000 three_free)))

-- A machine without pages for programs, and the system that runs on it.
abbrev blank : Machine
blank = record {
  memory = record { pmm = many_free; words = λ _. 0; pml4 = 0x1000; cr3 = 0x1000 };
  frames = λ _. 0;
}

abbrev first : System
first = system blank 1

-- The program ends, and the shell is loaded again.
abbrev second : System
second = record first { child_running = 0; machine = reload_shell first }

abbrev third : System
third = record second { machine = stored 0x400000 0x3007 97 second.machine }

-- And starts it.
abbrev named : Frame
named = record (frame 3) { rdi = 0x400000 }

abbrev fourth : System
fourth = record third {
  machine = (map_stack 2 0x900000 third.machine).1;
  saved_frame = named;
  child_running = 1;
}
