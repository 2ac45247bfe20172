-- ===== src/Syscall/Tests.antt =====
-- A system with one file, and the start and the end of a program.
use tuna_os.Base.{
  ℕ, Bool, ap, ◌∙◌, ◌≡◌, refl, inl, inr, Bool-cases, none, some, List, [], ◌∷◌, arith, true,
}
use tuna_os.Kheap.Tests.{half_used}
use tuna_os.Pmm.Tests.{three_free, two_frames}
use tuna_os.Strings.{str_eq}
use tuna_os.Vmm.Tests.{everywhere, everywhere_pmm}
use tuna_os.Ramfs.{File, ramfs_find, find_from}
use tuna_os.Elf.{Machine, read_ehdr, read_phdr, elf_load, elf_validate, load_segments}
use tuna_os.Pmm.{take_frame}
use tuna_os.Vmm.Tree.{translate, reach}
use tuna_os.Elf.Tests.{image, machine}
use tuna_os.Usermode.{map_stack}
use tuna_os.Usermode.Stack.{first_page, map_stack-step}
use tuna_os.Idt.{Frame, resumes}
use tuna_os.Syscall.{
  System, file_image, load_bytes, load_byte, until_zero, handle_exec, exec_file, start_child,
  syscall_dispatch, reload_shell, image_of,
}
use tuna_os.Syscall.Protect.{IsUserImage}
use tuna_os.Syscall.Exec.{ExecOutcome, IsStarted, exec-cases}
use tuna_os.Syscall.Exit.{Serves, exit-exec}

abbrev pub frame : (rax : ℕ) → Frame
frame rax = record {
  r15 = 0;
  r14 = 0;
  r13 = 0;
  r12 = 0;
  r11 = 0;
  r10 = 0;
  r9 = 0;
  r8 = 0;
  rbp = 0;
  rdi = 0x500000;
  rsi = 1;
  rdx = 0;
  rcx = 0;
  rbx = 5;
  rax = rax;
  vector = 128;
  error_code = 0;
  rip = 0x400100;
  cs = 0x23;
  rflags = 0x202;
  rsp = 0x801f00;
  ss = 0x1b;
}

-- A program without segments, named `a`.
abbrev program : File
program = record {
  node = 0x200010;
  name = 97 ∷ [];
  address = 0x200100;
  bytes =
      127 ∷ 69 ∷ 76 ∷ 70 ∷ 2 ∷ 1 ∷ 0 ∷ 0 ∷ 0 ∷ 0 ∷ 0 ∷ 0 ∷ 0 ∷ 0 ∷ 0 ∷ 0 ∷ 2 ∷ 0 ∷ 62 ∷ 0 ∷ 0 ∷ 0
      ∷ 0 ∷ 0 ∷ 0 ∷ 0 ∷ 64 ∷ 0 ∷ 0 ∷ 0 ∷ 0 ∷ 0 ∷ 0 ∷ 0 ∷ 0 ∷ 0 ∷ 0 ∷ 0 ∷ 0 ∷ 0 ∷ 0 ∷ 0 ∷ 0 ∷ 0 ∷ 0
      ∷ 0 ∷ 0 ∷ 0 ∷ 0 ∷ 0 ∷ 0 ∷ 0 ∷ 0 ∷ 0 ∷ 0 ∷ 0 ∷ 0 ∷ 0 ∷ 0 ∷ 0 ∷ 0 ∷ 0 ∷ 0 ∷ 0 ∷ [];
  size = 64;
}

-- With a machine and what runs; the shell's image has a segment.
abbrev pub system : Machine → (child_running : ℕ) → System
system m child_running = record {
  syscall_table = λ _. none;
  saved_frame = frame 3;
  child_running = child_running;
  shell_elf_image = some image;
  shell_elf_size = 122;
  machine = m;
  files = record { heap = half_used; file_list = program ∷ [] };
  behind = λ _ _. 0;
  keys = [];
  sent = [];
}

pub only_program :
    (name : List ℕ) (f : File) → ramfs_find name (system machine 1).files ≡ some f → f ≡ program
unfolding ramfs_find find_from
only_program name f e = elim (Bool-cases (str_eq (97 ∷ []) name)) [
  | inl there ↦ let h = rw there at e in cc
  | inr missing ↦ let h = rw missing at e in cc
]

pub program_user : IsUserImage 0x400 (image_of program (system machine 1))
unfolding read_ehdr file_image
program_user = tt

pub image_user : IsUserImage 0x400 image
unfolding read_ehdr read_phdr
image_user = (
  λ _. record {
    fits = record { file = omega arith; memory = omega arith };
    below = omega arith;
    above = omega arith;
  },
  tt,
)

-- Tables of which every entry leads to frame 1, which holds the name.
abbrev machine_everywhere : Machine
machine_everywhere = record { memory = everywhere three_free; frames = λ _. 97 }

exec-cases_example :
    ExecOutcome
      (frame 3)
      (system machine_everywhere 0)
      (syscall_dispatch (frame 3) (system machine_everywhere 0))
exec-cases_example = exec-cases (frame 3) (system machine_everywhere 0) refl

abbrev running : System
running = record (system machine_everywhere 0) {
  machine = (map_stack 2 0x900000 machine_everywhere).1;
  saved_frame = frame 3;
  child_running = 1;
}

enough : (map_stack 2 0x900000 machine_everywhere).0 ≡ true
enough =
    let (first, second) = two_frames in
    let later =
      map_stack-step 0 0x901000 9 (first_page 0x900000 3 machine_everywhere)
        (rw (everywhere_pmm (take_frame 3 three_free) 0x3000) second) refl in
    ap (λ (r : Bool × Machine). r.0)
      (map_stack-step 1 0x900000 3 machine_everywhere first refl ∙ later)
    ∙ (unfold map_stack in refl)

started_child :
    start_child 0x400000 (frame 3) (system machine_everywhere 0)
    ≡ resumes
        (record (frame 3) { rip = 0x400000; rsp = 0x902000; cs = 0x23; ss = 0x1b; rflags = 0x202 })
        running
unfolding start_child
started_child = rw enough refl

dispatched :
    syscall_dispatch (frame 3) (system machine_everywhere 0)
    ≡ start_child 0x400000 (frame 3) (system machine_everywhere 0)
unfolding syscall_dispatch handle_exec load_bytes load_byte translate reach ramfs_find find_from
    str_eq until_zero exec_file elf_load elf_validate read_ehdr file_image load_segments
dispatched = refl

started :
    IsStarted
      (frame 3)
      (system machine_everywhere 0)
      (syscall_dispatch (frame 3) (system machine_everywhere 0))
unfolding syscall_dispatch handle_exec load_bytes load_byte translate reach ramfs_find find_from
    str_eq until_zero exec_file elf_load elf_validate read_ehdr file_image load_segments
started = record {
  file = program;
  name = 97 ∷ [];
  named = refl;
  found = refl;
  program = record {
    header = omega arith;
    magic = (refl, refl, refl, refl);
    class_64 = refl;
    little_endian = refl;
    executable = refl;
    machine = refl;
    table = omega arith;
  };
  state = running;
  returns = dispatched ∙ started_child;
  saved = refl;
  running = refl;
}

-- The program writes its memory, and makes a call that there is not.
abbrev later : System
later = record (started.state) { machine = machine }

invalid_call : Serves (frame 99 ∷ []) started.state later
unfolding syscall_dispatch
invalid_call = (λ e. omega (arith, e), λ e. omega (arith, e), (machine, _, later, refl, refl))

exit-exec_example :
    (u : System) × (syscall_dispatch (frame 4) later ≡ resumes (record (frame 3) { rax = 0 }) u)
    × (u.child_running ≡ 0)
    × (u.machine ≡ reload_shell later)
exit-exec_example =
    exit-exec (frame 3) (frame 4) (system machine_everywhere 0) later (frame 99 ∷ []) started
      invalid_call refl
