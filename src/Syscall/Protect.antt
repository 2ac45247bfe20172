-- ===== src/Syscall/Protect.antt =====
-- kernel/src/syscall.c: what no system call does to the memory below the programs' pages.
use tuna_os.Base.{
  ℕ, ◌+◌, ◌%◌, ◌^◌, ◌≤◌, ◌≡◌, refl, Bool, Option, none, some, List, [], ◌∷◌, if◌then◌else◌, arith,
  ◌==◌, ltb, leb, ◌||◌, u64,
}
use tuna_os.Vmm.Map.{IsWellFormed}
use tuna_os.Ramfs.{File, ramfs_find}
use tuna_os.Elf.{Machine, read_ehdr, elf_load}
use tuna_os.Elf.Load.{Protects, Protects-refl, Protects-trans, AreUser, elf_load-Protects}
use tuna_os.Usermode.{map_stack}
use tuna_os.Usermode.Stack.{map_stack-Protects}
use tuna_os.Idt.{Frame, Resume, resumes, halts, waits}
use tuna_os.Syscall.{
  System, SyscallFn, sys_read, sys_write, sys_listfiles, image_of, call_function, call_read,
  call_write, call_listfiles, exec_file, start_child, handle_exec, handle_exit, reload_shell,
  syscall_dispatch, child_stack_pages, child_stack_vaddr, answer, minus_one, load_bytes, until_zero,
  max_syscalls,
}
use tuna_os.Syscall.Cases.{if_elim, option_elim}

-- The image's segments lie at or above the page `low`, within the address space.
abbrev pub IsUserImage : (low : ℕ) → (ℕ → ℕ) → Type 0
IsUserImage low image = AreUser low (read_ehdr image).e_phnum image (read_ehdr image) 0

-- Well-formed tables, and images that stay at or above the page `low`.
pub record IsSafe (low : ℕ) (s : System) : Type 0 where
  pub well_formed : IsWellFormed s.machine.memory
  pub files :
      (name : List ℕ) (f : File) → ramfs_find name s.files ≡ some f → IsUserImage low (image_of f s)
  pub shell : (image : ℕ → ℕ) → s.shell_elf_image ≡ some image → IsUserImage low image

-- Where a call returns, the memory is protected, and the files and the shell's image are the same.
abbrev pub Keeps : (low : ℕ) → System → Resume System → Type 0
Keeps low s (resumes frame s') =
    Protects low s.machine s'.machine
    × (s'.files ≡ s.files)
    × (s'.behind ≡ s.behind)
    × (s'.shell_elf_image ≡ s.shell_elf_image)
Keeps low s halts = Unit {0}
Keeps low s waits = Unit {0}

module _ (low : ℕ) (s : System) (safe : IsSafe low s) where
  Keeps-option :
      {A : Type 0} (o : Option A) (n : Resume System) (f : A → Resume System)
      → Keeps low s n
      → ((a : A) → o ≡ some a → Keeps low s (f a))
      → Keeps low s (elim o [ none ↦ n | some a ↦ f a ])
  Keeps-option o n f k h = option_elim (Keeps low s) o n f (λ _. k) h

  Keeps-if :
      (b : Bool) (x y : Resume System)
      → Keeps low s x
      → Keeps low s y
      → Keeps low s (if b then x else y)
  Keeps-if b x y k l = if_elim (Keeps low s) b x y (λ _. k) (λ _. l)

  unchanged : Protects low s.machine s.machine
  unchanged = Protects-refl low s.machine safe.well_formed

  answered : (value : ℕ) (frame : Frame) → Keeps low s (answer value frame s)
  answered value frame = (unchanged, refl, refl, refl)

  call_read-Keeps : (frame : Frame) → Keeps low s (call_read frame s)
  unfolding call_read
  call_read-Keeps frame = by_keys s.keys
    where
      by_keys :
          (ks : List ℕ)
          → Keeps low s (elim ks [
            | [] ↦ waits
            | key ∷ keys ↦ answer (key % 2 ^ 8) frame (record s { keys = keys })
          ])
      by_keys [] = tt
      by_keys (k ∷ ks) = (unchanged, refl, refl, refl)

  call_function-Keeps : (f : SyscallFn) (frame : Frame) → Keeps low s (call_function f frame s)
  unfolding call_function call_write call_listfiles
  call_function-Keeps sys_read frame = call_read-Keeps frame
  call_function-Keeps sys_write frame =
      Keeps-if ((frame.rdi == 0) || ltb (u64 (frame.rdi + frame.rsi)) frame.rdi)
        (answer minus_one frame s) _ (answered minus_one frame)
        (Keeps-option (load_bytes frame.rsi frame.rdi s.machine) halts _ tt
          (λ bytes e. (unchanged, refl, refl, refl)))
  call_function-Keeps sys_listfiles frame = (unchanged, refl, refl, refl)

  start_child-Keeps :
      (entry : ℕ) (frame : Frame) (m : Machine)
      → low ≤ 0x900
      → Protects low s.machine m
      → Keeps low s (start_child entry frame (record s { machine = m }))
  unfolding start_child
  start_child-Keeps entry frame m below p =
      let q =
        map_stack-Protects low child_stack_pages child_stack_vaddr m p.pages.well_formed below
          (omega arith) in
      let r = Protects-trans low s.machine m _ p q in
      Keeps-if (map_stack child_stack_pages child_stack_vaddr m).0 _ _ (r, refl, refl, refl)
        (r, refl, refl, refl)

  exec_file-Keeps :
      (f : File) (frame : Frame)
      → low ≤ 0x900
      → IsUserImage low (image_of f s)
      → Keeps low s (exec_file f frame s)
  unfolding exec_file
  exec_file-Keeps f frame below user =
      let p = elf_load-Protects low (image_of f s) f.size s.machine safe.well_formed user in
      Keeps-if ((elf_load (image_of f s) f.size s.machine).0 == 0) _ _ (p, refl, refl, refl)
        (start_child-Keeps (elf_load (image_of f s) f.size s.machine).0 frame _ below p)

  handle_exec-Keeps : (frame : Frame) → low ≤ 0x900 → Keeps low s (handle_exec frame s)
  unfolding handle_exec
  handle_exec-Keeps frame below =
      Keeps-if ((frame.rdi == 0) || ((frame.rsi == 0) || ltb 127 frame.rsi))
        (answer minus_one frame s) _ (answered minus_one frame)
        (Keeps-option (load_bytes frame.rsi frame.rdi s.machine) halts _ tt λ name e.
          Keeps-option (ramfs_find (until_zero name) s.files) (answer minus_one frame s) _
            (answered minus_one frame)
            λ f found. exec_file-Keeps f frame below (safe.files (until_zero name) f found))

  reload_shell-Protects : Protects low s.machine (reload_shell s)
  unfolding reload_shell
  reload_shell-Protects = by_image s.shell_elf_image safe.shell
    where
      by_image :
          (o : Option (ℕ → ℕ))
          → ((image : ℕ → ℕ) → o ≡ some image → IsUserImage low image)
          → Protects low s.machine (elim o [
            | none ↦ s.machine
            | some image ↦ (elf_load image s.shell_elf_size s.machine).1
          ])
      by_image none h = unchanged
      by_image (some image) h =
          elf_load-Protects low image s.shell_elf_size s.machine safe.well_formed (h image refl)

  handle_exit-Keeps : (frame : Frame) → Keeps low s (handle_exit frame s)
  unfolding handle_exit
  handle_exit-Keeps frame =
      Keeps-if (s.child_running == 0) _ _ tt (reload_shell-Protects, refl, refl, refl)

  -- On well-formed tables, with the segments of the files and of the shell at or above a page that
  -- is not above the child's stack: whatever the frame holds, a system call that returns leaves the
  -- tables well-formed, the pages below translated as before, the frames in use in use with their
  -- bytes, and the files and the shell's image as they were.
  pub syscall_dispatch-Keeps :
      (frame : Frame) → low ≤ 0x900 → Keeps low s (syscall_dispatch frame s)
  unfolding syscall_dispatch
  syscall_dispatch-Keeps frame below =
      Keeps-if (frame.rax == 3) _ _ (handle_exec-Keeps frame below) (
        Keeps-if (frame.rax == 4) _ _ (handle_exit-Keeps frame) (
          Keeps-if (leb max_syscalls frame.rax) _ _ (answered minus_one frame) (
            Keeps-option (s.syscall_table frame.rax) (answer minus_one frame s) _
              (answered minus_one frame) λ f e. call_function-Keeps f frame)))
