-- ===== src/Kernel/Launch.antt =====
-- kernel/src/kernel.c: the start of the shell.
use tuna_os.Base.{
  ℕ, ◌+◌, ◌*◌, ◌^◌, ◌<◌, ◌≤◌, ◌≡◌, ◌≢◌, ◌⊎◌, inl, inr, refl, Option, none, some, arith, length,
  bit_or,
}
use tuna_os.Pmm.{page_size}
use tuna_os.Pmm.Alloc.{IsFull}
use tuna_os.Vmm.{Memory}
use tuna_os.Vmm.Tree.{translate}
use tuna_os.Vmm.Map.Leaf.{page_number}
use tuna_os.Kheap.Live.{IsWell}
use tuna_os.Kheap.Backed.{IsBacked}
use tuna_os.Ramfs.{File, ramfs_find}
use tuna_os.Elf.{Machine, read_ehdr}
use tuna_os.Elf.Header.{IsProgram}
use tuna_os.Elf.Load.{Protects}
use tuna_os.Elf.Isolation.{Remaps-IsIsolated}
use tuna_os.Syscall.Isolation.{IsContained}
use tuna_os.Usermode.{UserEntry, usermode_exec_elf}
use tuna_os.Usermode.Start.{entered, usermode_exec_elf-Enters}
use tuna_os.Syscall.{System, image_of, file_image, syscall_set_shell_elf}
use tuna_os.Syscall.Protect.{IsUserImage}
use tuna_os.Kernel.{Provided, Kernel, Outcome, enters, idles, faults, stops, launch, shell_name}
use tuna_os.Kernel.Files.{ShellFile, ShellRefused, AreEmbedded, found-AreEmbedded}

-- The first page of programs.
abbrev pub user_page : ℕ
user_page = 0x400

-- Both images are programs for the user's pages, whatever stands behind them.
abbrev pub AreUserImages : Provided → Type 0
AreUserImages p =
    (behind : ℕ → ℕ)
    → IsUserImage user_page (file_image p.hello_elf behind)
      × IsUserImage user_page (file_image p.shell_elf behind)

-- The pages below 2 MiB, where the kernel stands, are mapped to themselves by the tables
-- that the processor uses.
abbrev pub HasKernelPages : Memory → Type 0
HasKernelPages m =
    (m.cr3 ≡ m.pml4)
    × ((v : ℕ)
        → page_number v < 512
        → translate m.words m.pml4 v ≡ some (bit_or (page_number v * 4096) 3))

-- What the linker and the embedded files provide is in order: the kernel's image has an end behind
-- its start, and the files are not empty and are programs for the user's pages.
pub record IsBootable (p : Provided) : Type 0 where
  pub order : p.kernel_start < p.kernel_end
  pub image : p.kernel_end + page_size ≤ 2 ^ 44
  pub hello : (length p.hello_elf ≢ 0) × (length p.hello_elf < 2 ^ 62)
  pub shell : (length p.shell_elf ≢ 0) × (length p.shell_elf < 2 ^ 62)
  pub user : AreUserImages p

-- A machine in which the kernel goes on: its own pages, the heap with the pages behind it, and programs that
-- cannot reach what was in use in `base`.
pub record IsRunning (base : Machine) (k : Kernel) : Type 0 where
  pub kernel_pages : HasKernelPages base.memory
  pub heap : IsWell k.system.files.heap
  pub backed : IsBacked k.system.files.heap
  pub contained : IsContained user_page base k.system

-- What kept the shell from being entered.
abbrev pub NotEntered : (image : ℕ → ℕ) → (size : ℕ) → Kernel → Type 0
NotEntered image size k =
    (¬ IsProgram image size)
    ⊎ (((read_ehdr image).e_entry ≡ 0) ⊎ IsFull k.system.machine.memory.pmm)

-- The shell runs from its entry point; or it could not be entered; or it was not there.
abbrev pub IsStarted : Provided → (base : Machine) → Outcome → Type 0
IsStarted p base (enters e k) =
    IsRunning base k
    × ((image : ℕ → ℕ) × (k.system.shell_elf_image ≡ some image)
        × IsProgram image (length p.shell_elf)
        × (e ≡ entered (read_ehdr image).e_entry))
IsStarted p base (idles k) =
    IsRunning base k
    × ((image : ℕ → ℕ) × (k.system.shell_elf_image ≡ some image)
        × NotEntered image (length p.shell_elf) k)
IsStarted p base (faults k) =
    IsRunning base k × (ramfs_find shell_name k.system.files ≡ none) × ShellRefused p k.system.files
IsStarted p base stops = ◌≡◌ {A = ℕ} 0 1

abbrev launched : (image : ℕ → ℕ) → (size : ℕ) → Kernel → (Option UserEntry × Machine) → Kernel
launched image size k r = record k {
  system = record (syscall_set_shell_elf image size k.system) { machine = r.1 };
}

launch-none : (k : Kernel) → ramfs_find shell_name k.system.files ≡ none → launch k ≡ faults k
unfolding launch
launch-none k e = rw (e, launch) refl

launch-enters :
    (k : Kernel) (f : File) (e : UserEntry)
    → ramfs_find shell_name k.system.files ≡ some f
    → (usermode_exec_elf (image_of f k.system) f.size k.system.machine).0 ≡ some e
    → launch k
      ≡ enters e (
          launched
            (image_of f k.system)
            f.size
            k
            (usermode_exec_elf (image_of f k.system) f.size k.system.machine))
unfolding launch syscall_set_shell_elf
launch-enters k f e found entry = rw (found, launch, entry) refl

launch-idles :
    (k : Kernel) (f : File)
    → ramfs_find shell_name k.system.files ≡ some f
    → (usermode_exec_elf (image_of f k.system) f.size k.system.machine).0 ≡ none
    → launch k
      ≡ idles (
          launched
            (image_of f k.system)
            f.size
            k
            (usermode_exec_elf (image_of f k.system) f.size k.system.machine))
unfolding launch syscall_set_shell_elf
launch-idles k f found entry = rw (found, launch, entry) refl

some-image : (x y : ℕ → ℕ) → ◌≡◌ {A = Option (ℕ → ℕ)} (some x) (some y) → x ≡ y
some-image x y e = cc

pub user_image :
    (p : Provided) (s : System) (f : File)
    → AreUserImages p
    → (f.bytes ≡ p.hello_elf) ⊎ (f.bytes ≡ p.shell_elf)
    → IsUserImage user_page (image_of f s)
user_image p s f user (inl e) = rw e (user (s.behind f.address)).0
user_image p s f user (inr e) = rw e (user (s.behind f.address)).1

module _ (p : Provided) (user : AreUserImages p) (base : Machine) (k : Kernel)
    (running : IsRunning base k) (embedded : AreEmbedded p k.system.files.file_list) where
  launched-IsRunning :
      (f : File) (r : Option UserEntry × Machine)
      → f.bytes ≡ p.shell_elf
      → Protects user_page k.system.machine r.1
      → IsRunning base (launched (image_of f k.system) f.size k r)
  unfolding syscall_set_shell_elf
  launched-IsRunning f r shell kept = record {
    kernel_pages = running.kernel_pages;
    heap = running.heap;
    backed = running.backed;
    contained = record {
      safe = record {
        well_formed = kept.pages.well_formed;
        files = λ name g found.
            user_image p k.system g user (found-AreEmbedded p k.system.files name g embedded found);
        shell = λ image e.
            let same : image_of f k.system ≡ image = some-image _ _ e in
            rw (← same) (user_image p k.system f user (inr shell));
      };
      isolated =
          Remaps-IsIsolated base k.system.machine r.1 user_page (2 ^ 36) (omega arith) kept.pages
            kept.same_bytes running.contained.isolated;
    };
  }

  -- From `ramfs_find` on.
  pub launch-IsStarted : ShellFile p k.system.files → IsStarted p base (launch k)
  unfolding syscall_set_shell_elf
  launch-IsStarted (inr (missing, refused)) = rw (launch-none k missing) (running, missing, refused)
  launch-IsStarted (inl (f, found, shell, size)) =
      let image = image_of f k.system in
      let (kept, result) =
        usermode_exec_elf-Enters user_page image f.size k.system.machine
          running.contained.safe.well_formed (user_image p k.system f user (inr shell))
          (omega arith) in
      let r = usermode_exec_elf image f.size k.system.machine in
      elim result [
        | inl (program, _, entry) ↦
            rw (launch-enters k f _ found entry)
              (launched-IsRunning f r shell kept, (image, refl, rw size at program, refl))
        | inr (none', reason) ↦ rw (launch-idles k f found none') (
          launched-IsRunning f r shell kept,
          (image, refl, elim reason [ inl bad ↦ inl (rw size at bad) | inr other ↦ inr other ]),
        )
      ]
