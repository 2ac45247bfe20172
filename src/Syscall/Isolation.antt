-- ===== src/Syscall/Isolation.antt =====
-- kernel/src/syscall.c: programs and the kernel in turn.
use tuna_os.Base.{ℕ, ◌^◌, ap, ◌≤◌, ◌<◌, ◌+◌, ◌/◌, ◌≡◌, ◌≢◌, true, some, [], ◌∷◌, ◌++◌, sym, ◌∙◌}
use tuna_os.Pmm.{Pmm}
use tuna_os.Pmm.Bitmap.{is_set}
use tuna_os.Vmm.{has_flag, flag_user, flag_write}
use tuna_os.Vmm.Tree.{translate}
use tuna_os.Ramfs.{ramfs_find}
use tuna_os.Elf.{Machine}
use tuna_os.Elf.Isolation.{IsIsolated, Remaps-IsIsolated, stored, stored-IsIsolated}
use tuna_os.Idt.{Frame, resumes}
use tuna_os.Syscall.{System, file_image, image_of, syscall_dispatch}
use tuna_os.Syscall.Protect.{IsSafe, Keeps, syscall_dispatch-Keeps}

-- One step: a program makes a system call with any registers, or stores a byte in a page that is
-- for programs and can be written; or a key arrives.
pub data Step (s : System) : System → Type 0 where
  calls : (frame after : Frame) (t : System) → syscall_dispatch frame s ≡ resumes after t → Step s t
  stores :
      (address entry byte : ℕ)
      → translate s.machine.memory.words s.machine.memory.cr3 address ≡ some entry
      → has_flag entry flag_user ≡ true
      → has_flag entry flag_write ≡ true
      → Step s (record s { machine = stored address entry byte s.machine })
  types : (key : ℕ) → Step s (record s { keys = s.keys ++ key ∷ [] })

pub data Reach (s : System) : System → Type 0 where
  here : Reach s s
  next : {t u : System} → Reach s t → Step t u → Reach s u

-- What programs can not undo: the files and images are safe, and the memory is isolated.
pub record IsContained (low : ℕ) (base : Machine) (s : System) : Type 0 where
  pub safe : IsSafe low s
  pub isolated : IsIsolated base s.machine

kept-IsContained :
    (low : ℕ) (base : Machine) (frame : Frame) (s t : System)
    → 512 ≤ low
    → Keeps low s (resumes frame t)
    → IsContained low base s
    → IsContained low base t
kept-IsContained low base frame s t above (p, files, behind, shell) c = record {
  safe = record {
    well_formed = p.pages.well_formed;
    files = λ name f found.
        let e : image_of f t ≡ image_of f s =
          ap (λ (b : ℕ → ℕ → ℕ). file_image f.bytes (b f.address)) behind in
        rw e (c.safe.files name f (ap (ramfs_find name) (sym files) ∙ found));
    shell = λ image e. c.safe.shell image (sym shell ∙ e);
  };
  isolated =
      Remaps-IsIsolated base s.machine t.machine low (2 ^ 36) above p.pages p.same_bytes c.isolated;
}

pub Step-IsContained :
    (low : ℕ) (base : Machine) {s t : System}
    → 512 ≤ low
    → low ≤ 0x900
    → Step s t
    → IsContained low base s
    → IsContained low base t
Step-IsContained low base {s} above below (calls frame after t run) c =
    kept-IsContained low base after s t above
      (rw run at (syscall_dispatch-Keeps low s c.safe frame below)) c
Step-IsContained low base {s} above below (stores address entry byte there user write) c = record {
  safe = record { well_formed = c.safe.well_formed; files = c.safe.files; shell = c.safe.shell };
  isolated = stored-IsIsolated base s.machine address entry byte there user c.isolated;
}
Step-IsContained low base above below (types key) c = record {
  safe = record { well_formed = c.safe.well_formed; files = c.safe.files; shell = c.safe.shell };
  isolated = c.isolated;
}

-- By induction on the steps.
pub Reach-IsContained :
    (low : ℕ) (base : Machine) {s t : System}
    → 512 ≤ low
    → low ≤ 0x900
    → Reach s t
    → IsContained low base s
    → IsContained low base t
Reach-IsContained low base above below here c = c
Reach-IsContained low base above below (next r step) c =
    Step-IsContained low base above below step (Reach-IsContained low base above below r c)

-- The 16 KiB below an address are in use.
abbrev pub HoldsStack : (top : ℕ) → Pmm → Type 0
HoldsStack top p = (a : ℕ) → a < top → top ≤ a + 0x4000 → is_set p.bitmap (a / 4096) ≡ true

-- A page for programs leads below 2 MiB and not to the stack of the kernel.
abbrev pub IsApart : (top : ℕ) → System → Type 0
IsApart top s =
    (v e : ℕ)
    → translate s.machine.memory.words s.machine.memory.pml4 v ≡ some e
    → has_flag e flag_user ≡ true
    → (e / 4096 < 512) × ((a : ℕ) → a < top → top ≤ a + 0x4000 → a / 4096 ≢ e / 4096)
