-- ===== src/Kernel/Programs.antt =====
-- kernel/src/kernel.c with syscall.c: what programs can do after the start.
use tuna_os.Base.{ℕ, ◌≡◌, ◌⊎◌, inl, inr, Option, none, some, List, arith, sym, ◌∙◌}
use tuna_os.Pmm.{MmapRegion}
use tuna_os.Pmm.Alloc.{IsFull}
use tuna_os.Pmm.Init.{FrameNumbersFit}
use tuna_os.Pmm.Counters.{Apart}
use tuna_os.Multiboot.{multiboot2_parse_mmap}
use tuna_os.Usermode.{UserEntry}
use tuna_os.Syscall.{System}
use tuna_os.Syscall.Isolation.{Reach, IsContained, Reach-IsContained}
use tuna_os.Kernel.{Provided, Kernel, Outcome, enters, kernel_main}
use tuna_os.Kernel.Launch.{IsBootable, user_page}
use tuna_os.Kernel.Main.{first_memory, base, kernel_main-IsStarted}

some-outcome : (o q : Outcome) → ◌≡◌ {A = Option Outcome} (some o) (some q) → o ≡ q
some-outcome o q e = cc

-- After a start that entered the shell, whatever programs do by stores to their pages and by system
-- calls with any registers: the pages below 2 MiB lead where `vmm_init` let them lead, no page for
-- programs leads to a frame that was in use behind `vmm_init`, each byte of such a frame is as it
-- was, and the files are safe to start; unless the frames ran out in `vmm_init`. The conditions
-- are those of the start.
pub kernel_main-IsContained :
    (fuel : ℕ) (p : Provided) (k : Kernel) (regions : List MmapRegion) (e : UserEntry) (k' : Kernel)
    (t : System)
    → multiboot2_parse_mmap fuel p.bytes p.multiboot2_addr ≡ some regions
    → FrameNumbersFit regions
    → Apart regions
    → IsBootable p
    → k.system.shell_elf_image ≡ none
    → kernel_main fuel p k ≡ some (enters e k')
    → Reach k'.system t
    → IsFull (first_memory p k regions).pmm ⊎ IsContained user_page (base p k regions) t
kernel_main-IsContained fuel p k regions e k' t parsed fit apart good unset run r =
    let (o, ends, started) = kernel_main-IsStarted fuel p k regions parsed fit apart good unset in
    let same = some-outcome o (enters e k') (sym ends ∙ run) in
    elim started [
      | inl full ↦ inl full
      | inr s ↦
          let (running, _) = rw same at s in
          inr (
            Reach-IsContained user_page (base p k regions) (omega arith) (omega arith) r
              running.contained)
    ]
