-- ===== src/Kernel/Main.antt =====
-- kernel/src/kernel.c: the whole start.
use tuna_os.Base.{
  ℕ, ◌≡◌, ◌⊎◌, inl, inr, refl, Bool, true, Option, none, some, List, arith, ◌∙◌, ◌++◌,
}
use tuna_os.Pmm.{MmapRegion, pmm_init}
use tuna_os.Pmm.Alloc.{IsFull}
use tuna_os.Vmm.{Memory, vmm_init}
use tuna_os.Vmm.Init.{vmm_init-IsIdentity}
use tuna_os.Kheap.{Kheap, kheap_init}
use tuna_os.Kheap.Blocks.{Block}
use tuna_os.Kheap.Chain.{IsHeap}
use tuna_os.Kheap.Backed.{first_page, last_page, Backs, Backs-trans, kheap_init-Backs}
use tuna_os.Idt.{resumes, isr_dispatch, dispatch_exception}
use tuna_os.Multiboot.{multiboot2_parse_mmap, multiboot2_get_mmap}
use tuna_os.Pic.{pic_init}
use tuna_os.Ramfs.{Ramfs}
use tuna_os.Elf.{Machine}
use tuna_os.Elf.Isolation.{IsIsolated, identity-IsIsolated, Remaps-IsIsolated}
use tuna_os.Syscall.{System, syscall_init}
use tuna_os.Kernel.{
  Provided, Kernel, Outcome, with_heap, with_files, memory_setup, heap_self_test, tables_setup,
  trigger_breakpoint, files_setup, launch, start_parts, kernel_main,
}
use tuna_os.Kernel.SelfTest.{self_test-passes}
use tuna_os.Kernel.Pages.{heap_self_test-Backs, files_setup-Backs}
use tuna_os.Kernel.Files.{found-AreEmbedded, files_setup-ShellFile, AreEmbedded}
use tuna_os.Pmm.Init.{FrameNumbersFit, pmm_init_frames}
use tuna_os.Pmm.Counters.{Apart, pmm_init-IsValid}
use tuna_os.Kernel.Launch.{
  HasKernelPages, user_image, IsBootable, IsRunning, IsStarted, AreUserImages, launch-IsStarted,
}

-- The breakpoint returns to the kernel.
breakpoint-resumes :
    (p : Provided) (s : System)
    → trigger_breakpoint p s ≡ resumes (record (p.breakpoint) { vector = 3; error_code = 0 }) s
unfolding trigger_breakpoint isr_dispatch dispatch_exception
breakpoint-resumes p s = refl

parts-equation :
    (p : Provided) (k : Kernel) (files : Ramfs)
    → files_setup p k.system.files ≡ some files
    → start_parts p k
      ≡ some (
          launch (record (tables_setup p k) {
            ports = k.ports ++ pic_init;
            system = with_files files (syscall_init k.system);
          }))
unfolding start_parts tables_setup syscall_init
parts-equation p k files e = rw (breakpoint-resumes p k.system, start_parts, e) refl

module _ (p : Provided) (k : Kernel) (regions : List MmapRegion) where
  -- The memory that the heap is set up in.
  abbrev pub first_memory : Memory
  first_memory = vmm_init (record (k.system.machine.memory) {
    pmm = pmm_init (multiboot2_get_mmap regions).1 p.kernel_start p.kernel_end;
  })

  abbrev first_heap : Kheap
  first_heap = record (k.system.files.heap) { memory = first_memory }

  -- The machine behind `vmm_init`.
  abbrev pub base : Machine
  base = record (k.system.machine) { memory = first_memory }

  -- The state before the start of the shell, with the heap after its test and the files.
  abbrev ready : (tested : Kheap) → (files : Ramfs) → Kernel
  ready tested files =
      let s = with_heap tested (memory_setup p regions k.system) in
      record (tables_setup p (record k { system = s })) {
        ports = k.ports ++ pic_init;
        system = with_files files (syscall_init s);
      }

  main-equation :
      (fuel : ℕ) (passed : Bool) (tested : Kheap) (files : Ramfs)
      → multiboot2_parse_mmap fuel p.bytes p.multiboot2_addr ≡ some regions
      → heap_self_test (kheap_init first_heap) ≡ some (passed, tested)
      → files_setup p (record (k.system.files) { heap = tested }) ≡ some files
      → kernel_main fuel p k ≡ some (launch (ready tested files))
  unfolding kernel_main memory_setup
  main-equation fuel passed tested files e e' e'' =
      rw (e, e')
        (parts-equation p (record k { system = with_heap tested (memory_setup p regions k.system) })
          files e'')

  ready-IsRunning :
      (tested : Kheap) (files : Ramfs) (bs : List Block)
      → AreUserImages p
      → k.system.shell_elf_image ≡ none
      → Backs first_heap files.heap
      → IsHeap files.heap bs
      → AreEmbedded p files.file_list
      → IsIsolated base base
      → HasKernelPages base.memory
      → IsRunning base (ready tested files)
  unfolding memory_setup syscall_init tables_setup
  ready-IsRunning tested files bs user unset g heap embedded isolated pages = record {
    kernel_pages = pages;
    heap = (bs, heap);
    backed = g.backed;
    contained = record {
      safe = record {
        well_formed = g.pages.well_formed;
        files = λ name f found.
            user_image p k.system f user (found-AreEmbedded p files name f embedded found);
        shell =
            λ image e. let clash : ◌≡◌ {A = Option (ℕ → ℕ)} none (some image) = rw unset at e in cc;
      };
      isolated =
          Remaps-IsIsolated base base (record base { memory = files.heap.memory }) first_page
            last_page (omega arith) g.pages (λ a h. refl) isolated;
    };
  }

pub kernel_main-IsStarted :
    (fuel : ℕ) (p : Provided) (k : Kernel) (regions : List MmapRegion)
    → multiboot2_parse_mmap fuel p.bytes p.multiboot2_addr ≡ some regions
    → FrameNumbersFit regions
    → Apart regions
    → IsBootable p
    → k.system.shell_elf_image ≡ none
    → (o : Outcome) × (kernel_main fuel p k ≡ some o)
      × (IsFull (first_memory p k regions).pmm ⊎ IsStarted p (base p k regions) o)
unfolding multiboot2_get_mmap
kernel_main-IsStarted fuel p k regions parsed fit apart good unset =
    let (ne, lt) = good.hello in
    let (ne', lt') = good.shell in
    let first = first_heap p k regions in
    let pmm = pmm_init regions p.kernel_start p.kernel_end in
    let (tested, bs, run, heap, _) = self_test-passes first in
    let files₀ = record (k.system.files) { heap = tested } in
    let (files, cs, run', heap', shell, embedded) =
      files_setup-ShellFile p ne ne' lt lt' files₀ bs heap in
    let (valid, _) = pmm_init-IsValid regions p.kernel_start p.kernel_end fit apart in
    let (_, zero_used) =
      pmm_init_frames regions p.kernel_start p.kernel_end 0 fit good.order good.image
        (omega arith) in
    (
      launch (ready p k regions tested files),
      main-equation p k regions fuel true tested files parsed run run',
      elim (vmm_init-IsIdentity (record (k.system.machine.memory) { pmm = pmm }) valid
          (ground (arith, zero_used))) [
            | inl full ↦ inl full
            | inr (well, loaded, identity) ↦
                let g = kheap_init-Backs first well in
                let g₁ = heap_self_test-Backs (kheap_init first) tested true g.backed run in
                let g₂ = files_setup-Backs p files₀ files lt lt' g₁.backed run' in
                let all =
                  Backs-trans first (kheap_init first) files.heap g
                    (Backs-trans (kheap_init first) tested files.heap g₁ g₂) in
                inr (
                  launch-IsStarted p good.user (base p k regions) (ready p k regions tested files)
                    (ready-IsRunning p k regions tested files cs good.user unset all heap' embedded
                      (identity-IsIsolated (base p k regions) loaded identity)
                      (loaded, λ v low. identity v ∙ ground arith))
                    embedded shell)
          ],
    )
