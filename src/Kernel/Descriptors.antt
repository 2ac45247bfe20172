-- ===== src/Kernel/Descriptors.antt =====
-- kernel/src/kernel.c: the tables that `gdt_init`, `tss_init`, `gdt_load_tss` and `idt_init` leave,
-- together with the selectors of idt.c and usermode.c.
use tuna_os.Base.{ℕ, ◌-◌, ◌/◌, ◌%◌, ◌^◌, ◌<◌, ◌≡◌, refl, arith, ap, ◌∙◌}
use tuna_os.Gdt.{
  Gdt, Descriptor, gdt_init, gdt_load_tss, tss_low, gdt_load_tss_lem, make_descriptor, segment_base,
  segment_limit,
}
use tuna_os.Tss.{tss_init, tss_size}
use tuna_os.Idt.{kernel_code_selector}
use tuna_os.Usermode.{user_code_rpl3, user_data_rpl3}
use tuna_os.Kernel.{Provided, Kernel, tables_setup}

-- The access byte and the four flags of the descriptor that a selector names.
abbrev pub access_of : Gdt → (selector : ℕ) → ℕ × ℕ
access_of g selector =
    ((g.entries (selector / 8)).access, (g.entries (selector / 8)).granularity / 16)

initial_access :
    (address : ℕ) (g : Gdt)
    → (access_of (gdt_init address g) kernel_code_selector ≡ (0x9a, 0xa))
      × (access_of (gdt_init address g) user_code_rpl3 ≡ (0xfa, 0xa))
      × (access_of (gdt_init address g) user_data_rpl3 ≡ (0xf2, 0xc))
unfolding gdt_init make_descriptor
initial_access address g = (refl, refl, refl)

-- After the set-up of the tables, the task register leads to the base and the size of the task
-- state segment, and its descriptor is that of a present, available one (0x89) whose limit counts
-- bytes; its stack for the kernel is aligned. The selector of the gates names 64-bit code for ring 0
-- (0x9a, with the long-mode flag), and those of `iretq` name 64-bit code (0xfa) and data (0xf2) for
-- ring 3, which they ask for.
pub tables_setup_lem :
    (p : Provided) (k : Kernel)
    → p.tss_address < 2 ^ 64
    → let k' = tables_setup p k in
      (segment_base k'.gdt (k'.gdt.task_register / 8) ≡ p.tss_address)
      × (segment_limit k'.gdt (k'.gdt.task_register / 8) ≡ tss_size - 1)
      × (access_of k'.gdt k'.gdt.task_register ≡ (0x89, 0))
      × (k'.tss.rsp0 % 16 ≡ 0)
      × (access_of k'.gdt kernel_code_selector ≡ (0x9a, 0xa))
      × (access_of k'.gdt user_code_rpl3 ≡ (0xfa, 0xa))
      × (access_of k'.gdt user_data_rpl3 ≡ (0xf2, 0xc))
      × (user_code_rpl3 % 4 ≡ 3)
      × (user_data_rpl3 % 4 ≡ 3)
unfolding tables_setup tss_init
tables_setup_lem p k small =
    let g = gdt_init p.gdt_address k.gdt in
    let (base, limit, others) =
      gdt_load_tss_lem p.tss_address (tss_size - 1) g small (omega arith) in
    let (kernel, code, data') = initial_access p.gdt_address k.gdt in
    (
      base,
      limit,
      unfold gdt_load_tss tss_low in refl,
      omega arith,
      ap (λ (d : Descriptor). (d.access, d.granularity / 16))
            (others (kernel_code_selector / 8) (omega arith))
          ∙ kernel,
      ap (λ (d : Descriptor). (d.access, d.granularity / 16))
            (others (user_code_rpl3 / 8) (omega arith))
          ∙ code,
      ap (λ (d : Descriptor). (d.access, d.granularity / 16))
            (others (user_data_rpl3 / 8) (omega arith))
          ∙ data',
      refl,
      refl,
    )
