-- ===== src/Gdt/Tests.antt =====
-- A segment that is loaded.
use tuna_os.Base.{ℕ, ◌/◌, ◌<◌, ◌≡◌, arith}
use tuna_os.Gdt.{
  Gdt, null_descriptor, gdt_init, gdt_load_tss, gdt_load_tss_lem, segment_base, segment_limit,
}

abbrev table : Gdt
table =
    gdt_init 0x105000
      (record { entries = λ _. null_descriptor; limit = 0; base = 0; task_register = 0 })

gdt_load_tss_lem_example :
    (segment_base
        (gdt_load_tss 0x10a040 103 table)
        ((gdt_load_tss 0x10a040 103 table).task_register / 8)
      ≡ 0x10a040)
    × (segment_limit
          (gdt_load_tss 0x10a040 103 table)
          ((gdt_load_tss 0x10a040 103 table).task_register / 8)
        ≡ 103)
    × ((i : ℕ) → i < 5 → (gdt_load_tss 0x10a040 103 table).entries i ≡ table.entries i)
gdt_load_tss_lem_example = gdt_load_tss_lem 0x10a040 103 table (omega arith) (omega arith)
