-- ===== src/Idt/Tests.antt =====
-- A table of gates at 0x10000, with stubs 16 bytes apart.
use tuna_os.Base.{ℕ, ◌+◌, ◌*◌, ◌%◌, ◌^◌, ◌<◌, ◌≤◌, ◌≡◌, ◌≢◌, false, ◌⊎◌, arith}
use tuna_os.Idt.{Idt, idt_init, empty_gate}
use tuna_os.Idt.Gates.{IsActive, is_active, idt_init_lem}

abbrev stubs : ℕ → ℕ
stubs i = 0x100000 + i % 2 ^ 8 * 16

abbrev unset : Idt
unset = record { gates = λ _. empty_gate; limit = 0; base = 0 }

abbrev page_fault : ℕ
page_fault = 14

idt_init_lem_example :
    let g = (idt_init 0x10000 stubs 0x108000 unset).gates page_fault in
    ((page_fault < 48) × IsActive g (stubs page_fault) 0)
    ⊎ ((page_fault ≡ 128) × IsActive g 0x108000 3)
    ⊎ ((48 ≤ page_fault) × (page_fault ≢ 128) × (is_active g ≡ false))
idt_init_lem_example =
    idt_init_lem 0x10000 stubs 0x108000 unset page_fault (λ i. omega arith) (omega arith)
      (omega arith)
