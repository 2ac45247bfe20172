-- ===== src/Pic/Tests.antt =====
-- Interrupts that are masked.
use tuna_os.Base.{◌≡◌, true, false, ◌==◌, if◌then◌else◌, arith}
use tuna_os.Pic.{irq_mask, irq_unmask, is_masked, irq_mask_lem}

irq_mask_lem_example :
    (is_masked 9 (irq_mask 9 (λ _. 0xb8)) ≡ (if 9 == 9 then true else is_masked 9 (λ _. 0xb8)))
    × (is_masked 9 (irq_unmask 9 (λ _. 0xb8)) ≡ (if 9 == 9 then false else is_masked 9 (λ _. 0xb8)))
irq_mask_lem_example = irq_mask_lem 9 9 (λ _. 0xb8) (omega arith) (omega arith) (λ _. omega arith)
