-- ===== src/Tss.antt =====
-- kernel/src/tss.c and tss.h: the task state segment. The messages on the serial line are left
-- out.
use tuna_os.Base.{ℕ}

-- `struct tss`, of 104 bytes.
pub record Tss : Type 0 where
  pub reserved0 : ℕ
  pub rsp0 : ℕ
  pub rsp1 : ℕ
  pub rsp2 : ℕ
  pub reserved1 : ℕ
  pub ist1 : ℕ
  pub ist2 : ℕ
  pub ist3 : ℕ
  pub ist4 : ℕ
  pub ist5 : ℕ
  pub ist6 : ℕ
  pub ist7 : ℕ
  pub reserved2 : ℕ
  pub reserved3 : ℕ
  pub iopb_offset : ℕ

abbrev pub tss_size : ℕ
tss_size = 104

unfoldable pub tss_init : (kernel_stack : ℕ) → Tss
tss_init kernel_stack = record {
  reserved0 = 0;
  rsp0 = kernel_stack;
  rsp1 = 0;
  rsp2 = 0;
  reserved1 = 0;
  ist1 = 0;
  ist2 = 0;
  ist3 = 0;
  ist4 = 0;
  ist5 = 0;
  ist6 = 0;
  ist7 = 0;
  reserved2 = 0;
  reserved3 = 0;
  iopb_offset = tss_size;
}

unfoldable pub tss_set_rsp0 : (rsp0 : ℕ) → Tss → Tss
tss_set_rsp0 rsp0 s = record s { rsp0 = rsp0 }
