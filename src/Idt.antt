-- ===== src/Idt.antt =====
-- kernel/src/idt.c and idt.h: the interrupt table and the dispatch of interrupts.
-- The handlers change a system of some type, which is a parameter, as is the dispatcher of
-- system calls. The messages on the serial line are no part of the dispatch; Idt/Report has those
-- of the exceptions. The addresses of the stubs in interrupts.S are parameters.
pub mod Gates
pub mod Report
pub mod Tests
use tuna_os.Base.{
  ℕ, zero, suc, ◌+◌, ◌-◌, ◌*◌, ◌/◌, ◌%◌, ◌^◌, ◌==◌, ltb, leb, if◌then◌else◌, true, false, not, ◌&&◌,
  ◌||◌, Bool, update, u8, u16, u32, ◌>>>◌, List, [], ◌∷◌, ◌++◌, Option, none, some,
}
use tuna_os.Pic.{pic_eoi}

abbrev pub idt_entries : ℕ
idt_entries = 256

abbrev pub isr_stub_count : ℕ
isr_stub_count = 48

abbrev pub irq_base : ℕ
irq_base = 32

abbrev pub kernel_code_selector : ℕ
kernel_code_selector = 0x08

abbrev pub idt_gate_interrupt : ℕ
idt_gate_interrupt = 0x8e

abbrev pub idt_gate_trap_user : ℕ
idt_gate_trap_user = 0xef

abbrev pub syscall_vector : ℕ
syscall_vector = 128

-- `struct interrupt_frame`.
pub record Frame : Type 0 where
  pub r15 : ℕ
  pub r14 : ℕ
  pub r13 : ℕ
  pub r12 : ℕ
  pub r11 : ℕ
  pub r10 : ℕ
  pub r9 : ℕ
  pub r8 : ℕ
  pub rbp : ℕ
  pub rdi : ℕ
  pub rsi : ℕ
  pub rdx : ℕ
  pub rcx : ℕ
  pub rbx : ℕ
  pub rax : ℕ
  pub vector : ℕ
  pub error_code : ℕ
  pub rip : ℕ
  pub cs : ℕ
  pub rflags : ℕ
  pub rsp : ℕ
  pub ss : ℕ

-- `struct idt_entry`.
pub record Gate : Type 0 where
  pub offset_low : ℕ
  pub selector : ℕ
  pub ist : ℕ
  pub type_attr : ℕ
  pub offset_mid : ℕ
  pub offset_high : ℕ
  pub reserved : ℕ

abbrev pub empty_gate : Gate
empty_gate = record {
  offset_low = 0;
  selector = 0;
  ist = 0;
  type_attr = 0;
  offset_mid = 0;
  offset_high = 0;
  reserved = 0;
}

unfoldable pub idt_set_gate : (vector address type_attr : ℕ) → (ℕ → Gate) → ℕ → Gate
idt_set_gate vector address type_attr gates = update gates vector (record {
  offset_low = address % 2 ^ 16;
  selector = kernel_code_selector;
  ist = 0;
  type_attr = type_attr;
  offset_mid = (address >>> 16) % 2 ^ 16;
  offset_high = (address >>> 32) % 2 ^ 32;
  reserved = 0;
})

-- for (i = 0; i < IDT_ENTRIES; i++) idt[i] = {0}, with `rounds` left.
unfoldable pub clear_gates : ℕ → (i : ℕ) → (ℕ → Gate) → ℕ → Gate
clear_gates zero i gates = gates
clear_gates (suc rounds) i gates = clear_gates rounds (i + 1) (update gates i empty_gate)

-- for (i = 0; i < ISR_STUB_COUNT; i++), with `rounds` left.
unfoldable pub set_stubs : ℕ → (stubs : ℕ → ℕ) → (i : ℕ) → (ℕ → Gate) → ℕ → Gate
set_stubs zero stubs i gates = gates
set_stubs (suc rounds) stubs i gates =
    set_stubs rounds stubs (i + 1) (idt_set_gate (u8 i) (stubs i) idt_gate_interrupt gates)

-- The table, and what the processor holds of its address and size.
pub record Idt : Type 0 where
  pub gates : ℕ → Gate
  pub limit : ℕ
  pub base : ℕ

-- `address` is where the table stands; it has 256 gates of 16 bytes. `stubs` is
-- `isr_stub_table`, and `syscall_stub` the address of `isr_stub_128`.
unfoldable pub idt_init : (address : ℕ) → (stubs : ℕ → ℕ) → (syscall_stub : ℕ) → Idt → Idt
idt_init address stubs syscall_stub s = record {
  gates =
      idt_set_gate syscall_vector syscall_stub idt_gate_trap_user
        (set_stubs isr_stub_count stubs 0 (clear_gates idt_entries 0 s.gates));
  limit = u16 (idt_entries * 16 - 1);
  base = address;
}

-- What a call comes to: the frame that the stub pops and the system, a halt, or waiting for a
-- key for ever.
pub data Resume (S : Type 0) : Type 0 where
  resumes : Frame → S → Resume S
  halts : Resume S
  waits : Resume S

unfoldable pub irq_register_handler :
    {A : Type 0} → (irq : ℕ) (handler : A) → (ℕ → Option A) → ℕ → Option A
irq_register_handler irq handler handlers =
    if ltb irq 16 then update handlers irq (some handler) else handlers

-- A handler that returns leaves the frame and the system behind, and `isr_dispatch` the commands
-- to the interrupt controllers.
module _ {S : Type 0} (syscall_dispatch : Frame → S → Resume S)
    (irq_handlers : ℕ → Option (Frame → S → Resume S)) where
  unfoldable pub dispatch_irq : Frame → S → Resume S
  dispatch_irq frame s = elim (irq_handlers (u8 (frame.vector - irq_base))) [
    | none ↦ resumes frame s
    | some handler ↦ handler frame s
  ]

  -- The exceptions: only a breakpoint is returned from.
  unfoldable pub dispatch_exception : Frame → S → Resume S
  dispatch_exception frame s =
      if frame.vector == 3
      then resumes frame s
      else if (frame.vector == 13) && (frame.cs % 2 ^ 2 == 3)
      then halts
      else halts

  unfoldable pub isr_dispatch : Frame → S → Resume S × List (ℕ × ℕ)
  isr_dispatch frame s =
      let irq = dispatch_irq frame s in
      let ended : List (ℕ × ℕ) = elim irq [
        | resumes _ _ ↦ pic_eoi (u8 (frame.vector - irq_base))
        | halts ↦ []
        | waits ↦ []
      ] in
      if frame.vector == syscall_vector
      then (syscall_dispatch frame s, [])
      else if leb irq_base frame.vector && ltb frame.vector (irq_base + 16)
      then (irq, ended)
      else (dispatch_exception frame s, [])
