-- ===== src/Task/Context.antt =====
-- kernel/src/switch.S: the context switch, over the words of the stacks.
use tuna_os.Base.{ℕ, ◌+◌, ◌-◌, ◌<◌, ◌≤◌, ◌≡◌, arith, sym, ◌∙◌, ap, ◌⊎◌, inr, update}
use tuna_os.Task.{initial_stack, task_stack_size}

-- The registers that the routine saves, with the stack pointer, the instruction pointer and the
-- words of memory by address.
pub record Cpu : Type 0 where
  pub rbx : ℕ
  pub rbp : ℕ
  pub r12 : ℕ
  pub r13 : ℕ
  pub r14 : ℕ
  pub r15 : ℕ
  pub rsp : ℕ
  pub rip : ℕ
  pub words : ℕ → ℕ

abbrev pub push_word : ℕ → Cpu → Cpu
push_word v c = record c { rsp = c.rsp - 8; words = update c.words (c.rsp - 8) v }

-- `call`, with the address behind the instruction.
abbrev pub call : (return_address : ℕ) → Cpu → Cpu
call return_address c = push_word return_address c

-- The six pushes.
unfoldable pub save_registers : Cpu → Cpu
save_registers c =
    push_word c.r15
      (push_word c.r14 (push_word c.r13 (push_word c.r12 (push_word c.rbp (push_word c.rbx c)))))

-- The six pops and `ret`.
unfoldable pub restore_registers : Cpu → Cpu
restore_registers c = record c {
  r15 = c.words c.rsp;
  r14 = c.words (c.rsp + 8);
  r13 = c.words (c.rsp + 16);
  r12 = c.words (c.rsp + 24);
  rbp = c.words (c.rsp + 32);
  rbx = c.words (c.rsp + 40);
  rip = c.words (c.rsp + 48);
  rsp = c.rsp + 56;
}

-- The stack pointer that is stored for the old task, and the processor in the new one.
unfoldable pub switch_to : (new_rsp : ℕ) → Cpu → ℕ × Cpu
switch_to new_rsp c =
    let saved = save_registers c in (saved.rsp, restore_registers (record saved { rsp = new_rsp }))

-- What the pushes write, for a stack with room for them.
module _ (c : Cpu) (room : 48 ≤ c.rsp) where
  saved-rsp : (save_registers c).rsp + 48 ≡ c.rsp
  unfolding save_registers
  saved-rsp = omega arith

  saved-outside : (a : ℕ) → (a < c.rsp - 48) ⊎ (c.rsp ≤ a) → (save_registers c).words a ≡ c.words a
  unfolding save_registers
  saved-outside a h = ground arith

  saved-words :
      let w = (save_registers c).words in
      (w (c.rsp - 48) ≡ c.r15)
      × (w (c.rsp - 40) ≡ c.r14)
      × (w (c.rsp - 32) ≡ c.r13)
      × (w (c.rsp - 24) ≡ c.r12)
      × (w (c.rsp - 16) ≡ c.rbp)
      × (w (c.rsp - 8) ≡ c.rbx)
  unfolding save_registers
  saved-words = (ground arith, ground arith, ground arith, ground arith, ground arith, ground arith)

-- The frame of a new task.
initial_stack_lem :
    (trampoline entry stack : ℕ) (words : ℕ → ℕ)
    → let (sp, w) = initial_stack trampoline entry stack words in
      (sp ≡ stack + 8136) × (w (sp + 48) ≡ trampoline) × (w (sp + 24) ≡ entry)
unfolding initial_stack
initial_stack_lem trampoline entry stack words = (omega arith, ground arith, ground arith)

-- The first switch to a task that `task_create` made, from a stack that stands apart from the new
-- one, starts the trampoline on the whole stack with the entry function in R12.
pub switch_to-initial :
    (trampoline entry stack : ℕ) (words : ℕ → ℕ) (c : Cpu)
    → c.words ≡ (initial_stack trampoline entry stack words).1
    → 48 ≤ c.rsp
    → (stack + task_stack_size ≤ c.rsp - 48) ⊎ (c.rsp ≤ stack)
    → let new = (switch_to (initial_stack trampoline entry stack words).0 c).1 in
      (new.rip ≡ trampoline) × (new.r12 ≡ entry) × (new.rsp ≡ stack + task_stack_size)
unfolding switch_to restore_registers
switch_to-initial trampoline entry stack words c e room apart =
    let (at, ret, reg) = initial_stack_lem trampoline entry stack words in
    let sp = (initial_stack trampoline entry stack words).0 in
    (
      saved-outside c room (sp + 48) (ground (arith, at, apart))
          ∙ ap (λ (w : ℕ → ℕ). w (sp + 48)) e
          ∙ ret,
      saved-outside c room (sp + 24) (ground (arith, at, apart))
          ∙ ap (λ (w : ℕ → ℕ). w (sp + 24)) e
          ∙ reg,
      omega (arith, at),
    )

-- Whoever switches back to a task, from a stack that stands apart from its frame and with the
-- frame as it was left, gives it the registers that it had, behind its call.
pub switch_to-back :
    (return_address new_rsp : ℕ) (c d : Cpu)
    → 56 ≤ c.rsp
    → ((a : ℕ)
        → c.rsp - 56 ≤ a
        → a < c.rsp
        → d.words a ≡ (switch_to new_rsp (call return_address c)).1.words a)
    → 48 ≤ d.rsp
    → (c.rsp ≤ d.rsp - 48) ⊎ (d.rsp ≤ c.rsp - 56)
    → let back = (switch_to (switch_to new_rsp (call return_address c)).0 d).1 in
      (back.rbx ≡ c.rbx)
      × (back.rbp ≡ c.rbp)
      × (back.r12 ≡ c.r12)
      × (back.r13 ≡ c.r13)
      × (back.r14 ≡ c.r14)
      × (back.r15 ≡ c.r15)
      × (back.rsp ≡ c.rsp)
      × (back.rip ≡ return_address)
unfolding switch_to restore_registers
switch_to-back return_address new_rsp c d room same room' apart = (
  word 40 (called.rsp - 8) (omega (arith, at)) (omega arith) ∙ (saved-words called below).5,
  word 32 (called.rsp - 16) (omega (arith, at)) (omega arith) ∙ (saved-words called below).4,
  word 24 (called.rsp - 24) (omega (arith, at)) (omega arith) ∙ (saved-words called below).3,
  word 16 (called.rsp - 32) (omega (arith, at)) (omega arith) ∙ (saved-words called below).2,
  word 8 (called.rsp - 40) (omega (arith, at)) (omega arith) ∙ (saved-words called below).1,
  ap (save_registers d).words (omega arith)
      ∙ word 0 (called.rsp - 48) (omega (arith, at)) (omega arith)
      ∙ (saved-words called below).0,
  at,
  word 48 called.rsp (omega (arith, at)) (omega arith)
      ∙ saved-outside called below called.rsp (inr (omega arith))
      ∙ pushed,
)
  where
    called : Cpu
    called = call return_address c

    w : ℕ → ℕ
    w = (save_registers called).words

    sp : ℕ
    sp = (save_registers called).rsp

    below : 48 ≤ called.rsp
    below = omega arith

    pushed : called.words called.rsp ≡ return_address
    pushed = ground arith

    at : sp + 56 ≡ c.rsp
    at = omega (arith, saved-rsp called below)

    word : (k a : ℕ) → a ≡ sp + k → k < 56 → (save_registers d).words (sp + k) ≡ w a
    word k a e lt =
        saved-outside d room' (sp + k) (ground (arith, at, apart))
        ∙ same (sp + k) (omega (arith, at)) (omega (arith, at))
        ∙ ap w (sym e)
