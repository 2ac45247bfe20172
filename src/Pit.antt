-- ===== src/Pit.antt =====
-- kernel/src/pit.c: the timer, from whose interrupt the scheduler is called. The messages on the
-- serial line are left out.
pub mod Ticks
pub mod Tests
use tuna_os.Base.{
  ℕ, ◌+◌, ◌*◌, ◌/◌, ◌%◌, ◌^◌, ◌==◌, if◌then◌else◌, Bool, true, false, Option, none, some, List, [],
  ◌∷◌, u8, u16, u64, bit_and, ◌>>>◌,
}
use tuna_os.Pic.{pic_eoi, irq_unmask}
use tuna_os.Task.{Tasks, Switch, schedule}

abbrev pub pit_base_freq : ℕ
pit_base_freq = 1193182

abbrev pub schedule_interval : ℕ
schedule_interval = 10

-- The static variables.
pub record Pit : Type 0 where
  pub tick_count : ℕ
  pub configured_frequency : ℕ

-- What an interrupt of the timer does: the commands to the interrupt controllers, and the switch
-- that the scheduler makes.
pub record Tick : Type 0 where
  pub pit : Pit
  pub commands : List (ℕ × ℕ)
  pub switch : Option Switch
  pub tasks : Tasks

-- `none` is a division by a frequency of zero, or a scheduler that does not return.
unfoldable pub pit_irq_handler : Pit → Tasks → Option Tick
pit_irq_handler s tasks =
    let counted = record s { tick_count = u64 (s.tick_count + 1) } in
    let quiet : Option Tick =
      some (record { pit = counted; commands = []; switch = none; tasks = tasks }) in
    let scheduled : Option Tick = elim (schedule tasks) [
      | none ↦ none
      | some (switch, tasks') ↦
          some (record { pit = counted; commands = pic_eoi 0; switch = switch; tasks = tasks' })
    ] in
    if s.configured_frequency == 0
    then none
    else if counted.tick_count % schedule_interval == 0
    then scheduled
    else quiet

abbrev pub divisor : (frequency : ℕ) → ℕ
divisor frequency = u16 (pit_base_freq / frequency)

-- The bytes written, each after its port, the variables, and what the interrupt controllers' data
-- ports read then; `none` is a division by zero. The handler is registered for line 0 by
-- `irq_register_handler`.
unfoldable pub pit_init :
    (frequency : ℕ) → Pit → (data_ports : ℕ → ℕ) → Option (List (ℕ × ℕ) × Pit × (ℕ → ℕ))
pit_init frequency s data_ports =
    if frequency == 0
    then none
    else some (
      (0x43, 0x34)
          ∷ (0x40, u8 (divisor frequency % 2 ^ 8))
          ∷ (0x40, u8 ((divisor frequency >>> 8) % 2 ^ 8))
          ∷ [],
      record s { configured_frequency = frequency },
      irq_unmask 0 data_ports,
    )

unfoldable pub pit_get_ticks : Pit → ℕ
pit_get_ticks s = s.tick_count
