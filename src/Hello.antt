-- ===== src/Hello.antt =====
-- user/hello.c: the sample program, as the system calls that it makes.
-- Its registers other than those that a call passes are whatever they are. The address of the
-- string is a parameter.
use tuna_os.Base.{ℕ, List}
use tuna_os.Strings.{codes}
use tuna_os.Idt.{Frame, Resume, resumes, halts, waits}
use tuna_os.Syscall.{System, syscall_dispatch}

-- SYS_WRITE and SYS_EXIT.
abbrev pub write_number : ℕ
write_number = 1

abbrev pub exit_number : ℕ
exit_number = 4

-- The registers at `int 0x80`, in `sys_write` and `sys_exit`.
abbrev pub write_call : (buf len : ℕ) → Frame → Frame
write_call buf len frame = record frame { rax = write_number; rdi = buf; rsi = len; vector = 128 }

abbrev pub exit_call : (code : ℕ) → Frame → Frame
exit_call code frame = record frame { rax = exit_number; rdi = code; vector = 128 }

abbrev pub message : List ℕ
message = codes "Hello from ELF!\n"

-- `_start`: the second call is made with the registers that the first one leaves.
unfoldable pub run_hello : (buf : ℕ) → Frame → System → Resume System
run_hello buf frame s = elim (syscall_dispatch (write_call buf 16 frame) s) [
  | resumes after s' ↦ syscall_dispatch (exit_call 0 after) s'
  | halts ↦ halts
  | waits ↦ waits
]
