-- ===== src/Syscall/Exit.antt =====
-- kernel/src/syscall.c: the return of a program to the one that started it.
use tuna_os.Base.{
  ℕ, ◌+◌, ◌%◌, ◌^◌, ◌≡◌, ◌≢◌, refl, true, false, List, [], ◌∷◌, arith, ◌==◌, ltb, leb, ◌||◌, u64,
  ap, sym, ◌∙◌,
}
use tuna_os.Elf.{Machine}
use tuna_os.Idt.{Frame, Resume, resumes, halts, waits}
use tuna_os.Syscall.{
  System, SyscallFn, sys_read, sys_write, sys_listfiles, call_function, call_read, call_write,
  call_listfiles, handle_exit, reload_shell, syscall_dispatch, answer, minus_one, load_bytes,
  max_syscalls,
}
use tuna_os.Syscall.Cases.{if_elim, option_elim}
use tuna_os.Syscall.Exec.{IsStarted}

-- Calls of a program in order, other than `sys_exec` and `sys_exit`, that return; between them the
-- program may write its memory.
abbrev pub Serves : List Frame → (s t : System) → Type 0
Serves [] s t = s ≡ t
Serves (frame ∷ frames) s t =
    (frame.rax ≢ 3)
    × (frame.rax ≢ 4)
    × ((m : Machine) × (after : Frame) × (s' : System) × (syscall_dispatch frame
            (record s { machine = m })
          ≡ resumes after s')
        × Serves frames s' t)

-- What the other calls leave alone.
abbrev SameChild : System → Resume System → Type 0
SameChild s (resumes frame s') =
    (s'.saved_frame ≡ s.saved_frame) × (s'.child_running ≡ s.child_running)
SameChild s halts = Unit {0}
SameChild s waits = Unit {0}

call_read-SameChild : (frame : Frame) (s : System) → SameChild s (call_read frame s)
unfolding call_read
call_read-SameChild frame s = by_keys s.keys
  where
    by_keys :
        (ks : List ℕ)
        → SameChild s (elim ks [
          | [] ↦ waits
          | key ∷ keys ↦ answer (key % 2 ^ 8) frame (record s { keys = keys })
        ])
    by_keys [] = tt
    by_keys (k ∷ ks) = (refl, refl)

call_function-SameChild :
    (f : SyscallFn) (frame : Frame) (s : System) → SameChild s (call_function f frame s)
unfolding call_function call_write call_listfiles
call_function-SameChild sys_read frame s = call_read-SameChild frame s
call_function-SameChild sys_write frame s =
    if_elim (SameChild s) ((frame.rdi == 0) || ltb (u64 (frame.rdi + frame.rsi)) frame.rdi)
      (answer minus_one frame s) _ (λ _. (refl, refl))
      λ _.
        option_elim (SameChild s) (load_bytes frame.rsi frame.rdi s.machine) halts _ (λ _. tt)
          λ bytes _. (refl, refl)
call_function-SameChild sys_listfiles frame s = (refl, refl)

dispatch-SameChild :
    (frame : Frame) (s : System)
    → frame.rax ≢ 3
    → frame.rax ≢ 4
    → SameChild s (syscall_dispatch frame s)
unfolding syscall_dispatch
dispatch-SameChild frame s not_exec not_exit =
    let e : (frame.rax == 3) ≡ false = ground (arith, not_exec) in
    let e' : (frame.rax == 4) ≡ false = ground (arith, not_exit) in
    rw (e, e')
      (if_elim (SameChild s) (leb max_syscalls frame.rax) (answer minus_one frame s) _
        (λ _. (refl, refl))
        λ _.
          option_elim (SameChild s) (s.syscall_table frame.rax) (answer minus_one frame s) _
            (λ _. (refl, refl)) λ f _. call_function-SameChild f frame s)

Serves-SameChild :
    (frames : List Frame) (s t : System)
    → Serves frames s t
    → (t.saved_frame ≡ s.saved_frame) × (t.child_running ≡ s.child_running)
Serves-SameChild [] s t e =
    (ap (λ (u : System). u.saved_frame) (sym e), ap (λ (u : System). u.child_running) (sym e))
Serves-SameChild (frame ∷ frames) s t (not_exec, not_exit, (m, after, s', e, more)) =
    let here = rw e at (dispatch-SameChild frame (record s { machine = m }) not_exec not_exit) in
    let later = Serves-SameChild frames s' t more in (later.0 ∙ here.0, later.1 ∙ here.1)

handle_exit-returns :
    (frame : Frame) (s : System)
    → (s.child_running == 0) ≡ false
    → handle_exit frame s
      ≡ resumes
          (record (s.saved_frame) { rax = 0 })
          (record s { child_running = 0; machine = reload_shell s })
unfolding handle_exit
handle_exit-returns frame s h = rw h refl

dispatch-exit :
    (frame : Frame) (s : System) → frame.rax ≡ 4 → syscall_dispatch frame s ≡ handle_exit frame s
unfolding syscall_dispatch
dispatch-exit frame s number =
    let not_exec : (frame.rax == 3) ≡ false = ground arith in
    let call : (frame.rax == 4) ≡ true = ground arith in rw (not_exec, call) refl

-- After a call of `sys_exec` that started a program, and any calls of the program other than
-- `sys_exec` and `sys_exit`, its `sys_exit` returns to the caller of `sys_exec`, whose registers are as they were but for 0 in
-- RAX; no child runs then.
pub exit-exec :
    (frame exit : Frame) (s t : System) (frames : List Frame)
    (start : IsStarted frame s (syscall_dispatch frame s))
    → Serves frames (start.state) t
    → exit.rax ≡ 4
    → (u : System) × (syscall_dispatch exit t ≡ resumes (record frame { rax = 0 }) u)
      × (u.child_running ≡ 0)
      × (u.machine ≡ reload_shell t)
exit-exec frame exit s t frames start calls number =
    let (same_saved, same_child) = Serves-SameChild frames start.state t calls in
    let runs : (t.child_running == 0) ≡ false =
      ap (λ (n : ℕ). n == 0) (same_child ∙ start.running) in
    (
      record t { child_running = 0; machine = reload_shell t },
      dispatch-exit exit t number
          ∙ handle_exit-returns exit t runs
          ∙ ap
              (λ (f : Frame).
                resumes (record f { rax = 0 })
                  (record t { child_running = 0; machine = reload_shell t }))
              (same_saved ∙ start.saved),
      refl,
      refl,
    )
