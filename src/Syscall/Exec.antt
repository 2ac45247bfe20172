-- ===== src/Syscall/Exec.antt =====
-- kernel/src/syscall.c: a program that starts another one.
use tuna_os.Base.{
  ℕ, ◌≡◌, refl, ◌⊎◌, inl, inr, Bool, true, false, none, some, List, arith, ◌==◌, ltb, ◌||◌, ap, sym,
  ◌<◌, ==_iff, Bool-cases, ◌∙◌,
}
use tuna_os.Ramfs.{File, ramfs_find}
use tuna_os.Elf.{Machine, read_ehdr, elf_load}
use tuna_os.Elf.Header.{IsProgram, elf_load-cases}
use tuna_os.Usermode.{map_stack, user_code_rpl3, user_data_rpl3}
use tuna_os.Idt.{Frame, Resume, resumes, halts}
use tuna_os.Syscall.{
  System, image_of, exec_file, start_child, handle_exec, syscall_dispatch, child_stack_pages,
  child_stack_vaddr, answer, minus_one, load_bytes, until_zero,
}
use tuna_os.Syscall.Cases.{if_elim, option_elim}

-- Why a file was not started: it is no program, it has no entry point, or there was no frame for
-- the child's stack.
abbrev pub NotStarted : File → System → Type 0
NotStarted f s =
    (¬ IsProgram (image_of f s) f.size)
    ⊎ (((read_ehdr (image_of f s)).e_entry ≡ 0)
        ⊎ ((map_stack child_stack_pages child_stack_vaddr
              (elf_load (image_of f s) f.size s.machine).1).0
            ≡ false))

-- Why the call failed: the name is NULL or has none or more than 127 characters, no file has it,
-- or the file was not started.
abbrev pub ExecFailure : Frame → System → Type 0
ExecFailure frame s =
    ((frame.rdi ≡ 0) ⊎ ((frame.rsi ≡ 0) ⊎ (127 < frame.rsi)))
    ⊎ ((name : List ℕ) × (load_bytes frame.rsi frame.rdi s.machine ≡ some name)
        × ((ramfs_find (until_zero name) s.files ≡ none)
            ⊎ ((f : File) × (ramfs_find (until_zero name) s.files ≡ some f) × NotStarted f s)))

-- The call failed for a reason: -1, with nothing to come back from.
pub record IsFailed (frame : Frame) (s : System) (r : Resume System) : Type 0 where
  pub reason : ExecFailure frame s
  pub state : System
  pub returns : r ≡ answer minus_one frame state
  pub same_saved : state.saved_frame ≡ s.saved_frame
  pub same_child : state.child_running ≡ s.child_running

-- The child starts at the entry point of the program, on its own stack, in ring 3.
pub record IsStarted (frame : Frame) (s : System) (r : Resume System) : Type 0 where
  pub file : File
  pub name : List ℕ
  pub named : load_bytes frame.rsi frame.rdi s.machine ≡ some name
  pub found : ramfs_find (until_zero name) s.files ≡ some file
  pub program : IsProgram (image_of file s) file.size
  pub state : System
  pub returns :
      r
      ≡ resumes
          (record frame {
            rip = (read_ehdr (image_of file s)).e_entry;
            rsp = 0x902000;
            cs = user_code_rpl3;
            ss = user_data_rpl3;
            rflags = 0x202;
          })
          state
  pub saved : state.saved_frame ≡ frame
  pub running : state.child_running ≡ 1

module _ (frame : Frame) (s : System) where
  -- The result of a call of `sys_exec`.
  abbrev pub ExecOutcome : Resume System → Type 0
  ExecOutcome r =
      ((r ≡ halts) × (load_bytes frame.rsi frame.rdi s.machine ≡ none))
      ⊎ IsFailed frame s r
      ⊎ IsStarted frame s r

  failed :
      ExecFailure frame s
      → (m : Machine) → IsFailed frame s (answer minus_one frame (record s { machine = m }))
  failed reason m = record {
    reason = reason;
    state = record s { machine = m };
    returns = refl;
    same_saved = refl;
    same_child = refl;
  }

  exec-loaded :
      (f : File) (name : List ℕ)
      → load_bytes frame.rsi frame.rdi s.machine ≡ some name
      → ramfs_find (until_zero name) s.files ≡ some f
      → ExecOutcome (exec_file f frame s)
  unfolding exec_file start_child
  exec-loaded f name e e' =
      if_elim ExecOutcome (loaded.0 == 0) _ _
        (λ h. inr (inl (failed (inr (name, e, inr (f, e', unstarted h))) loaded.1)))
        λ entry.
          if_elim ExecOutcome (map_stack child_stack_pages child_stack_vaddr loaded.1).0 _ _
            (λ _. elim (elf_load-cases (image_of f s) f.size s.machine) [
              | inl (program, at) ↦ inr (
                  inr (record {
                    file = f;
                    name = name;
                    named = e;
                    found = e';
                    program = program;
                    state = record s {
                      machine = (map_stack child_stack_pages child_stack_vaddr loaded.1).1;
                      saved_frame = frame;
                      child_running = 1;
                    };
                    returns =
                        ap
                          (λ (r : ℕ × Machine).
                            resumes
                              (record frame {
                                rip = r.0;
                                rsp = 0x902000;
                                cs = user_code_rpl3;
                                ss = user_data_rpl3;
                                rflags = 0x202;
                              })
                              (record s {
                                machine =
                                    (map_stack child_stack_pages child_stack_vaddr loaded.1).1;
                                saved_frame = frame;
                                child_running = 1;
                              }))
                          at;
                    saved = refl;
                    running = refl;
                  }))
              | inr (_, at) ↦
                  let no_entry : loaded.0 ≡ 0 = ap (λ (r : ℕ × Machine). r.0) at in
                  let clash : ◌≡◌ {A = Bool} true false =
                    sym (ap (λ (n : ℕ). n == 0) no_entry) ∙ entry in
                  cc
            ])
            λ h. inr (
              inl (
                failed (inr (name, e, inr (f, e', inr (inr h))))
                  (map_stack child_stack_pages child_stack_vaddr loaded.1).1))
    where
      loaded : ℕ × Machine
      loaded = elf_load (image_of f s) f.size s.machine

      unstarted : (loaded.0 == 0) ≡ true → NotStarted f s
      unstarted h = elim (elf_load-cases (image_of f s) f.size s.machine) [
        | inl (_, at) ↦
            let entry : loaded.0 ≡ (read_ehdr (image_of f s)).e_entry =
              ap (λ (r : ℕ × Machine). r.0) at in
            inr (inl (sym entry ∙ (==_iff loaded.0 0).0 h))
        | inr (bad, _) ↦ inl bad
      ]

  bad_name :
      ((frame.rdi == 0) || ((frame.rsi == 0) || ltb 127 frame.rsi)) ≡ true
      → (frame.rdi ≡ 0) ⊎ ((frame.rsi ≡ 0) ⊎ (127 < frame.rsi))
  bad_name h = elim (Bool-cases (frame.rdi == 0)) [
    | inl none' ↦ inl ((==_iff frame.rdi 0).0 none')
    | inr given ↦ elim (Bool-cases (frame.rsi == 0)) [
      | inl empty ↦ inr (inl ((==_iff frame.rsi 0).0 empty))
      | inr some' ↦ inr (inr (ground arith))
    ]
  ]

  handle_exec-cases : ExecOutcome (handle_exec frame s)
  unfolding handle_exec
  handle_exec-cases =
      if_elim ExecOutcome ((frame.rdi == 0) || ((frame.rsi == 0) || ltb 127 frame.rsi))
        (answer minus_one frame s) _ (λ h. inr (inl (failed (inl (bad_name h)) s.machine)))
        λ _.
          option_elim ExecOutcome (load_bytes frame.rsi frame.rdi s.machine) halts _
            (λ e. inl (refl, e))
            λ name e.
              option_elim ExecOutcome (ramfs_find (until_zero name) s.files)
                (answer minus_one frame s) _
                (λ h. inr (inl (failed (inr (name, e, inl h)) s.machine)))
                λ f e'. exec-loaded f name e e'

  -- A call of `sys_exec` fails for a reason, with -1 and nothing to return from: the name is NULL,
  -- empty or too long, no file has it, or the file is no program, has no entry point or found no
  -- frame for its stack. Or it starts the program in the
  -- file of the given name at its entry point, in ring 3 on the child's stack, and keeps the
  -- caller's frame; or the name lies in a page that is not there, and the kernel halts.
  pub exec-cases : frame.rax ≡ 3 → ExecOutcome (syscall_dispatch frame s)
  unfolding syscall_dispatch
  exec-cases number = let call : (frame.rax == 3) ≡ true = ground arith in rw call handle_exec-cases
