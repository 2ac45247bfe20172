-- ===== src/Task/Tests.antt =====
-- Three tasks in a circular list, and the frames of two stacks.
use tuna_os.Base.{
  ℕ, ◌+◌, ◌≡◌, refl, ◌⊎◌, inl, inr, List, [], ◌∷◌, ◌==◌, ==_iff, sym, Bool-cases, true, ◌++◌,
  if◌then◌else◌, arith,
}
use tuna_os.Kheap.{Kheap, kheap_start, header_size}
use tuna_os.Kheap.Blocks.{Block, free_block, used_block}
use tuna_os.Kheap.Chain.{IsHeap}
use tuna_os.Kheap.Tests.{half_used}
use tuna_os.Task.{
  Tasks, task_create, task_destroy, schedule, task_exit, initial_stack, task_ready, task_running,
  task_dead,
}
use tuna_os.Kheap.Live.{IsLive}
use tuna_os.Task.Lists.{member}
use tuna_os.Task.Ring.{IsRing}
use tuna_os.Task.Destroy.{IsDestroyed, task_destroy-IsDestroyed}
use tuna_os.Task.Reap.{alive}
use tuna_os.Task.Turn.{IsSched, IsIdle, IsSwitched}
use tuna_os.Task.Schedule.{schedule-cases}
use tuna_os.Task.Fair.{exiting, task_exit-cases}
use tuna_os.Task.Create.{IsCreated, IsRefused, task_create-cases}
use tuna_os.Task.Context.{Cpu, call, restore_registers, switch_to, switch_to-back}

abbrev blocks : List Block
blocks = used_block 64 ∷ used_block 64 ∷ used_block 64 ∷ free_block 3904 ∷ []

abbrev heap : Kheap
heap = record half_used {
  headers = λ a.
      if a == kheap_start + 192
      then record { size = 3904; free = 1; pad = 0 }
      else record { size = 64; free = 0; pad = 0 };
}

heap-IsHeap : IsHeap heap blocks
heap-IsHeap = record {
  start = refl;
  limit = omega arith;
  blocks = (omega arith, refl, (omega arith, refl, (omega arith, refl, (omega arith, refl, tt))));
  chain = (refl, refl, (refl, refl, (refl, refl, (refl, refl, refl))));
  nonempty = omega arith;
}

-- The places of the tasks.
abbrev pub first : ℕ
first = kheap_start + header_size

abbrev pub second : ℕ
second = first + 64

abbrev pub third : ℕ
third = first + 128

-- The first runs, the second is ready, and the third is in the given state.
abbrev pub three : (state : ℕ) → Tasks
three state = record {
  next_id = 3;
  current_task = first;
  task_list = first;
  nodes = λ a.
      if a == first
      then record { id = 0; rsp = 0; state = task_running; stack = 0; next = second }
      else if a == second
      then record { id = 1; rsp = 500; state = task_ready; stack = 0; next = third }
      else record { id = 2; rsp = 900; state = state; stack = 0; next = first };
  words = λ _. 0;
  heap = heap;
}

three-IsRing : (state : ℕ) → IsRing (three state) (first ∷ second ∷ third ∷ [])
three-IsRing state = record {
  cycle = (refl, (refl, refl));
  distinct = (refl, (refl, (refl, tt)));
  live = (blocks, heap-IsHeap, λ p m. live p m);
  listed = refl;
  room = omega arith;
}
  where
    -- Each pointer stands behind the header of a block in use.
    live : (p : ℕ) → member p (first ∷ second ∷ third ∷ []) ≡ true → IsLive heap blocks p
    live p m = elim (Bool-cases (first == p)) [
      | inl at ↦ let e = (==_iff first p).0 at in (kheap_start, 64, sym e, inl (refl, refl, refl))
      | inr other ↦ elim (Bool-cases (second == p)) [
        | inl at ↦
            let e = (==_iff second p).0 at in
            (kheap_start + 64, 64, sym e, inr (inl (refl, refl, refl)))
        | inr other' ↦
            let e : third ≡ p = ground (arith, ==_iff third p) in
            (kheap_start + 128, 64, sym e, inr (inr (inl (refl, refl, refl))))
      ]
    ]

three-IsSched : IsSched (three task_dead) first (second ∷ third ∷ [])
three-IsSched = record {
  current = refl;
  ring = three-IsRing task_dead;
  runs = inl refl;
  waiting = (inl refl, (inr refl, tt));
}

pub ready-IsSched : IsSched (three task_ready) first (second ∷ third ∷ [])
ready-IsSched = record {
  current = refl;
  ring = three-IsRing task_ready;
  runs = inl refl;
  waiting = (inl refl, (inl refl, tt));
}

task_destroy-IsDestroyed_example :
    IsDestroyed (three task_dead) first (second ∷ third ∷ []) (task_destroy first (three task_dead))
task_destroy-IsDestroyed_example =
    task_destroy-IsDestroyed (three task_dead) first second (third ∷ []) (three-IsRing task_dead)

schedule-cases_example :
    ((alive (three task_dead).nodes (second ∷ third ∷ []) ≡ [])
      × IsIdle (three task_dead) first (second ∷ third ∷ []) (schedule (three task_dead)))
    ⊎ ((n : ℕ) × (more : List ℕ) × (alive (three task_dead).nodes (second ∷ third ∷ []) ≡ n ∷ more)
        × IsSwitched
            (three task_dead)
            first
            (second ∷ third ∷ [])
            n
            more
            (schedule (three task_dead)))
schedule-cases_example = schedule-cases (three task_dead) first (second ∷ third ∷ []) three-IsSched

task_exit-cases_example :
    ((alive (three task_dead).nodes (second ∷ third ∷ []) ≡ [])
      × IsIdle
          (exiting (three task_dead))
          first
          (second ∷ third ∷ [])
          (task_exit (three task_dead)))
    ⊎ ((n : ℕ) × (more : List ℕ) × (alive (three task_dead).nodes (second ∷ third ∷ []) ≡ n ∷ more)
        × (w : IsSwitched
            (exiting (three task_dead))
            first
            (second ∷ third ∷ [])
            n
            more
            (task_exit (three task_dead)))
        × (alive w.state.nodes (more ++ first ∷ []) ≡ more))
task_exit-cases_example =
    task_exit-cases (three task_dead) first (second ∷ third ∷ []) three-IsSched

task_create-cases_example :
    IsCreated 0x1000 0x2000
      (three task_ready)
      (first ∷ second ∷ third ∷ [])
      (task_create 0x1000 0x2000 (three task_ready))
    ⊎ IsRefused
        (three task_ready)
        (first ∷ second ∷ third ∷ [])
        (task_create 0x1000 0x2000 (three task_ready))
task_create-cases_example =
    task_create-cases 0x1000 0x2000 (three task_ready) (second ∷ third ∷ [])
      (three-IsRing task_ready) (omega arith)

-- A processor on a stack of its own, with the frame of a new task at 0x4000.
abbrev cpu : (rsp : ℕ) → Cpu
cpu rsp = record {
  rbx = 1;
  rbp = 2;
  r12 = 3;
  r13 = 4;
  r14 = 5;
  r15 = 6;
  rsp = rsp;
  rip = 7;
  words = (initial_stack 0x1000 0x2000 0x4000 (λ _. 0)).1;
}

-- The processor after it went from one stack to the other.
abbrev away : Cpu
away = (switch_to 0x5fc8 (call 77 (cpu 0x9000))).1

switch_to-back_example :
    let back = (switch_to (switch_to 0x5fc8 (call 77 (cpu 0x9000))).0 away).1 in
    (back.rbx ≡ 1)
    × (back.rbp ≡ 2)
    × (back.r12 ≡ 3)
    × (back.r13 ≡ 4)
    × (back.r14 ≡ 5)
    × (back.r15 ≡ 6)
    × (back.rsp ≡ 0x9000)
    × (back.rip ≡ 77)
switch_to-back_example =
    switch_to-back 77 0x5fc8 (cpu 0x9000) away (omega arith) (λ a lo hi. refl)
      (unfold switch_to restore_registers in omega arith)
      (inr (unfold switch_to restore_registers in omega arith))
